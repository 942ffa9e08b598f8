-- ===== src/BuildScript/Agreement.antt =====
-- What the identity of server/build.rs makes of the handshake in server/src/ipc/handshake.rs.
use tere.Prelude.{◌≡◌, ◌↔◌, sym, ap, ◌∙◌, List, [], length, codes, Outcome, ok, err, panic, All}
use mathlib.Core.List.{append_cancel_left, append_cancel_right}
use tere.Ipc.Bincode.{Bytes}
use tere.Ipc.Handshake.Wire.{dialogue, dialogue-ok}
use tere.BuildScript.{
  Entry, Blake3, then_entries, hash_protocol_identity, main, directive, sources, encoded, IsPath,
  NoCollision, update_entries-encoded, update_entries-ok, hash_protocol_identity_injective,
}

directive-injective : (x y : Bytes) → directive x ≡ directive y → x ≡ y
directive-injective x y e =
    append_cancel_right x y (codes "\n")
      (append_cancel_left (codes "cargo:rustc-env=TERE_PROTOCOL_IDENTITY=") _ _ e)

module _ (blake : Blake3) where
  main-ok :
      (es : List Entry) (x : Bytes)
      → main blake es ≡ ok (directive x)
      → hash_protocol_identity blake es ≡ ok x
  unfolding main
  main-ok es x h = at (hash_protocol_identity blake es) h
    where
      at :
          (r : Outcome ⊥ Bytes)
          → then_entries blake r (λ y. ok (directive y)) ≡ ok (directive x)
          → r ≡ ok x
      at (ok y) g =
          let same : directive y ≡ directive x = cc in ap ok (directive-injective y x same)
      at (err n) g = absurd n
      at (panic p) g = cc

  -- The identity is a function of the sources.
  identity_of_sources :
      (es fs : List Entry) (x y : Bytes)
      → sources es ≡ sources fs
      → hash_protocol_identity blake es ≡ ok x
      → hash_protocol_identity blake fs ≡ ok y
      → x ≡ y
  identity_of_sources es fs x y same e f =
      let (r, re, rx) = update_entries-ok blake es x e in
      let (s, se, sy) = update_entries-ok blake fs y f in
      let left : r ≡ encoded blake (sources es) = update_entries-encoded blake es [] r re in
      let right : s ≡ encoded blake (sources fs) = update_entries-encoded blake fs [] s se in
      let texts : r ≡ s = left ∙ ap (encoded blake) same ∙ sym right in
      sym rx ∙ ap (λ t. blake.to_hex (blake.hash t)) texts ∙ sy

  -- Two programs, each with the identity that the build script printed for its sources, agree in a
  -- handshake exactly when they expect the same two intents and were built from the same sources:
  -- the same paths in the same order, with the same targets of symlinks and the same contents of
  -- files. This supposes that the key derivation tells any two inputs apart, that the hashes of the
  -- two builds do not collide, that hashes are of one length and differ in hexadecimal, and that
  -- paths and targets hold no NUL.
  pub dialogue-sources :
      (derive_key : Bytes → Bytes → Bytes) (es fs : List Entry) (x y : Bytes)
      (ci si ci' si' : Bytes)
      → main blake es ≡ ok (directive x)
      → main blake fs ≡ ok (directive y)
      → NoCollision blake (sources es) (sources fs)
      → (blake.hash (encoded blake (sources es)) ≡ blake.hash (encoded blake (sources fs))
          → encoded blake (sources es) ≡ encoded blake (sources fs))
      → ((a c : Bytes) → length (blake.hash a) ≡ length (blake.hash c))
      → ((a c : Bytes) → blake.to_hex a ≡ blake.to_hex c → a ≡ c)
      → All IsPath (sources es)
      → All IsPath (sources fs)
      → ((p q a c : Bytes) → derive_key p a ≡ derive_key q c → (p ≡ q) × (a ≡ c))
      → ((dialogue derive_key x y ci si ci' si').0 ≡ ok tt)
        ↔ ((ci ≡ ci') × (si ≡ si') × (sources es ≡ sources fs))
  dialogue-sources derive_key es fs x y ci si ci' si' me mf apart total long hex h k derive =
      let e = main-ok es x me in
      let f = main-ok fs y mf in
      let agree = dialogue-ok derive_key x y ci si ci' si' derive in
      (
        λ d.
            let (cs, ss, xy) = agree.0 d in
            (
              cs,
              ss,
              hash_protocol_identity_injective blake es fs x apart total long hex h k e
                  (f ∙ ap ok (sym xy)),
            ),
        λ (cs, ss, same). agree.1 (cs, ss, identity_of_sources es fs x y same e f),
      )
