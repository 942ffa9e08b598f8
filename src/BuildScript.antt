-- ===== src/BuildScript.antt =====
-- server/build.rs: the protocol identity, a hash over the sources that define the protocol. What a
-- walk over the source directories yields is an argument.
pub mod Agreement
mod Examples
use tere.Prelude.{
  ℕ, suc, ◌≡◌, refl, sym, ap, ◌∙◌, true, false, List, [], ◌∷◌, ◌++◌, length, codes, ◌==◌, Outcome,
  ok, err, panic, expect, explicit, arith, All, append_assoc, append-nil,
}
use tere.Ipc.Bincode.{Bytes}

-- One result of the walk: an error, or a path with what opening and reading it gives.
pub data Entry : Type 0 where
  walk_failed open_failed : Entry
  symlink : (path dst : Bytes) → Entry
  unreadable_symlink : (path : Bytes) → Entry
  directory unreadable_file : Entry
  file : (path contents : Bytes) → Entry

-- blake3, as a function of all the bytes that its updates were given, and the hexadecimal form.
pub record Blake3 : Type 0 where
  pub hash : Bytes → Bytes
  pub to_hex : Bytes → Bytes

abbrev pub directive : Bytes → Bytes
directive protocol_identity =
    codes "cargo:rustc-env=TERE_PROTOCOL_IDENTITY=" ++ (protocol_identity ++ codes "\n")

module _ (blake : Blake3) where
  -- The updates for one entry; a hasher is the bytes that it was given.
  unfoldable pub update_entry : Entry → Bytes → Outcome ⊥ Bytes
  update_entry walk_failed hasher = panic expect
  update_entry open_failed hasher = panic explicit
  update_entry (symlink path dst) hasher =
      ok ((((hasher ++ path) ++ 0 ∷ []) ++ b'L' ∷ []) ++ dst ++ 0 ∷ [])
  update_entry (unreadable_symlink path) hasher = panic expect
  update_entry directory hasher = ok hasher
  update_entry unreadable_file hasher = panic explicit
  update_entry (file path contents) hasher =
      ok ((((hasher ++ path) ++ 0 ∷ []) ++ b'F' ∷ []) ++ blake.hash contents ++ 0 ∷ [])

  abbrev pub then_entries : Outcome ⊥ Bytes → (Bytes → Outcome ⊥ Bytes) → Outcome ⊥ Bytes
  then_entries (ok h) k = k h
  then_entries (err e) k = absurd e
  then_entries (panic p) k = panic p

  unfoldable pub update_entries : List Entry → Bytes → Outcome ⊥ Bytes
  unfolding update_entry
  update_entries [] hasher = ok hasher
  update_entries (e ∷ es) hasher = then_entries (update_entry e hasher) (λ h. update_entries es h)

  unfoldable pub hash_protocol_identity : List Entry → Outcome ⊥ Bytes
  unfolding update_entries
  hash_protocol_identity walk =
      then_entries (update_entries walk []) (λ h. ok (blake.to_hex (blake.hash h)))

  -- What `main` writes to its standard output: a directive for cargo, which makes the identity the
  -- value of TERE_PROTOCOL_IDENTITY in the compilation of the library.
  unfoldable pub main : List Entry → Outcome ⊥ Bytes
  unfolding hash_protocol_identity
  main walk =
      then_entries (hash_protocol_identity walk)
        (λ protocol_identity. ok (directive protocol_identity))

-- What the identity is meant to stand for: every path that is not a directory, with the target of a
-- symlink or the contents of a file.
pub data Source : Type 0 where
  link : (path dst : Bytes) → Source
  text : (path contents : Bytes) → Source

abbrev pub sources : List Entry → List Source
sources [] = []
sources (symlink path dst ∷ es) = link path dst ∷ sources es
sources (file path contents ∷ es) = text path contents ∷ sources es
sources (_ ∷ es) = sources es

abbrev pub NoNul : Bytes → Type 0
NoNul bs = All (λ c. (c == 0) ≡ false) bs

-- Paths on UNIX hold no NUL.
abbrev pub IsPath : Source → Type 0
IsPath (link path dst) = NoNul path × NoNul dst
IsPath (text path contents) = NoNul path

nul_split : (a b x y : Bytes) → NoNul a → NoNul b → a ++ 0 ∷ x ≡ b ++ 0 ∷ y → (a ≡ b) × (x ≡ y)
nul_split [] [] x y h k e = (refl, cc)
nul_split [] (c ∷ b) x y h k e = let zero_head : 0 ≡ c = cc in let z = k.0 in absurd (ground arith)
nul_split (c ∷ a) [] x y h k e = let zero_head : c ≡ 0 = cc in let z = h.0 in absurd (ground arith)
nul_split (c ∷ a) (d ∷ b) x y h k e =
    let heads : c ≡ d = cc in
    let tails : a ++ 0 ∷ x ≡ b ++ 0 ∷ y = cc in
    let (same, rest) = nul_split a b x y h.1 k.1 tails in (cc, rest)

length_split : (a b x y : Bytes) → length a ≡ length b → a ++ x ≡ b ++ y → (a ≡ b) × (x ≡ y)
length_split [] [] x y n e = (refl, e)
length_split [] (d ∷ b) x y n e = absurd (omega arith)
length_split (c ∷ a) [] x y n e = absurd (omega arith)
length_split (c ∷ a) (d ∷ b) x y n e =
    let heads : c ≡ d = cc in
    let tails : a ++ x ≡ b ++ y = cc in
    let (same, rest) = length_split a b x y (omega arith) tails in (cc, rest)

module _ (blake : Blake3) where
  -- All the bytes that the hasher is given for a list of sources.
  abbrev pub encoded : List Source → Bytes
  encoded [] = []
  encoded (link path dst ∷ ss) = path ++ 0 ∷ b'L' ∷ (dst ++ 0 ∷ encoded ss)
  encoded (text path contents ∷ ss) = path ++ 0 ∷ b'F' ∷ (blake.hash contents ++ 0 ∷ encoded ss)

  -- Contents that stand at the same place in the two lists have the same hash only if they are the
  -- same.
  abbrev pub NoCollision : List Source → List Source → Type 0
  NoCollision (text p c ∷ ss) (text q d ∷ ts) =
      (blake.hash c ≡ blake.hash d → c ≡ d) × NoCollision ss ts
  NoCollision (s ∷ ss) (t ∷ ts) = NoCollision ss ts
  NoCollision _ _ = Unit

  encoded-injective :
      (ss ts : List Source)
      → NoCollision ss ts
      → ((x y : Bytes) → length (blake.hash x) ≡ length (blake.hash y))
      → All IsPath ss
      → All IsPath ts
      → encoded ss ≡ encoded ts
      → ss ≡ ts
  encoded-injective [] [] apart long h k e = refl
  encoded-injective [] (link [] d ∷ ts) apart long h k e = cc
  encoded-injective [] (link (c ∷ p) d ∷ ts) apart long h k e = cc
  encoded-injective [] (text [] d ∷ ts) apart long h k e = cc
  encoded-injective [] (text (c ∷ p) d ∷ ts) apart long h k e = cc
  encoded-injective (link [] d ∷ ss) [] apart long h k e = cc
  encoded-injective (link (c ∷ p) d ∷ ss) [] apart long h k e = cc
  encoded-injective (text [] d ∷ ss) [] apart long h k e = cc
  encoded-injective (text (c ∷ p) d ∷ ss) [] apart long h k e = cc
  encoded-injective (link p d ∷ ss) (link q f ∷ ts) apart long h k e =
      let (paths, rest) =
        nul_split p q (b'L' ∷ (d ++ 0 ∷ encoded ss)) (b'L' ∷ (f ++ 0 ∷ encoded ts)) h.0.0 k.0.0 e in
      let tails : d ++ 0 ∷ encoded ss ≡ f ++ 0 ∷ encoded ts = cc in
      let (targets, others) = nul_split d f (encoded ss) (encoded ts) h.0.1 k.0.1 tails in
      let more = encoded-injective ss ts apart long h.1 k.1 others in cc
  encoded-injective (link p d ∷ ss) (text q f ∷ ts) apart long h k e =
      let (paths, rest) =
        nul_split p q (b'L' ∷ (d ++ 0 ∷ encoded ss)) (b'F' ∷ (blake.hash f ++ 0 ∷ encoded ts)) h.0.0
          k.0 e in
      let kinds : ◌≡◌ {A = ℕ} b'L' b'F' = cc in absurd (omega arith)
  encoded-injective (text p d ∷ ss) (link q f ∷ ts) apart long h k e =
      let (paths, rest) =
        nul_split p q (b'F' ∷ (blake.hash d ++ 0 ∷ encoded ss)) (b'L' ∷ (f ++ 0 ∷ encoded ts)) h.0
          k.0.0 e in
      let kinds : ◌≡◌ {A = ℕ} b'F' b'L' = cc in absurd (omega arith)
  encoded-injective (text p d ∷ ss) (text q f ∷ ts) apart long h k e =
      let (paths, rest) =
        nul_split p q (b'F' ∷ (blake.hash d ++ 0 ∷ encoded ss))
          (b'F' ∷ (blake.hash f ++ 0 ∷ encoded ts)) h.0 k.0 e in
      let tails : blake.hash d ++ 0 ∷ encoded ss ≡ blake.hash f ++ 0 ∷ encoded ts = cc in
      let (hashes, others) =
        length_split (blake.hash d) (blake.hash f) (0 ∷ encoded ss) (0 ∷ encoded ts) (long d f)
          tails in
      let contents : d ≡ f = apart.0 hashes in
      let ends : encoded ss ≡ encoded ts = cc in
      let more = encoded-injective ss ts apart.1 long h.1 k.1 ends in cc

  assoc_four :
      (h p q r : Bytes) (x : ℕ)
      → ((((h ++ p) ++ 0 ∷ []) ++ x ∷ []) ++ q ++ 0 ∷ []) ++ r ≡ h ++ (p ++ 0 ∷ x ∷ (q ++ 0 ∷ r))
  assoc_four h p q r x = simp append_assoc

  pub update_entries-encoded :
      (es : List Entry) (h r : Bytes)
      → update_entries blake es h ≡ ok r
      → r ≡ h ++ encoded (sources es)
  unfolding update_entries
  update_entries-encoded [] h r e = let same : h ≡ r = cc in rw (← same) (sym (append-nil h))
  update_entries-encoded (walk_failed ∷ es) h r e = cc
  update_entries-encoded (open_failed ∷ es) h r e = cc
  update_entries-encoded (unreadable_symlink p ∷ es) h r e = cc
  update_entries-encoded (unreadable_file ∷ es) h r e = cc
  update_entries-encoded (directory ∷ es) h r e = update_entries-encoded es h r e
  update_entries-encoded (symlink p d ∷ es) h r e =
      update_entries-encoded es _ r e ∙ assoc_four h p d (encoded (sources es)) b'L'
  update_entries-encoded (file p c ∷ es) h r e =
      update_entries-encoded es _ r e ∙ assoc_four h p (blake.hash c) (encoded (sources es)) b'F'

  pub update_entries-ok :
      (es : List Entry) (x : Bytes)
      → hash_protocol_identity blake es ≡ ok x
      → (r : Bytes) × (update_entries blake es [] ≡ ok r) × (blake.to_hex (blake.hash r) ≡ x)
  unfolding hash_protocol_identity
  update_entries-ok es x e = at (update_entries blake es []) refl e
    where
      at :
          (o : Outcome ⊥ Bytes)
          → update_entries blake es [] ≡ o
          → then_entries blake o (λ h. ok (blake.to_hex (blake.hash h))) ≡ ok x
          → (r : Bytes) × (update_entries blake es [] ≡ ok r) × (blake.to_hex (blake.hash r) ≡ x)
      at (ok h) q g = (h, q, cc)
      at (err n) q g = absurd n
      at (panic p) q g = cc

  -- If two builds have the same protocol identity, their walks found the same sources: the same
  -- paths in the same order, each with the same target of a symlink or the same contents of a file.
  -- This supposes that the hashes of the two builds do not collide, that hashes are of one length
  -- and differ in hexadecimal, and that paths and targets hold no NUL.
  pub hash_protocol_identity_injective :
      (es fs : List Entry) (x : Bytes)
      → NoCollision (sources es) (sources fs)
      → (blake.hash (encoded (sources es)) ≡ blake.hash (encoded (sources fs))
          → encoded (sources es) ≡ encoded (sources fs))
      → ((x y : Bytes) → length (blake.hash x) ≡ length (blake.hash y))
      → ((x y : Bytes) → blake.to_hex x ≡ blake.to_hex y → x ≡ y)
      → All IsPath (sources es)
      → All IsPath (sources fs)
      → hash_protocol_identity blake es ≡ ok x
      → hash_protocol_identity blake fs ≡ ok x
      → sources es ≡ sources fs
  hash_protocol_identity_injective es fs x apart total long hex h k e f =
      let (r, re, rx) = update_entries-ok es x e in
      let (s, se, sx) = update_entries-ok fs x f in
      let left : r ≡ encoded (sources es) = update_entries-encoded es [] r re in
      let right : s ≡ encoded (sources fs) = update_entries-encoded fs [] s se in
      let hashes : blake.hash r ≡ blake.hash s = hex (blake.hash r) (blake.hash s) (rx ∙ sym sx) in
      let same = total (sym (ap blake.hash left) ∙ hashes ∙ ap blake.hash right) in
      encoded-injective (sources es) (sources fs) apart long h k same
