-- ===== src/BuildScript/Examples.antt =====
-- Two walks over one file, of which one also meets a directory.
use tere.Prelude.{◌≡◌, refl, List, [], ◌∷◌, codes, length, ◌↔◌, ok}
use tere.Ipc.Handshake.Framed.{framed, framed-apart}
use tere.Ipc.Handshake.Wire.{dialogue}
use tere.BuildScript.Agreement.{dialogue-sources}
use tere.BuildScript.{
  Entry, directory, file, symlink, Blake3, sources, encoded, hash_protocol_identity, main,
  hash_protocol_identity_injective,
}

-- A short hash, which does not collide on the two walks.
abbrev short : Blake3
short = record { hash = λ bs. length bs ∷ []; to_hex = λ bs. bs }

abbrev first : List Entry
first = directory ∷ file (codes "p") (codes "x") ∷ symlink (codes "q") (codes "p") ∷ []

abbrev second : List Entry
second = file (codes "p") (codes "x") ∷ symlink (codes "q") (codes "p") ∷ []

same_sources : sources first ≡ sources second
unfolding hash_protocol_identity
same_sources =
    hash_protocol_identity_injective short first second
      (short.hash (encoded short (sources second))) ((λ e. refl), tt) (λ e. refl) (λ x y. refl)
      (λ x y e. e) ((refl, tt), (((refl, tt), (refl, tt)), tt))
      ((refl, tt), (((refl, tt), (refl, tt)), tt)) refl refl

dialogue-sources_example :
    ((dialogue framed
        (short.hash (encoded short (sources first)))
        (short.hash (encoded short (sources second)))
        (codes "client")
        (codes "server")
        (codes "client")
        (codes "server")).0
      ≡ ok tt)
    ↔ ((codes "client" ≡ codes "client")
        × (codes "server" ≡ codes "server")
        × (sources first ≡ sources second))
unfolding main
dialogue-sources_example =
    dialogue-sources short framed first second (short.hash (encoded short (sources first)))
      (short.hash (encoded short (sources second))) (codes "client") (codes "server")
      (codes "client") (codes "server") refl refl ((λ e. refl), tt) (λ e. refl) (λ x y. refl)
      (λ x y e. e) ((refl, tt), (((refl, tt), (refl, tt)), tt))
      ((refl, tt), (((refl, tt), (refl, tt)), tt)) framed-apart
