-- ===== src/Ipc/Handshake/Framed.antt =====
-- A key derivation that tells any two inputs apart, with which the theorems about
-- server/src/ipc/handshake.rs have examples.
use tere.Prelude.{◌≡◌, refl, [], ◌∷◌, ◌++◌, length, arith}
use tere.Ipc.Bincode.{Bytes}

-- The context behind its length, and then the key material.
abbrev pub framed : Bytes → Bytes → Bytes
framed context material = length context ∷ context ++ material

append-injective : (x y a b : Bytes) → length x ≡ length y → x ++ a ≡ y ++ b → (x ≡ y) × (a ≡ b)
append-injective [] [] a b n e = (refl, e)
append-injective [] (d ∷ y) a b n e = absurd (omega arith)
append-injective (c ∷ x) [] a b n e = absurd (omega arith)
append-injective (c ∷ x) (d ∷ y) a b n e =
    let heads : c ≡ d = cc in
    let tails : x ++ a ≡ y ++ b = cc in
    let (xs, as_) = append-injective x y a b (omega arith) tails in (cc, as_)

pub framed-apart : (x y a b : Bytes) → framed x a ≡ framed y b → (x ≡ y) × (a ≡ b)
framed-apart x y a b e =
    let lengths : length x ≡ length y = cc in
    let rest : x ++ a ≡ y ++ b = cc in append-injective x y a b lengths rest
