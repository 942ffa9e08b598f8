-- ===== src/SocketActivation/Names.antt =====
-- The names that `FdIter` cuts from LISTEN_FDNAMES, against splitting the text at its colons.
use tere.Prelude.{
  ℕ, zero, suc, ◌+◌, ◌<◌, ◌≡◌, refl, Bool, true, false, List, [], ◌∷◌, ◌++◌, ◌==◌, if◌then◌else◌,
  length, arith, All,
}
use tere.Prelude.Int.{pos}
use tere.SocketActivation.{FileDescriptor, colon_index, optional_name}

-- The reference: the fields of a text between its colons.
abbrev pub cons_head : ℕ → List (List ℕ) → List (List ℕ)
cons_head c [] = (c ∷ []) ∷ []
cons_head c (x ∷ xs) = (c ∷ x) ∷ xs

unfoldable pub split : List ℕ → List (List ℕ)
split [] = [] ∷ []
split (c ∷ cs) = let rest = split cs in if c == b':' then [] ∷ rest else cons_head c rest

abbrev pub head_name : List (List ℕ) → List ℕ
head_name [] = []
head_name (x ∷ xs) = x

abbrev pub tail_names : List (List ℕ) → List (List ℕ)
tail_names [] = []
tail_names (x ∷ xs) = xs

-- `n` descriptors from `s` on, with the given names in order and none after them.
unfoldable pub descriptors : ℕ → List (List ℕ) → ℕ → List FileDescriptor
descriptors s xs zero = []
descriptors s xs (suc n) =
    record { name_ = optional_name (head_name xs); fd = pos s }
    ∷ descriptors (s + 1) (tail_names xs) n

abbrev pub NoColon : List ℕ → Type 0
NoColon = All (λ c. (c == b':') ≡ false)

-- A text has no colon, or is cut at its first one.
pub data Cut : List ℕ → Type 0 where
  whole : {xs : List ℕ} → NoColon xs → Cut xs
  cut : (a b : List ℕ) {xs : List ℕ} → NoColon a → xs ≡ a ++ b':' ∷ b → Cut xs

pub Cut-at : (xs : List ℕ) → Cut xs
Cut-at [] = whole tt
Cut-at (c ∷ cs) = later (c == b':') refl (Cut-at cs)
  where
    later : (t : Bool) → (c == b':') ≡ t → Cut cs → Cut (c ∷ cs)
    later true e r = cut [] cs tt (ground arith)
    later false e (whole h) = whole (e, h)
    later false e (cut a b h p) = cut (c ∷ a) b (e, h) (ground arith)

length-cons_head : (c : ℕ) (xs : List (List ℕ)) → 0 < length (cons_head c xs)
length-cons_head c [] = omega arith
length-cons_head c (x ∷ xs) = omega arith

pub split-pos : (xs : List ℕ) → 0 < length (split xs)
unfolding split
split-pos [] = omega arith
split-pos (c ∷ cs) = ground (arith, length-cons_head c (split cs))

pub split-whole : (xs : List ℕ) → NoColon xs → split xs ≡ xs ∷ []
unfolding split
split-whole [] h = refl
split-whole (c ∷ cs) h = ground (arith, split-whole cs h.1)

pub split-cut : (a b : List ℕ) → NoColon a → split (a ++ b':' ∷ b) ≡ a ∷ split b
unfolding split
split-cut [] b h = refl
split-cut (c ∷ cs) b h = ground (arith, split-cut cs b h.1)

pub colon_index-whole : (xs : List ℕ) → NoColon xs → colon_index xs ≡ length xs
unfolding colon_index
colon_index-whole [] h = refl
colon_index-whole (c ∷ cs) h = ground (arith, colon_index-whole cs h.1)

pub colon_index-cut : (a b : List ℕ) → NoColon a → colon_index (a ++ b':' ∷ b) ≡ length a
unfolding colon_index
colon_index-cut [] b h = refl
colon_index-cut (c ∷ cs) b h = ground (arith, colon_index-cut cs b h.1)
