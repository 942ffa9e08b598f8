-- ===== src/SocketActivation/Descriptors.antt =====
-- The descriptors that a whole `for` loop over a fresh `FdIter` yields, and where it panics.
use tere.Prelude.{
  ℕ, zero, suc, ◌+◌, ◌^◌, ◌≤◌, ◌<◌, min, max, ◌≡◌, ◌≢◌, refl, ap, ◌∙◌, ◌⊎◌, inl, inr, some, List,
  [], ◌∷◌, ◌++◌, length, arith, ok, panic, slice_index, Build, length-append, append-nil,
}
use Prim.Native.Nat.add
use tere.Prelude.Int.{pos}
use tere.SocketActivation.{SocketActivation, optional_name, yielded, collect}
use tere.SocketActivation.Names.{
  split, descriptors, NoColon, Cut, whole, cut, Cut-at, split-whole, split-cut, split-pos,
}
use tere.SocketActivation.Iteration.{at, collect-end, collect-cut, collect-whole, yields, panics}

module _ (b : Build) (act : SocketActivation) where
  unnamed :
      (f n s : ℕ)
      → n < f
      → s + n < 2 ^ 31
      → collect b f (at act s n [] 0) ≡ some (ok (descriptors s [] n))
  unfolding descriptors
  unnamed zero n s lt small = absurd (omega arith)
  unnamed (suc f) zero s lt small = collect-end b act f s [] 0
  unnamed (suc f) (suc m) s lt small = rw (
    collect-whole b act f s m [] [] tt (omega arith),
    unnamed f m (s + 1) (omega arith) (omega arith),
  )

  descriptors-empty : (s n : ℕ) → descriptors s ([] ∷ []) n ≡ descriptors s [] n
  unfolding descriptors
  descriptors-empty s zero = refl
  descriptors-empty s (suc n) = refl

  -- A first name without a colon moves the offset to the end, and not past it.
  whole-round :
      (f s m : ℕ) (names : List ℕ)
      → NoColon names
      → s + 1 < 2 ^ 31
      → collect b (suc f) (at act s (suc m) names 0)
        ≡ yielded
            (ok (some (record { name_ = optional_name names; fd = pos s })))
            (collect b f (at act (s + 1) m (names ++ []) (length names)))
  whole-round f s m names h k =
      let ends : min (length names + 1) (length names) ≡ length names = omega arith in
      rw (collect-whole b act f s m [] names h k, add.zero, ends, append-nil names)

  named-yields :
      (f n s : ℕ) (names : List ℕ)
      → Cut names
      → n < f
      → s + n < 2 ^ 31
      → 0 < length names
      → n ≤ max 2 (length (split names))
      → collect b f (at act s n names 0) ≡ some (ok (descriptors s (split names) n))
  unfolding descriptors
  named-yields zero n s names c lt small some_names few = absurd (omega arith)
  named-yields (suc f) zero s names c lt small some_names few = collect-end b act f s names 0
  named-yields (suc f) (suc m) s names (whole h) lt small some_names few = rw (
    whole-round f s m names h (omega arith),
    yields b act f m (s + 1) names [] (omega arith) some_names
        (omega (arith, ap length (split-whole names h), split-pos [])) (omega arith),
    split-whole [] tt,
    descriptors-empty (s + 1) m,
    split-whole names h,
  )
  named-yields (suc f) (suc m) s names (cut a c h p) lt small some_names few =
      let more : length (split names) ≡ suc (length (split c)) =
        ap (λ r. length (split r)) p ∙ ap length (split-cut a c h) in
      rw (
        p,
        collect-cut b act f s m [] a c h (omega arith),
        split-cut a c h,
        yields b act f m (s + 1) (a ++ b':' ∷ []) c (omega arith)
            (omega (arith, length-append {0} a (b':' ∷ []))) (omega (arith, split-pos c))
            (omega arith),
      )

  named-panics :
      (f n s : ℕ) (names : List ℕ)
      → Cut names
      → n < f
      → s + n < 2 ^ 31
      → 0 < length names
      → max 2 (length (split names)) < n
      → collect b f (at act s n names 0) ≡ some (panic slice_index)
  named-panics zero n s names c lt small some_names many = absurd (omega arith)
  named-panics (suc f) zero s names c lt small some_names many = absurd (omega arith)
  named-panics (suc f) (suc m) s names (whole h) lt small some_names many = rw (
    whole-round f s m names h (omega arith),
    panics b act f m (s + 1) names [] (omega arith) some_names
        (omega (arith, ap length (split-whole [] tt))) (omega arith),
  )
  named-panics (suc f) (suc m) s names (cut a c h p) lt small some_names many =
      let more : length (split names) ≡ suc (length (split c)) =
        ap (λ r. length (split r)) p ∙ ap length (split-cut a c h) in
      rw (
        p,
        collect-cut b act f s m [] a c h (omega arith),
        panics b act f m (s + 1) (a ++ b':' ∷ []) c (omega arith)
            (omega (arith, length-append {0} a (b':' ∷ []))) (omega (arith, split-pos c))
            (omega arith),
      )

  -- A loop over `n` sockets that start at number `s` yields the descriptors `s`, `s + 1` and so
  -- on, each with its field of the names text, or with no name if that is empty or missing. This
  -- holds if the names text is empty, or has at least `n` fields, or `n` is at most 2.
  pub collect-descriptors :
      (f n s : ℕ) (names : List ℕ)
      → n < f
      → s + n < 2 ^ 31
      → (names ≡ []) ⊎ (n ≤ max 2 (length (split names)))
      → collect b f (at act s n names 0) ≡ some (ok (descriptors s (split names) n))
  collect-descriptors f n s [] lt small few =
      rw (split-whole [] tt, descriptors-empty s n) (unnamed f n s lt small)
  collect-descriptors f n s (x ∷ xs) lt small (inl e) = cc
  collect-descriptors f n s (x ∷ xs) lt small (inr few) =
      named-yields f n s (x ∷ xs) (Cut-at (x ∷ xs)) lt small (omega arith) few

  -- The loop panics on a slice index if the names text is not empty, and there are more than two
  -- sockets and more sockets than fields in that text.
  pub collect-panics :
      (f n s : ℕ) (names : List ℕ)
      → n < f
      → s + n < 2 ^ 31
      → names ≢ []
      → max 2 (length (split names)) < n
      → collect b f (at act s n names 0) ≡ some (panic slice_index)
  collect-panics f n s [] lt small named many = absurd (named refl)
  collect-panics f n s (x ∷ xs) lt small named many =
      named-panics f n s (x ∷ xs) (Cut-at (x ∷ xs)) lt small (omega arith) many
