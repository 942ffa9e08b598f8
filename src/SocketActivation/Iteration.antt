-- ===== src/SocketActivation/Iteration.antt =====
-- What a `for` loop over `FdIter` yields, for every list of names and every count.
use tere.Prelude.{
  ℕ, zero, suc, ◌+◌, ◌^◌, ◌≤◌, ◌<◌, min, ◌≡◌, refl, ap, ◌∙◌, none, some, List, [], ◌∷◌, ◌++◌,
  length, take, drop, arith, ok, panic, slice_index, Build, length-append, drop-append, take-append,
  append_assoc,
}
use tere.Prelude.Int.{pos}
use tere.SocketActivation.{
  SocketActivation, FdIter, colon_index, optional_name, add_one, next, yielded, collect,
}
use tere.SocketActivation.Names.{
  split, descriptors, NoColon, Cut, whole, cut, Cut-at, split-whole, split-cut, colon_index-whole,
  colon_index-cut,
}

abbrev pub at : SocketActivation → ℕ → ℕ → List ℕ → ℕ → FdIter
at act s n names o = record {
  activation = act;
  next = pos s;
  count = n;
  names = names;
  name_offset = o;
}

abbrev first_name : List ℕ → List ℕ
first_name rest = take (colon_index rest) rest

add_one-pos : (b : Build) (s : ℕ) → s + 1 < 2 ^ 31 → add_one b (pos s) ≡ ok (pos (s + 1))
unfolding add_one
add_one-pos b s h = ground arith

next-at :
    (b : Build) (act : SocketActivation) (s m : ℕ) (names : List ℕ) (o : ℕ)
    → o ≤ length names
    → s + 1 < 2 ^ 31
    → next b (at act s (suc m) names o) ≡ (
      ok (some (record { name_ = optional_name (first_name (drop o names)); fd = pos s })),
      at act (s + 1) m names (o + min (colon_index (drop o names) + 1) (length names)),
    )
unfolding next
next-at b act s m names o h k = ground (arith, add_one-pos b s k)

next-past :
    (b : Build) (act : SocketActivation) (s m : ℕ) (names : List ℕ) (o : ℕ)
    → length names < o
    → (next b (at act s (suc m) names o)).0 ≡ panic slice_index
unfolding next
next-past b act s m names o h = ground arith

next-end :
    (b : Build) (act : SocketActivation) (s : ℕ) (names : List ℕ) (o : ℕ)
    → (next b (at act s 0 names o)).0 ≡ ok none
unfolding next
next-end b act s names o = refl

module _ (b : Build) (act : SocketActivation) where
  pub collect-end :
      (f s : ℕ) (names : List ℕ) (o : ℕ) → collect b (suc f) (at act s 0 names o) ≡ some (ok [])
  unfolding collect next
  collect-end f s names o = refl

  pub collect-past :
      (f s m : ℕ) (names : List ℕ) (o : ℕ)
      → length names < o
      → collect b (suc f) (at act s (suc m) names o) ≡ some (panic slice_index)
  unfolding collect
  collect-past f s m names o h = rw (next-past b act s m names o h)

  collect-at :
      (f s m : ℕ) (names : List ℕ) (o : ℕ)
      → o ≤ length names
      → s + 1 < 2 ^ 31
      → collect b (suc f) (at act s (suc m) names o)
        ≡ yielded
            (ok (some (record { name_ = optional_name (first_name (drop o names)); fd = pos s })))
            (collect b f
              (at act (s + 1) m names (o + min (colon_index (drop o names) + 1) (length names))))
  unfolding collect
  collect-at f s m names o h k = rw (next-at b act s m names o h k)

take_all : (a : List ℕ) → take (length a) a ≡ a
take_all [] = refl
take_all (x ∷ a) = ap (λ ys. x ∷ ys) (take_all a)

offset-cut :
    (pre a b : List ℕ)
    → length pre + min (length a + 1) (length (pre ++ (a ++ b':' ∷ b)))
      ≡ length (pre ++ (a ++ b':' ∷ []))
offset-cut pre a b = omega (
  arith,
  length-append {0} pre (a ++ b':' ∷ b),
  length-append {0} a (b':' ∷ b),
  length-append {0} pre (a ++ b':' ∷ []),
  length-append {0} a (b':' ∷ []),
)

regroup : (pre a b : List ℕ) → pre ++ (a ++ b':' ∷ b) ≡ (pre ++ (a ++ b':' ∷ [])) ++ b
regroup pre a b = simp append_assoc

module _ (b : Build) (act : SocketActivation) where
  -- One round over a name that ends in a colon.
  pub collect-cut :
      (f s m : ℕ) (pre a c : List ℕ)
      → NoColon a
      → s + 1 < 2 ^ 31
      → collect b (suc f) (at act s (suc m) (pre ++ (a ++ b':' ∷ c)) (length pre))
        ≡ yielded (ok (some (record { name_ = optional_name a; fd = pos s }))) (
            collect b f (
              at act (s + 1) m ((pre ++ (a ++ b':' ∷ [])) ++ c) (length (pre ++ (a ++ b':' ∷ [])))))
  collect-cut f s m pre a c h k = rw (
    collect-at b act f s m (pre ++ (a ++ b':' ∷ c)) (length pre)
        (omega (arith, length-append {0} pre (a ++ b':' ∷ c))) k,
    drop-append pre (a ++ b':' ∷ c),
    colon_index-cut a c h,
    take-append a (b':' ∷ c),
    offset-cut pre a c,
    regroup pre a c,
  )

  -- One round over the last name, behind which the offset passes the end.
  pub collect-whole :
      (f s m : ℕ) (pre a : List ℕ)
      → NoColon a
      → s + 1 < 2 ^ 31
      → collect b (suc f) (at act s (suc m) (pre ++ a) (length pre))
        ≡ yielded (ok (some (record { name_ = optional_name a; fd = pos s }))) (
            collect b f
              (at act (s + 1) m (pre ++ a) (length pre + min (length a + 1) (length (pre ++ a)))))
  collect-whole f s m pre a h k = rw (
    collect-at b act f s m (pre ++ a) (length pre) (omega (arith, length-append {0} pre a)) k,
    drop-append pre a,
    colon_index-whole a h,
    take_all a,
  )

module _ (b : Build) (act : SocketActivation) where
  -- Behind the first name: as many descriptors as there are names.
  abbrev pub Yields : ℕ → ℕ → ℕ → List ℕ → List ℕ → Type 0
  Yields f n s pre rest =
      collect b f (at act s n (pre ++ rest) (length pre)) ≡ some (ok (descriptors s (split rest) n))

  Yields-step :
      (f m s : ℕ) (pre rest : List ℕ)
      → ((pre' rest' : List ℕ)
          → 0 < length pre'
          → m ≤ length (split rest')
          → Yields f m (s + 1) pre' rest')
      → Cut rest
      → m < f
      → suc m ≤ length (split rest)
      → s + suc m < 2 ^ 31
      → Yields (suc f) (suc m) s pre rest
  unfolding descriptors
  Yields-step zero m s pre rest ih c lt few small = absurd (omega arith)
  Yields-step (suc f) zero s pre rest ih (whole h) lt few small = rw (
    collect-whole b act (suc f) s 0 pre rest h (omega arith),
    collect-end b act f (s + 1) (pre ++ rest) _,
    split-whole rest h,
  )
  Yields-step (suc f) (suc m) s pre rest ih (whole h) lt few small =
      absurd (omega (arith, ap length (split-whole rest h)))
  Yields-step (suc f) m s pre rest ih (cut a c h p) lt few small =
      let more : length (split rest) ≡ suc (length (split c)) =
        ap (λ r. length (split r)) p ∙ ap length (split-cut a c h) in
      rw (
        p,
        collect-cut b act (suc f) s m pre a c h (omega arith),
        split-cut a c h,
        ih (pre ++ (a ++ b':' ∷ [])) c
            (omega (arith, length-append {0} pre (a ++ b':' ∷ []), length-append {0} a (b':' ∷ [])))
            (omega arith),
      )

  pub yields :
      (f n s : ℕ) (pre rest : List ℕ)
      → n < f
      → 0 < length pre
      → n ≤ length (split rest)
      → s + n < 2 ^ 31
      → Yields f n s pre rest
  unfolding descriptors
  yields zero n s pre rest lt behind few small = absurd (omega arith)
  yields (suc f) zero s pre rest lt behind few small = collect-end b act f s (pre ++ rest) _
  yields (suc f) (suc m) s pre rest lt behind few small =
      Yields-step f m s pre rest
        (λ pre' rest' behind' few'.
          yields f m (s + 1) pre' rest' (omega arith) behind' few' (omega arith))
        (Cut-at rest) (omega arith) few small

  abbrev pub Panics : ℕ → ℕ → ℕ → List ℕ → List ℕ → Type 0
  Panics f n s pre rest =
      collect b f (at act s n (pre ++ rest) (length pre)) ≡ some (panic slice_index)

  Panics-step :
      (f m s : ℕ) (pre rest : List ℕ)
      → ((pre' rest' : List ℕ)
          → 0 < length pre'
          → length (split rest') < m
          → Panics f m (s + 1) pre' rest')
      → Cut rest
      → m < f
      → 0 < length pre
      → length (split rest) < suc m
      → s + suc m < 2 ^ 31
      → Panics (suc f) (suc m) s pre rest
  Panics-step zero m s pre rest ih c lt behind many small = absurd (omega arith)
  Panics-step (suc f) zero s pre rest ih (whole h) lt behind many small =
      absurd (omega (arith, ap length (split-whole rest h)))
  Panics-step (suc f) (suc m) s pre rest ih (whole h) lt behind many small = rw (
    collect-whole b act (suc f) s (suc m) pre rest h (omega arith),
    collect-past b act f (s + 1) m (pre ++ rest)
        (length pre + min (length rest + 1) (length (pre ++ rest)))
        (omega (arith, length-append {0} pre rest)),
  )
  Panics-step (suc f) m s pre rest ih (cut a c h p) lt behind many small =
      let more : length (split rest) ≡ suc (length (split c)) =
        ap (λ r. length (split r)) p ∙ ap length (split-cut a c h) in
      rw (
        p,
        collect-cut b act (suc f) s m pre a c h (omega arith),
        ih (pre ++ (a ++ b':' ∷ [])) c
            (omega (arith, length-append {0} pre (a ++ b':' ∷ []), length-append {0} a (b':' ∷ [])))
            (omega arith),
      )

  pub panics :
      (f n s : ℕ) (pre rest : List ℕ)
      → n < f
      → 0 < length pre
      → length (split rest) < n
      → s + n < 2 ^ 31
      → Panics f n s pre rest
  panics zero n s pre rest lt behind many small = absurd (omega arith)
  panics (suc f) zero s pre rest lt behind many small = absurd (omega arith)
  panics (suc f) (suc m) s pre rest lt behind many small =
      Panics-step f m s pre rest
        (λ pre' rest' behind' many'.
          panics f m (s + 1) pre' rest' (omega arith) behind' many' (omega arith))
        (Cut-at rest) (omega arith) behind many small
