-- ===== src/Prelude/Calls.antt =====
-- What a call of a Rust function may do: return `Ok`, return `Err`, or panic. `Act S E A` is such
-- a call over a state `S`; what was written before an error or a panic stays written.

use mathlib.Core.Bool.{Bool}
use mathlib.Core.Path.{◌≡◌, refl}

-- The reasons for which the program's code panics.
pub data Panic : Type 0 where
  slice_index : Panic  -- a slice whose start lies behind its end
  arithmetic_overflow : Panic  -- only where the build checks for it
  debug_assert : Panic  -- only where debug assertions are on
  expect : Panic  -- `expect` or `unwrap` on an error
  explicit : Panic  -- `panic!` and `todo!`

pub data Outcome {ℓ κ} (E : Type ℓ) (A : Type κ) : Type (ℓ ⊔ κ) where
  ok : A → Outcome E A
  err : E → Outcome E A
  panic : Panic → Outcome E A

abbrev pub Act {ℓ κ} : Type ℓ → Type κ → Type ℓ → Type (ℓ ⊔ κ)
Act S E A = S → Outcome E A × S

module _ {ℓ κ} {S : Type ℓ} {E : Type κ} {A : Type ℓ} where
  abbrev pub pure : A → Act S E A
  pure a s = (ok a, s)

  abbrev pub throw : E → Act S E A
  throw e s = (err e, s)

  abbrev pub panic_with : Panic → Act S E A
  panic_with p s = (panic p, s)

module _ {ℓ κ} {S : Type ℓ} {E : Type κ} {A B : Type ℓ} where
  abbrev pub continue : Outcome E A → (A → Act S E B) → Act S E B
  continue (ok a) f s = f a s
  continue (err e) f s = (err e, s)
  continue (panic p) f s = (panic p, s)

  infixl 5 ◌>>=◌ ◌>>◌
  abbrev pub ◌>>=◌ : Act S E A → (A → Act S E B) → Act S E B
  ◌>>=◌ m f s = continue (m s).0 f (m s).1

  abbrev pub ◌>>◌ : Act S E A → Act S E B → Act S E B
  m >> n = m >>= λ _. n

module _ {ℓ κ μ} {E : Type κ} {F : Type μ} {A : Type ℓ} where
  abbrev pub map_err_outcome : (E → F) → Outcome E A → Outcome F A
  map_err_outcome f (ok a) = ok a
  map_err_outcome f (err e) = err (f e)
  map_err_outcome f (panic p) = panic p

module _ {ℓ κ μ} {E : Type κ} {F : Type μ} {A : Type ℓ} where
  abbrev pub expect_outcome : Outcome E A → Outcome F A
  expect_outcome (ok a) = ok a
  expect_outcome (err e) = panic expect
  expect_outcome (panic p) = panic p

module _ {ℓ μ} {F : Type μ} {A : Type ℓ} where
  -- A call that has no errors, where errors of a type may follow.
  abbrev pub never_err : Outcome ⊥ A → Outcome F A
  never_err (ok a) = ok a
  never_err (err e) = absurd e
  never_err (panic p) = panic p

module _ {ℓ κ μ} {S : Type ℓ} {E : Type κ} {F : Type μ} {A : Type ℓ} where
  -- `.map_err(f)?`
  abbrev pub map_err : (E → F) → Act S E A → Act S F A
  map_err f m s = (map_err_outcome f (m s).0, (m s).1)

  -- `.expect(…)` and `.unwrap()`
  abbrev pub expect_ok : Act S E A → Act S F A
  expect_ok m s = (expect_outcome (m s).0, (m s).1)

module _ {ℓ κ μ} {E : Type κ} {A : Type ℓ} {B : Type μ} where
  -- `Result::and_then`
  abbrev pub and_then : Outcome E A → (A → Outcome E B) → Outcome E B
  and_then (ok a) f = f a
  and_then (err e) f = err e
  and_then (panic p) f = panic p

-- What the build profile decides: a debug build checks both.
pub record Build : Type 0 where
  pub overflow_checks : Bool
  pub debug_assertions : Bool

module _ {ℓ κ μ} {S : Type ℓ} {E : Type κ} {F : Type μ} {A B : Type ℓ} where
  -- Inversion of `m.map_err(f)?` where the whole call succeeded.
  pub try-ok :
      (f : E → F) (r : Outcome E A) (k : A → Act S F B) (s : S) {b : B}
      → (continue (map_err_outcome f r) k s).0 ≡ ok b
      → (a : A) × (r ≡ ok a) × ((k a s).0 ≡ ok b)
  try-ok f (ok a) k s h = (a, refl, h)
  try-ok f (err e) k s h = cc
  try-ok f (panic p) k s h = cc

module _ {ℓ κ} {S : Type ℓ} {E : Type κ} {A B : Type ℓ} where
  pub bind-ok :
      (r : Outcome E A) (k : A → Act S E B) (s : S) {b : B}
      → (continue r k s).0 ≡ ok b
      → (a : A) × (r ≡ ok a) × ((k a s).0 ≡ ok b)
  bind-ok (ok a) k s h = (a, refl, h)
  bind-ok (err e) k s h = cc
  bind-ok (panic p) k s h = cc

module _ {ℓ κ μ} {E : Type κ} {F : Type μ} {A : Type ℓ} where
  pub map_err-ok : (f : E → F) (r : Outcome E A) {a : A} → map_err_outcome f r ≡ ok a → r ≡ ok a
  map_err-ok f (ok x) h = cc
  map_err-ok f (err e) h = cc
  map_err-ok f (panic p) h = cc
