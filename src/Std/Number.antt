-- ===== src/Std/Number.antt =====
-- `str::parse` into an unsigned integer below `limit`, with the standard library's errors.
use tere.Prelude.{
  ℕ, zero, suc, ◌/◌, ◌%◌, Bool-cases, ap, false, ◌≤◌, ◌∙◌, inl, inr, ◌+◌, ◌*◌, ◌-◌, ◌<◌, ◌^◌, ◌≡◌,
  refl, Bool, true, ◌&&◌, List, [], ◌∷◌, ltb, leb, ◌==◌, if◌then◌else◌, arith, Outcome, ok, err,
}

-- `std::num::IntErrorKind`, the cases that an unsigned parse can have
pub data ParseIntError : Type 0 where
  empty invalid_digit pos_overflow : ParseIntError

abbrev pub is_digit : ℕ → Bool
is_digit c = leb b'0' c && leb c b'9'

-- The loop over the digits, with `checked_mul` and `checked_add`.
digits : ℕ → ℕ → List ℕ → Outcome ParseIntError ℕ
digits limit acc [] = ok acc
digits limit acc (c ∷ cs) =
    let rest = digits limit (acc * 10 + (c - b'0')) cs in
    if is_digit c
    then (if ltb (acc * 10 + (c - b'0')) limit then rest else err pos_overflow)
    else err invalid_digit

unfoldable pub parse_uint : ℕ → List ℕ → Outcome ParseIntError ℕ
unfolding digits
parse_uint limit [] = err empty
parse_uint limit (c ∷ []) = if c == b'+' then err invalid_digit else digits limit 0 (c ∷ [])
parse_uint limit (c ∷ d ∷ cs) =
    if c == b'+' then digits limit 0 (d ∷ cs) else digits limit 0 (c ∷ d ∷ cs)

abbrev pub u32_limit : ℕ
u32_limit = 2 ^ 32

abbrev pub usize_limit : ℕ
usize_limit = 2 ^ 64

-- The number that decimal digits write, most significant first.
abbrev pub value_from : ℕ → List ℕ → ℕ
value_from acc [] = acc
value_from acc (c ∷ cs) = value_from (acc * 10 + (c - b'0')) cs

abbrev pub AreDigits : List ℕ → Type 0
AreDigits [] = Unit
AreDigits (c ∷ cs) = (is_digit c ≡ true) × AreDigits cs

digits-lt :
    (limit acc : ℕ) (cs : List ℕ) (n : ℕ) → acc < limit → digits limit acc cs ≡ ok n → n < limit
unfolding digits
digits-lt limit acc [] n a e = ground arith
digits-lt limit acc (c ∷ cs) n a e = ground (arith, digits-lt limit (acc * 10 + (c - b'0')) cs n)

pub parse_uint-lt :
    (limit : ℕ) (s : List ℕ) (n : ℕ) → 0 < limit → parse_uint limit s ≡ ok n → n < limit
unfolding parse_uint
parse_uint-lt limit [] n p e = ground arith
parse_uint-lt limit (c ∷ []) n p e = ground (arith, digits-lt limit 0 (c ∷ []) n)
parse_uint-lt limit (c ∷ d ∷ cs) n p e =
    ground (arith, digits-lt limit 0 (c ∷ d ∷ cs) n, digits-lt limit 0 (d ∷ cs) n)

value_from_mono : (a : ℕ) (cs : List ℕ) {k : ℕ} → value_from a cs < k → a < k
value_from_mono a [] h = h
value_from_mono a (c ∷ cs) h = omega (arith, value_from_mono (a * 10 + (c - b'0')) cs h)

digits-value :
    (limit acc : ℕ) (cs : List ℕ)
    → AreDigits cs
    → value_from acc cs < limit
    → digits limit acc cs ≡ ok (value_from acc cs)
unfolding digits
digits-value limit acc [] d h = refl
digits-value limit acc (c ∷ cs) d h = ground (
  arith,
  value_from_mono (acc * 10 + (c - b'0')) cs h,
  digits-value limit (acc * 10 + (c - b'0')) cs,
)

-- A nonempty row of digits below the limit parses to the number that it writes.
pub parse_uint-value :
    (limit c : ℕ) (cs : List ℕ)
    → AreDigits (c ∷ cs)
    → value_from 0 (c ∷ cs) < limit
    → parse_uint limit (c ∷ cs) ≡ ok (value_from 0 (c ∷ cs))
unfolding parse_uint
parse_uint-value limit c [] d h = ground (arith, digits-value limit 0 (c ∷ []))
parse_uint-value limit c (e ∷ cs) d h = ground (arith, digits-value limit 0 (c ∷ e ∷ cs))

-- `Display` for an unsigned integer: decimal digits in front of `rest`. The fuel bounds their
-- number.
abbrev digit : ℕ → ℕ
digit n = b'0' + n % 10

show_from : ℕ → ℕ → List ℕ → List ℕ
show_from zero n rest = rest
show_from (suc fuel) n rest =
    let more = show_from fuel (n / 10) (digit n ∷ rest) in if ltb n 10 then digit n ∷ rest else more

unfoldable pub show : ℕ → List ℕ
unfolding show_from
show n = show_from (suc n) n []

digit_lem : (n : ℕ) → is_digit (digit n) ≡ true
digit_lem n = ground arith

ltb_lem : (n k : ℕ) → ltb n k ≡ true → n < k
ltb_lem n k h = ground arith

ltb_ge : (n k : ℕ) → ltb n k ≡ false → k ≤ n
ltb_ge n k h = ground arith

show_from-value :
    (fuel n : ℕ) (rest : List ℕ)
    → n < fuel
    → AreDigits rest
    → (c : ℕ) × (cs : List ℕ) × (show_from fuel n rest ≡ c ∷ cs)
      × AreDigits (c ∷ cs)
      × (value_from 0 (c ∷ cs) ≡ value_from n rest)
unfolding show_from
show_from-value zero n rest lt h = absurd (omega arith)
show_from-value (suc fuel) n rest lt h = elim (Bool-cases (ltb n 10)) [
  | inl small ↦ (
    digit n,
    rest,
    rw small refl,
    (digit_lem n, h),
    ap (λ m. value_from m rest) (omega (arith, ltb_lem n 10 small)),
  )
  | inr large ↦
      let (c, cs, e, ds, worth) =
        show_from-value fuel (n / 10) (digit n ∷ rest) (omega (arith, ltb_ge n 10 large))
          (digit_lem n, h) in
      (c, cs, rw large e, ds, worth ∙ ap (λ m. value_from m rest) (omega arith))
]

pub show-digits :
    (n : ℕ)
    → (c : ℕ) × (cs : List ℕ) × (show n ≡ c ∷ cs) × AreDigits (c ∷ cs) × (value_from 0 (c ∷ cs) ≡ n)
unfolding show
show-digits n = show_from-value (suc n) n [] (omega arith) tt

-- A number below the limit is parsed back from its decimal digits.
pub parse_uint-show : (limit n : ℕ) → n < limit → parse_uint limit (show n) ≡ ok n
unfolding show
parse_uint-show limit n lt =
    let (c, cs, e, ds, worth) = show_from-value (suc n) n [] (omega arith) tt in
    rw (e, parse_uint-value limit c cs ds (omega (arith, worth)), worth) refl

parse_signed : parse_uint u32_limit (b'+' ∷ b'4' ∷ b'2' ∷ []) ≡ ok 42
unfolding parse_uint
parse_signed = refl

parse_too_big : parse_uint 256 (b'2' ∷ b'5' ∷ b'6' ∷ []) ≡ err pos_overflow
unfolding parse_uint
parse_too_big = refl
