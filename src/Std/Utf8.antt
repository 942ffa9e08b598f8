-- ===== src/Std/Utf8.antt =====
-- `OsString::into_string`, as far as `std::env::var` needs it: which bytes are valid UTF-8.
use tere.Prelude.{
  ℕ, zero, suc, ◌<◌, arith, ◌≡◌, refl, Bool, true, false, ◌&&◌, List, [], ◌∷◌, leb, ltb, ◌==◌,
  if◌then◌else◌,
}

abbrev pub between : ℕ → ℕ → ℕ → Bool
between lo hi b = leb lo b && leb b hi

-- What the scan expects next: a first byte, or `more n lo hi`, a byte in `lo` to `hi` and `n`
-- plain continuation bytes after it.
pub data Expect : Type 0 where
  first : Expect
  more : ℕ → ℕ → ℕ → Expect
  invalid : Expect

after_first : ℕ → Expect
after_first b =
    if ltb b 0x80
    then first
    else if between 0xc2 0xdf b
    then more 0 0x80 0xbf
    else if b == 0xe0
    then more 1 0xa0 0xbf
    else if b == 0xed
    then more 1 0x80 0x9f
    else if between 0xe1 0xef b
    then more 1 0x80 0xbf
    else if b == 0xf0
    then more 2 0x90 0xbf
    else if between 0xf1 0xf3 b
    then more 2 0x80 0xbf
    else if b == 0xf4
    then more 2 0x80 0x8f
    else invalid

continuation : ℕ → Expect
continuation zero = first
continuation (suc j) = more j 0x80 0xbf

next : Expect → ℕ → Expect
unfolding after_first continuation
next first b = after_first b
next (more n lo hi) b = if between lo hi b then continuation n else invalid
next invalid b = invalid

scan : Expect → List ℕ → Bool
unfolding next
scan first [] = true
scan e [] = false
scan e (b ∷ bs) = scan (next e b) bs

unfoldable pub is_utf8 : List ℕ → Bool
unfolding scan
is_utf8 = scan first

euro_sign : is_utf8 (0xe2 ∷ 0x82 ∷ 0xac ∷ []) ≡ true
unfolding is_utf8
euro_sign = refl

surrogate : is_utf8 (0xed ∷ 0xa0 ∷ 0x80 ∷ []) ≡ false
unfolding is_utf8
surrogate = refl

abbrev pub IsAscii : List ℕ → Type 0
IsAscii [] = Unit
IsAscii (b ∷ bs) = (b < 0x80) × IsAscii bs

pub is_utf8-IsAscii : (bs : List ℕ) → IsAscii bs → is_utf8 bs ≡ true
unfolding is_utf8
is_utf8-IsAscii [] h = refl
is_utf8-IsAscii (b ∷ bs) h = ground (arith, is_utf8-IsAscii bs h.1)
