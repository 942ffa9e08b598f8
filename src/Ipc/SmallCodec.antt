-- ===== src/Ipc/SmallCodec.antt =====
-- A small lawful codec, for the examples of server/src/ipc.
use tere.Prelude.{
  ℕ, ◌≡◌, refl, ◌⊎◌, inl, inr, [], ◌∷◌, ◌++◌, length, take, drop, take-append, drop-append,
}
use tere.Ipc.Bincode.{
  Bytes, BincodeError, own, Kind, variant, u8, text, bytes, hash, place, optional_text,
  optional_texts, Value, Bincode, IsLawful,
}

abbrev with_length : Bytes → BincodeError ⊎ Bytes
with_length bs = inr (length bs ∷ bs)

abbrev small_encode : (k : Kind) → Value k → BincodeError ⊎ Bytes
small_encode (variant n) v = inr (v ∷ [])
small_encode u8 v = inr (v ∷ [])
small_encode text v = with_length v
small_encode bytes v = with_length v
small_encode hash v = with_length v
small_encode place v = inl (own 0)
small_encode optional_text v = inl (own 0)
small_encode optional_texts v = inl (own 0)

abbrev one_number : Bytes → BincodeError ⊎ (ℕ × Bytes)
one_number [] = inl (own 1)
one_number (b ∷ bs) = inr (b, bs)

abbrev counted : Bytes → BincodeError ⊎ (Bytes × Bytes)
counted [] = inl (own 1)
counted (n ∷ bs) = inr (take n bs, drop n bs)

abbrev small_decode : (k : Kind) → Bytes → BincodeError ⊎ (Value k × Bytes)
small_decode (variant n) bs = one_number bs
small_decode u8 bs = one_number bs
small_decode text bs = counted bs
small_decode bytes bs = counted bs
small_decode hash bs = counted bs
small_decode place bs = inl (own 0)
small_decode optional_text bs = inl (own 0)
small_decode optional_texts bs = inl (own 0)

abbrev small_end : Bytes → BincodeError ⊎ Unit {0}
small_end [] = inr tt
small_end (b ∷ bs) = inl (own 2)

abbrev pub small : Bincode
small = record {
  encode = small_encode;
  decode = small_decode;
  serialize_unit = inr [];
  deserialize_unit = λ bs. inr bs;
  check_end = small_end;
}

counted-with_length :
    (v bs rest : Bytes) → with_length v ≡ inr bs → counted (bs ++ rest) ≡ inr (v, rest)
counted-with_length v [] rest h = cc
counted-with_length v (n ∷ bs) rest h =
    let here : length v ∷ v ≡ n ∷ bs = cc in
    let count : length v ≡ n = cc in
    let tail : v ≡ bs = cc in rw (← count, ← tail, take-append v rest, drop-append v rest)

one_number-single :
    (v : ℕ) (bs rest : Bytes)
    → ◌≡◌ {A = BincodeError ⊎ Bytes} (inr (v ∷ [])) (inr bs)
    → one_number (bs ++ rest) ≡ inr (v, rest)
one_number-single v [] rest h = cc
one_number-single v (n ∷ bs) rest h =
    let count : v ≡ n = cc in let tail : [] ≡ bs = cc in rw (← count, ← tail)

small_decode-encode :
    (k : Kind) (v : Value k) (bs rest : Bytes)
    → small_encode k v ≡ inr bs
    → small_decode k (bs ++ rest) ≡ inr (v, rest)
small_decode-encode (variant n) v bs rest h = one_number-single v bs rest h
small_decode-encode u8 v bs rest h = one_number-single v bs rest h
small_decode-encode text v bs rest h = counted-with_length v bs rest h
small_decode-encode bytes v bs rest h = counted-with_length v bs rest h
small_decode-encode hash v bs rest h = counted-with_length v bs rest h
small_decode-encode place v bs rest h = cc
small_decode-encode optional_text v bs rest h = cc
small_decode-encode optional_texts v bs rest h = cc

pub small-IsLawful : IsLawful small
small-IsLawful = record {
  decode-encode = small_decode-encode;
  unit_empty = refl;
  unit_read = λ bs. refl;
  end_empty = refl;
}
