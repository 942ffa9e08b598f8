-- ===== src/Ipc/Bincode.antt =====
-- The crates serde and bincode as a parameter: how the plain values of a message are coded, and
-- the documented laws that server/src/ipc/mod.rs relies on. The fields that hold descriptors are
-- coded by the program itself (server/src/ipc/passfd.rs).
use tere.Prelude.{ℕ, ◌≡◌, ◌⊎◌, inr, Option, List, [], ◌++◌}
use tere.Proto.Machine.{Machine}

abbrev pub Bytes : Type 0
Bytes = List ℕ

-- The texts that passfd.rs hands to `Error::custom`.
pub data Custom : Type 0 where
  only_via_gather only_via_receive too_few_fds : Custom

-- An error of the crate's own, by a number, or a custom one.
pub data BincodeError : Type 0 where
  custom : Custom → BincodeError
  own : ℕ → BincodeError

-- The Rust types of the plain fields of the program's messages.
pub data Kind : Type 0 where
  variant : (variants : ℕ) → Kind  -- the index of an enum's variant
  u8 text bytes hash place optional_text optional_texts : Kind

abbrev pub Value : Kind → Type 0
Value (variant variants) = ℕ
Value u8 = ℕ
Value text = Bytes
Value bytes = Bytes
Value hash = Bytes
Value place = Machine
Value optional_text = Option Bytes
Value optional_texts = Option (List Bytes)

-- An `inl` is an error.
pub record Bincode : Type 0 where
  pub encode : (k : Kind) → Value k → BincodeError ⊎ Bytes
  pub decode : (k : Kind) → Bytes → BincodeError ⊎ (Value k × Bytes)
  pub serialize_unit : BincodeError ⊎ Bytes
  pub deserialize_unit : Bytes → BincodeError ⊎ Bytes
  pub check_end : Bytes → BincodeError ⊎ Unit {0}

-- A value is read back from its code, whatever follows it. A unit takes no space. A message may
-- end where its bytes end.
pub record IsLawful (c : Bincode) : Type 0 where
  pub decode-encode :
      (k : Kind) (v : Value k) (bs rest : Bytes)
      → c.encode k v ≡ inr bs
      → c.decode k (bs ++ rest) ≡ inr (v, rest)
  pub unit_empty : c.serialize_unit ≡ inr []
  pub unit_read : (bs : Bytes) → c.deserialize_unit bs ≡ inr bs
  pub end_empty : c.check_end [] ≡ inr tt
