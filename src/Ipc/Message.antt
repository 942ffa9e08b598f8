-- ===== src/Ipc/Message.antt =====
-- server/src/ipc/mod.rs, `Message`, and what `#[derive(Serialize, Deserialize)]` makes of a
-- message: its fields are visited once, in order, and a descriptor field by
-- server/src/ipc/passfd.rs.
use tere.Prelude.{ℕ, ◌≡◌, refl, ap, length, arith, ◌⊎◌, inl, inr, List, [], ◌∷◌, ◌++◌}
use tere.Std.Fd.{RawFd, Table, close}
use tere.Ipc.Bincode.{Bytes, Bincode, BincodeError, Kind, Value}
use tere.Ipc.PassFd.{Thread, serialize, deserialize}

-- A field is plain, or marked `#[serde(with = "ipc::passfd")]`.
pub data Slot : Type 0 where
  plain : Kind → Slot
  passed : Slot

-- The constants of the trait, and the fields in the order of their declaration. An enum has the
-- index of its variant first.
pub record Message : Type 0 where
  pub max_size : ℕ
  pub max_fds : ℕ
  pub slots : List Slot

abbrev pub Fields : List Slot → Type 0
Fields [] = Unit
Fields (plain k ∷ ss) = Value k × Fields ss
Fields (passed ∷ ss) = RawFd × Fields ss

-- The descriptors among the fields, in order.
abbrev pub fds_of : (ss : List Slot) → Fields ss → List RawFd
fds_of [] m = []
fds_of (plain k ∷ ss) m = fds_of ss m.1
fds_of (passed ∷ ss) m = m.0 ∷ fds_of ss m.1

-- The same message with the descriptors of a list in place of its own, in order.
abbrev pub refill : (ss : List Slot) → List RawFd → Fields ss → Fields ss
refill [] gs m = m
refill (plain k ∷ ss) gs m = (m.0, refill ss gs m.1)
refill (passed ∷ ss) [] m = m
refill (passed ∷ ss) (g ∷ gs) m = (g, refill ss gs m.1)

pub fds_of-refill :
    (ss : List Slot) (gs : List RawFd) (m : Fields ss)
    → length gs ≡ length (fds_of ss m)
    → fds_of ss (refill ss gs m) ≡ gs
fds_of-refill [] [] m e = refl
fds_of-refill [] (g ∷ gs) m e = absurd (omega arith)
fds_of-refill (plain k ∷ ss) gs m e = fds_of-refill ss gs m.1 e
fds_of-refill (passed ∷ ss) [] m e = absurd (omega arith)
fds_of-refill (passed ∷ ss) (g ∷ gs) m e = ap (λ l. g ∷ l) (fds_of-refill ss gs m.1 (omega arith))

-- The fields of a value that is dropped close their descriptors.
unfoldable pub drop_message : (ss : List Slot) → Fields ss → Table → Table
drop_message [] m t = t
drop_message (plain k ∷ ss) m t = drop_message ss m.1 t
drop_message (passed ∷ ss) m t = drop_message ss m.1 (close m.0 t)

module _ (c : Bincode) where
  -- `out` is the vector that the serializer writes to.
  unfoldable pub serialize_fields :
      (ss : List Slot) → Fields ss → Bytes → Thread → (BincodeError ⊎ Bytes) × Thread
  unfolding serialize
  serialize_fields [] m out t = (inr out, t)
  serialize_fields (plain k ∷ ss) m out t = elim (c.encode k m.0) [
    | inl e ↦ (inl e, t)
    | inr bs ↦ serialize_fields ss m.1 (out ++ bs) t
  ]
  serialize_fields (passed ∷ ss) m out t =
      let (r, t') = serialize c.serialize_unit m.0 t in
      elim r [ inl e ↦ (inl e, t') | inr bs ↦ serialize_fields ss m.1 (out ++ bs) t' ]

-- A field that is read in front of the others: if they fail, it is dropped.
abbrev pub keep_plain :
    {V M : Type 0}
    → V
    → (BincodeError ⊎ (M × Bytes)) × Thread
    → (BincodeError ⊎ ((V × M) × Bytes)) × Thread
keep_plain v (inl e, t) = (inl e, t)
keep_plain v (inr (m, rest), t) = (inr ((v, m), rest), t)

abbrev pub keep_passed :
    {M : Type 0}
    → RawFd
    → (BincodeError ⊎ (M × Bytes)) × Thread
    → (BincodeError ⊎ ((RawFd × M) × Bytes)) × Thread
keep_passed fd (inl e, t) = (inl e, record t { table = close fd t.table })
keep_passed fd (inr (m, rest), t) = (inr ((fd, m), rest), t)

abbrev pub then_passed :
    {M : Type 0}
    → (Bytes → Thread → (BincodeError ⊎ (M × Bytes)) × Thread)
    → (BincodeError ⊎ (RawFd × Bytes)) × Thread
    → (BincodeError ⊎ ((RawFd × M) × Bytes)) × Thread
then_passed others (inl e, t) = (inl e, t)
then_passed others (inr (fd, rest), t) = keep_passed fd (others rest t)

module _ (c : Bincode) where
  unfoldable pub deserialize_fields :
      (ss : List Slot) → Bytes → Thread → (BincodeError ⊎ (Fields ss × Bytes)) × Thread
  unfolding deserialize
  deserialize_fields [] bs t = (inr (tt, bs), t)
  deserialize_fields (plain k ∷ ss) bs t = elim (c.decode k bs) [
    | inl e ↦ (inl e, t)
    | inr (v, rest) ↦ keep_plain v (deserialize_fields ss rest t)
  ]
  deserialize_fields (passed ∷ ss) bs t =
      then_passed (λ rest t'. deserialize_fields ss rest t')
        (deserialize (λ fd. fd) c.deserialize_unit bs t)

-- The result of the check of what is left behind a message, which a failure drops.
abbrev pub ended :
    (ss : List Slot)
    → Fields ss
    → BincodeError ⊎ Unit {0}
    → Thread
    → (BincodeError ⊎ Fields ss) × Thread
ended ss m (inl e) t = (inl e, record t { table = drop_message ss m t.table })
ended ss m (inr u) t = (inr m, t)

module _ (c : Bincode) where
  abbrev pub finish :
      (ss : List Slot)
      → (BincodeError ⊎ (Fields ss × Bytes)) × Thread
      → (BincodeError ⊎ Fields ss) × Thread
  finish ss (inl e, t) = (inl e, t)
  finish ss (inr (m, rest), t) = ended ss m (c.check_end rest) t

  -- `config.deserialize`: the message, and then the check of what is left.
  unfoldable pub deserialize_message :
      (ss : List Slot) → Bytes → Thread → (BincodeError ⊎ Fields ss) × Thread
  unfolding deserialize_fields drop_message
  deserialize_message ss bs t = finish ss (deserialize_fields c ss bs t)
