-- ===== src/Ipc/PassFd.antt =====
-- server/src/ipc/passfd.rs: the thread-local queues through which serde's calls for descriptor
-- fields reach the descriptors of the message at hand.
use tere.Prelude.{
  ◌≡◌, ◌⊎◌, inl, inr, Bool, true, false, Option, none, some, List, [], ◌∷◌, ◌++◌, ◌&&◌,
  if◌then◌else◌, Outcome, ok, panic, debug_assert, Build, Bool-cases,
}
use tere.Std.Fd.{RawFd, Table}
use tere.Ipc.OwnedFd.{OwnedFd, into_raw_fd}
use tere.Ipc.Bincode.{Bytes, BincodeError, custom, only_via_gather, only_via_receive, too_few_fds}

-- A thread of a process: its table of descriptors and its two thread-locals.
pub record Thread : Type 0 where
  pub table : Table
  pub oob_ser : Option (List RawFd)
  pub oob_de : Option (List OwnedFd)

abbrev pub is_some {ℓ} : {A : Type ℓ} → Option A → Bool
is_some none = false
is_some (some a) = true

abbrev pub or_default {ℓ} : {A : Type ℓ} → Option (List A) → List A
or_default none = []
or_default (some xs) = xs

-- What the guard of `gather_fds_to_vec` does when the closure has returned: `out` takes what has
-- been collected, or stays the default that `mem::take` left.
abbrev pub ungather {ℓ} : {R : Type ℓ} → R × Thread → Outcome ⊥ (R × List RawFd) × Thread
ungather (r, t) = (ok (r, or_default t.oob_ser), record t { oob_ser = none })

-- The result comes with the new value of the out parameter.
unfoldable pub gather_fds_to_vec {ℓ} :
    {R : Type ℓ}
    → Build
    → List RawFd
    → (Thread → R × Thread)
    → Thread
    → Outcome ⊥ (R × List RawFd) × Thread
gather_fds_to_vec b out ser t =
    if b.debug_assertions && is_some t.oob_ser
    then (panic debug_assert, record t { oob_ser = some out })
    else ungather (ser (record t { oob_ser = some out }))

abbrev pub push_fd : RawFd → Option (List RawFd) → BincodeError ⊎ List RawFd
push_fd fd none = inl (custom only_via_gather)
push_fd fd (some oob) = inr (oob ++ fd ∷ [])

-- `serialize_unit` is what the serializer does with a unit.
unfoldable pub serialize : BincodeError ⊎ Bytes → RawFd → Thread → (BincodeError ⊎ Bytes) × Thread
serialize serialize_unit fd t = elim (push_fd fd t.oob_ser) [
  | inl e ↦ (inl e, t)
  | inr oob ↦ (serialize_unit, record t { oob_ser = some oob })
]

abbrev pub unscatter {ℓ} : {R : Type ℓ} → R × Thread → Outcome ⊥ (R × List OwnedFd) × Thread
unscatter (r, t) = (ok (r, or_default t.oob_de), record t { oob_de = none })

unfoldable pub scatter_fds_from_vec_deque {ℓ} :
    {R : Type ℓ}
    → Build
    → List OwnedFd
    → (Thread → R × Thread)
    → Thread
    → Outcome ⊥ (R × List OwnedFd) × Thread
scatter_fds_from_vec_deque b fds de t =
    if b.debug_assertions && is_some t.oob_de
    then (panic debug_assert, record t { oob_de = some fds })
    else unscatter (de (record t { oob_de = some fds }))

abbrev pub pop_front : Option (List OwnedFd) → BincodeError ⊎ (OwnedFd × List OwnedFd)
pop_front none = inl (custom only_via_receive)
pop_front (some []) = inl (custom too_few_fds)
pop_front (some (f ∷ oob)) = inr (f, oob)

-- `F::from_raw_fd` on the popped descriptor, whose own destructor does not run.
abbrev pub take_popped {ℓ} :
    {F : Type ℓ}
    → (RawFd → F)
    → Bytes
    → BincodeError ⊎ (OwnedFd × List OwnedFd)
    → Thread
    → (BincodeError ⊎ (F × Bytes)) × Thread
take_popped from_raw_fd rest (inl e) t = (inl e, t)
take_popped from_raw_fd rest (inr (file, oob)) t = (
  inr (from_raw_fd (into_raw_fd file t.table).0, rest),
  record t { table = (into_raw_fd file t.table).1; oob_de = some oob },
)

-- What follows the `deserialize_unit` of the deserializer.
abbrev pub after_unit {ℓ} :
    {F : Type ℓ}
    → (RawFd → F)
    → BincodeError ⊎ Bytes
    → Thread
    → (BincodeError ⊎ (F × Bytes)) × Thread
after_unit from_raw_fd (inl e) t = (inl e, t)
after_unit from_raw_fd (inr rest) t = take_popped from_raw_fd rest (pop_front t.oob_de) t

-- `deserialize_unit` is what the deserializer does where a unit is expected. The result comes with
-- the bytes that are left.
unfoldable pub deserialize {ℓ} :
    {F : Type ℓ}
    → (RawFd → F)
    → (Bytes → BincodeError ⊎ Bytes)
    → Bytes
    → Thread
    → (BincodeError ⊎ (F × Bytes)) × Thread
unfolding into_raw_fd
deserialize from_raw_fd deserialize_unit bs t = after_unit from_raw_fd (deserialize_unit bs) t

module _ {ℓ} {R : Type ℓ} (b : Build) (t : Thread) where
  -- Outside of any gather call the closure runs on an empty queue of this call's own.
  pub gather_fds_to_vec_lem :
      (out : List RawFd) (ser : Thread → R × Thread)
      → t.oob_ser ≡ none
      → gather_fds_to_vec b out ser t ≡ ungather (ser (record t { oob_ser = some out }))
  unfolding gather_fds_to_vec
  gather_fds_to_vec_lem out ser q = elim (Bool-cases b.debug_assertions) [
    | inl e ↦ rw (e, q)
    | inr e ↦ rw e
  ]

  pub scatter_fds_from_vec_deque_lem :
      (fds : List OwnedFd) (de : Thread → R × Thread)
      → t.oob_de ≡ none
      → scatter_fds_from_vec_deque b fds de t ≡ unscatter (de (record t { oob_de = some fds }))
  unfolding scatter_fds_from_vec_deque
  scatter_fds_from_vec_deque_lem fds de q = elim (Bool-cases b.debug_assertions) [
    | inl e ↦ rw (e, q)
    | inr e ↦ rw e
  ]
