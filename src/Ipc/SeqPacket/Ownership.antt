-- ===== src/Ipc/SeqPacket/Ownership.antt =====
-- Who owns the descriptors of a message while server/src/ipc/seqpacket.rs receives it.
use tere.Prelude.{ℕ, ◌≡◌, refl, sym, ◌⊎◌, inl, inr, some, List, [], ◌∷◌, ◌++◌, arith, append-nil}
use tere.Std.Fd.{
  RawFd, Table, count, close, count-append, Owns, close-Owns, close_all-Owns, Owns-perm,
}
use tere.Ipc.Bincode.{Bytes, Bincode, BincodeError, Kind, Value}
use tere.Ipc.OwnedFd.{OwnedFd, raws, drop_fds, drop_fds-close_all}
use tere.Ipc.PassFd.{Thread, after_unit}
use tere.Ipc.Message.{
  Slot, plain, passed, Fields, fds_of, keep_plain, keep_passed, then_passed, deserialize_fields,
  ended, finish, deserialize_message, drop_message,
}

count-middle :
    (x y : RawFd) (a b c : List RawFd) → count x (a ++ (b ++ y ∷ c)) ≡ count x (y ∷ (a ++ (b ++ c)))
count-middle x y a b c = ground (
  arith,
  count-append x a (b ++ y ∷ c),
  count-append x b (y ∷ c),
  count-append x a (b ++ c),
  count-append x b c,
)

module _ (c : Bincode) (before : List RawFd) (bad : ℕ) where
  -- The queue and the message that was read own what the queue owned; on an error the fields that
  -- were read have been closed.
  After :
      (ss : List Slot) (queue : List OwnedFd) (held : List RawFd)
      → (BincodeError ⊎ (Fields ss × Bytes)) × Thread
      → Type 0
  After ss queue held (inl e, t) =
      (left : List OwnedFd) × (t.oob_de ≡ some left) × Owns (raws left ++ held) before bad t.table
  After ss queue held (inr (m, rest), t) =
      (left : List OwnedFd) × (t.oob_de ≡ some left)
      × Owns (fds_of ss m ++ (raws left ++ held)) before bad t.table
      × (raws queue ≡ fds_of ss m ++ raws left)

  keep_plain-After :
      (k : Kind) (ss : List Slot) (queue : List OwnedFd) (held : List RawFd) (v : Value k)
      (r : (BincodeError ⊎ (Fields ss × Bytes)) × Thread)
      → After ss queue held r
      → After (plain k ∷ ss) queue held (keep_plain v r)
  unfolding After
  keep_plain-After k ss queue held v (inl e, t) h = h
  keep_plain-After k ss queue held v (inr (m, rest), t) h = h

  keep_passed-After :
      (ss : List Slot) (f : OwnedFd) (queue : List OwnedFd) (held : List RawFd)
      (r : (BincodeError ⊎ (Fields ss × Bytes)) × Thread)
      → After ss queue (f.raw ∷ held) r
      → After (passed ∷ ss) (f ∷ queue) held (keep_passed f.raw r)
  unfolding After
  keep_passed-After ss f queue held (inl e, t) (left, q, o) = (
    left,
    q,
    close-Owns f.raw (raws left ++ held) t.table
        (Owns-perm _ _ t.table (λ x. count-middle x f.raw [] (raws left) held) o),
  )
  keep_passed-After ss f queue held (inr (m, rest), t) (left, q, o, e) = (
    left,
    q,
    Owns-perm _ _ t.table (λ x. count-middle x f.raw (fds_of ss m) (raws left) held) o,
    rw e,
  )

  deserialize_fields-After :
      (ss : List Slot) (queue : List OwnedFd) (held : List RawFd) (bs : Bytes) (t : Thread)
      → t.oob_de ≡ some queue
      → Owns (raws queue ++ held) before bad t.table
      → After ss queue held (deserialize_fields c ss bs t)
  unfolding After deserialize_fields
  deserialize_fields-After [] queue held bs t q o = (queue, q, o, refl)
  deserialize_fields-After (plain k ∷ ss) queue held bs t q o =
      at (c.decode k bs) (λ rest. deserialize_fields-After ss queue held rest t q o)
    where
      at :
          (d : BincodeError ⊎ (Value k × Bytes))
          → ((rest : Bytes) → After ss queue held (deserialize_fields c ss rest t))
          → After (plain k ∷ ss) queue held (elim d [
            | inl e ↦ (inl e, t)
            | inr (v, rest) ↦ keep_plain v (deserialize_fields c ss rest t)
          ])
      at (inl e) ih = (queue, q, o)
      at (inr (v, rest)) ih = keep_plain-After k ss queue held v _ (ih rest)
  deserialize_fields-After (passed ∷ ss) queue held bs t q o =
      at (c.deserialize_unit bs) queue q o (λ f oob rest o'.
        deserialize_fields-After ss oob (f.raw ∷ held) rest (record t { oob_de = some oob }) refl
          o')
    where
      at :
          (u : BincodeError ⊎ Bytes) (queue : List OwnedFd)
          → t.oob_de ≡ some queue
          → Owns (raws queue ++ held) before bad t.table
          → ((f : OwnedFd) (oob : List OwnedFd) (rest : Bytes)
              → Owns (raws oob ++ f.raw ∷ held) before bad t.table
              → After ss oob
                  (f.raw ∷ held)
                  (deserialize_fields c ss rest (record t { oob_de = some oob })))
          → After
              (passed ∷ ss)
              queue
              held
              (then_passed (deserialize_fields c ss) (after_unit (λ fd. fd) u t))
      at (inl e) queue q o ih = (queue, q, o)
      at (inr rest) [] q o ih = rw (q, after_unit) ([], refl, o)
      at (inr rest) (f ∷ oob) q o ih =
          rw (q, after_unit)
            (keep_passed-After ss f oob held _ (
              ih f oob rest
                (Owns-perm _ _ t.table (λ x. sym (count-middle x f.raw [] (raws oob) held)) o)))

module _ (before : List RawFd) (bad : ℕ) where
  pub drop_message-Owns :
      (ss : List Slot) (m : Fields ss) (held : List RawFd) (t : Table)
      → Owns (fds_of ss m ++ held) before bad t
      → Owns held before bad (drop_message ss m t)
  unfolding drop_message
  drop_message-Owns [] m held t o = o
  drop_message-Owns (plain k ∷ ss) m held t o = drop_message-Owns ss m.1 held t o
  drop_message-Owns (passed ∷ ss) m held t o =
      drop_message-Owns ss m.1 held (close m.0 t) (close-Owns m.0 (fds_of ss m.1 ++ held) t o)

  pub drop_fds-Owns :
      (fs : List OwnedFd) (t : Table)
      → Owns (raws fs) before bad t
      → Owns [] before bad (drop_fds fs t)
  drop_fds-Owns fs t o =
      rw (drop_fds-close_all fs t) (close_all-Owns (raws fs) [] t (rw (append-nil (raws fs)) o))

  -- What `config.deserialize` leaves: on an error only the queue owns anything.
  unfoldable pub Finished :
      (ss : List Slot) (queue : List OwnedFd) → (BincodeError ⊎ Fields ss) × Thread → Type 0
  Finished ss queue (inl e, t) =
      (left : List OwnedFd) × (t.oob_de ≡ some left) × Owns (raws left) before bad t.table
  Finished ss queue (inr m, t) =
      (left : List OwnedFd) × (t.oob_de ≡ some left)
      × Owns (fds_of ss m ++ raws left) before bad t.table
      × (raws queue ≡ fds_of ss m ++ raws left)

  module _ (c : Bincode) where
    finish-Finished :
        (ss : List Slot) (queue : List OwnedFd) (r : (BincodeError ⊎ (Fields ss × Bytes)) × Thread)
        → After c before bad ss queue [] r
        → Finished ss queue (finish c ss r)
    unfolding After Finished
    finish-Finished ss queue (inl e, t) (left, q, o) = (left, q, rw (← append-nil (raws left)) o)
    finish-Finished ss queue (inr (m, rest), t) (left, q, o, e) = at (c.check_end rest)
      where
        owned : Owns (fds_of ss m ++ raws left) before bad t.table
        owned = rw (← append-nil (raws left)) o

        at : (u : BincodeError ⊎ Unit {0}) → Finished ss queue (ended ss m u t)
        at (inl x) = (left, q, drop_message-Owns ss m (raws left) t.table owned)
        at (inr u) = (left, q, owned, e)

    pub deserialize_message-Finished :
        (ss : List Slot) (queue : List OwnedFd) (bs : Bytes) (t : Thread)
        → t.oob_de ≡ some queue
        → Owns (raws queue) before bad t.table
        → Finished ss queue (deserialize_message c ss bs t)
    unfolding deserialize_message
    deserialize_message-Finished ss queue bs t q o =
        finish-Finished ss queue (deserialize_fields c ss bs t) (
          deserialize_fields-After c before bad ss queue [] bs t q (rw (append-nil (raws queue)) o))
