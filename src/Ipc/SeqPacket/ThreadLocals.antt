-- ===== src/Ipc/SeqPacket/ThreadLocals.antt =====
-- A send of server/src/ipc/seqpacket.rs leaves the thread's queue for receiving as it was, and a
-- receive the one for sending.
use tere.Prelude.{
  ℕ, ◌≡◌, refl, ap, ◌∙◌, ◌⊎◌, inl, inr, some, List, [], ◌∷◌, ◌++◌, ◌&&◌, Outcome, ok, err, panic,
  Build, Bool-cases, length, ◌==◌, arith,
}
use tere.Std.Fd.{RawFd}
use tere.Ipc.{IoError, SendError}
use tere.Ipc.Bincode.{Bytes, Bincode, BincodeError}
use tere.Ipc.OwnedFd.{OwnedFd, own_all}
use tere.Ipc.PassFd.{
  Thread, is_some, gather_fds_to_vec, serialize, scatter_fds_from_vec_deque, pop_front, take_popped,
  after_unit, deserialize,
}
use tere.Ipc.Message.{
  Slot, plain, passed, Message, Fields, serialize_fields, keep_plain, keep_passed, then_passed,
  deserialize_fields, ended, finish, deserialize_message,
}
use tere.Ipc.SeqPacket.{
  Packet, Delivery, delivered_fds, pack, sent, prepare, send_with_fds, check_left, read_message,
  receive_with_fds,
}

serialize-oob_de :
    (u : BincodeError ⊎ Bytes) (fd : RawFd) (t : Thread) → (serialize u fd t).1.oob_de ≡ t.oob_de
unfolding serialize
serialize-oob_de u fd t = ground arith

sum_cases : {A B : Type 0} (r : A ⊎ B) → ((a : A) × (r ≡ inl a)) ⊎ ((x : B) × (r ≡ inr x))
sum_cases (inl a) = inl (a, refl)
sum_cases (inr x) = inr (x, refl)

module _ (c : Bincode) where
  serialize_fields-oob_de :
      (ss : List Slot) (m : Fields ss) (out : Bytes) (t : Thread)
      → (serialize_fields c ss m out t).1.oob_de ≡ t.oob_de
  unfolding serialize_fields
  serialize_fields-oob_de [] m out t = refl
  serialize_fields-oob_de (plain k ∷ ss) m out t = elim (sum_cases (c.encode k m.0)) [
    | inl (e, p) ↦ rw (serialize_fields, p) refl
    | inr (bs, p) ↦ rw (serialize_fields, p) (serialize_fields-oob_de ss m.1 (out ++ bs) t)
  ]
  serialize_fields-oob_de (passed ∷ ss) m out t =
      elim (sum_cases (serialize c.serialize_unit m.0 t).0) [
        | inl (e, p) ↦ rw (serialize_fields, p) (serialize-oob_de c.serialize_unit m.0 t)
        | inr (bs, p) ↦
            rw (serialize_fields, p)
              (serialize_fields-oob_de ss m.1 (out ++ bs) (serialize c.serialize_unit m.0 t).1
                ∙ serialize-oob_de c.serialize_unit m.0 t)
      ]

  gathered-oob_de :
      {R : Type 0} (b : Build) (out : List RawFd) (ser : Thread → R × Thread) (t : Thread)
      → ((t' : Thread) → (ser t').1.oob_de ≡ t'.oob_de)
      → (gather_fds_to_vec b out ser t).1.oob_de ≡ t.oob_de
  unfolding gather_fds_to_vec
  gathered-oob_de b out ser t keeps = elim (Bool-cases (b.debug_assertions && is_some t.oob_ser)) [
    | inl e ↦ rw (e) refl
    | inr e ↦ rw (e) (keeps (record t { oob_ser = some out }))
  ]

  module _ (cmsg_space : ℕ → ℕ) where
    packed-thread :
        (r : Outcome ⊥ ((BincodeError ⊎ Bytes) × List RawFd) × Thread) → (pack cmsg_space r).1 ≡ r.1
    packed-thread (ok (inl e, fds), t) = refl
    packed-thread (ok (inr bs, fds), t) = refl
    packed-thread (err e, t) = absurd e
    packed-thread (panic p, t) = refl

    sent-thread :
        (sendmsg : Packet → IoError ⊎ Unit {0}) (r : Outcome SendError Packet × Thread)
        → (sent sendmsg r).1 ≡ r.1
    sent-thread sendmsg (ok p, t) = elim (sum_cases (sendmsg p)) [
      | inl (e, q) ↦ rw (sent, q) refl
      | inr (u, q) ↦ rw (sent, q) refl
    ]
    sent-thread sendmsg (err e, t) = refl
    sent-thread sendmsg (panic p, t) = refl

    pub send_with_fds-oob_de :
        (b : Build) (m : Message) (sendmsg : Packet → IoError ⊎ Unit {0}) (message : Fields m.slots)
        (t : Thread)
        → (send_with_fds c cmsg_space b m sendmsg message t).1.oob_de ≡ t.oob_de
    unfolding send_with_fds prepare
    send_with_fds-oob_de b m sendmsg message t =
        let gathered = gather_fds_to_vec b [] (λ t'. serialize_fields c m.slots message [] t') t in
        ap (λ (u : Thread). u.oob_de)
          (sent-thread sendmsg (pack cmsg_space gathered) ∙ packed-thread gathered)
        ∙ gathered-oob_de b [] (λ t'. serialize_fields c m.slots message [] t') t
            (λ t'. serialize_fields-oob_de m.slots message [] t')

after_unit-oob_ser :
    {F : Type 0} (from_raw_fd : RawFd → F) (u : BincodeError ⊎ Bytes) (t : Thread)
    → (after_unit from_raw_fd u t).1.oob_ser ≡ t.oob_ser
after_unit-oob_ser from_raw_fd (inl e) t = refl
after_unit-oob_ser from_raw_fd (inr rest) t = popped (pop_front t.oob_de)
  where
    popped :
        (r : BincodeError ⊎ (OwnedFd × List OwnedFd))
        → (take_popped from_raw_fd rest r t).1.oob_ser ≡ t.oob_ser
    popped (inl e) = refl
    popped (inr (file, oob)) = refl

kept_plain-thread :
    {V M : Type 0} (v : V) (r : (BincodeError ⊎ (M × Bytes)) × Thread) → (keep_plain v r).1 ≡ r.1
kept_plain-thread v (inl e, t) = refl
kept_plain-thread v (inr (m, rest), t) = refl

kept_passed-oob_ser :
    {M : Type 0} (fd : RawFd) (r : (BincodeError ⊎ (M × Bytes)) × Thread)
    → (keep_passed fd r).1.oob_ser ≡ r.1.oob_ser
kept_passed-oob_ser fd (inl e, t) = refl
kept_passed-oob_ser fd (inr (m, rest), t) = refl

then_passed-oob_ser :
    {M : Type 0} (others : Bytes → Thread → (BincodeError ⊎ (M × Bytes)) × Thread)
    (r : (BincodeError ⊎ (RawFd × Bytes)) × Thread)
    → ((bs : Bytes) (t : Thread) → (others bs t).1.oob_ser ≡ t.oob_ser)
    → (then_passed others r).1.oob_ser ≡ r.1.oob_ser
then_passed-oob_ser others (inl e, t) keeps = refl
then_passed-oob_ser others (inr (fd, rest), t) keeps =
    kept_passed-oob_ser fd (others rest t) ∙ keeps rest t

module _ (c : Bincode) where
  deserialize_fields-oob_ser :
      (ss : List Slot) (bs : Bytes) (t : Thread)
      → (deserialize_fields c ss bs t).1.oob_ser ≡ t.oob_ser
  unfolding deserialize_fields deserialize
  deserialize_fields-oob_ser [] bs t = refl
  deserialize_fields-oob_ser (plain k ∷ ss) bs t = elim (sum_cases (c.decode k bs)) [
    | inl (e, p) ↦ rw (deserialize_fields, p) refl
    | inr ((v, rest), p) ↦
        rw (deserialize_fields, p)
          (ap (λ (u : Thread). u.oob_ser) (kept_plain-thread v (deserialize_fields c ss rest t))
            ∙ deserialize_fields-oob_ser ss rest t)
  ]
  deserialize_fields-oob_ser (passed ∷ ss) bs t =
      then_passed-oob_ser (λ rest t'. deserialize_fields c ss rest t')
        (deserialize (λ fd. fd) c.deserialize_unit bs t)
        (λ rest t'. deserialize_fields-oob_ser ss rest t')
      ∙ after_unit-oob_ser (λ fd. fd) (c.deserialize_unit bs) t

  deserialize_message-oob_ser :
      (ss : List Slot) (bs : Bytes) (t : Thread)
      → (deserialize_message c ss bs t).1.oob_ser ≡ t.oob_ser
  unfolding deserialize_message
  deserialize_message-oob_ser ss bs t =
      finished (deserialize_fields c ss bs t) ∙ deserialize_fields-oob_ser ss bs t
    where
      checked :
          (m : Fields ss) (r : BincodeError ⊎ Unit {0}) (t' : Thread)
          → (ended ss m r t').1.oob_ser ≡ t'.oob_ser
      checked m (inl e) t' = refl
      checked m (inr u) t' = refl

      finished :
          (r : (BincodeError ⊎ (Fields ss × Bytes)) × Thread)
          → (finish c ss r).1.oob_ser ≡ r.1.oob_ser
      finished (inl e, t') = refl
      finished (inr (m, rest), t') = checked m (c.check_end rest) t'

  scattered-oob_ser :
      {R : Type 0} (b : Build) (fds : List OwnedFd) (de : Thread → R × Thread) (t : Thread)
      → ((t' : Thread) → (de t').1.oob_ser ≡ t'.oob_ser)
      → (scatter_fds_from_vec_deque b fds de t).1.oob_ser ≡ t.oob_ser
  unfolding scatter_fds_from_vec_deque
  scattered-oob_ser b fds de t keeps = elim (Bool-cases (b.debug_assertions && is_some t.oob_de)) [
    | inl e ↦ rw (e) refl
    | inr e ↦ rw (e) (keeps (record t { oob_de = some fds }))
  ]

  module _ (cmsg_space : ℕ → ℕ) (b : Build) (m : Message) where
    checked-oob_ser :
        (orig : ℕ) (r : Outcome ⊥ ((BincodeError ⊎ Fields m.slots) × List OwnedFd) × Thread)
        → (check_left c cmsg_space b m orig r).1.oob_ser ≡ r.1.oob_ser
    checked-oob_ser orig (ok (inl e, left), t) = refl
    checked-oob_ser orig (ok (inr message, []), t) = refl
    checked-oob_ser orig (ok (inr message, f ∷ left), t) = refl
    checked-oob_ser orig (err e, t) = absurd e
    checked-oob_ser orig (panic p, t) = refl

    read-oob_ser :
        (d : Delivery) (r : Outcome ⊥ (List OwnedFd)) (t : Thread)
        → (read_message c cmsg_space b m d r t).1.oob_ser ≡ t.oob_ser
    read-oob_ser d (ok fds) t = elim (Bool-cases d.ancillary_truncated) [
      | inl e ↦ rw (e) refl
      | inr e ↦ rw (e) (
          checked-oob_ser _ (
            scatter_fds_from_vec_deque b fds (λ t'. deserialize_message c m.slots d.data_read t') t)
          ∙ scattered-oob_ser b fds (λ t'. deserialize_message c m.slots d.data_read t') t
              (λ t'. deserialize_message-oob_ser m.slots d.data_read t'))
    ]
    read-oob_ser d (err e) t = absurd e
    read-oob_ser d (panic p) t = refl

    pub receive_with_fds-oob_ser :
        (r : IoError ⊎ Delivery) (t : Thread)
        → (receive_with_fds c cmsg_space b m r t).1.oob_ser ≡ t.oob_ser
    unfolding receive_with_fds
    receive_with_fds-oob_ser (inl e) t = refl
    receive_with_fds-oob_ser (inr d) t = elim (Bool-cases d.truncated) [
      | inl e ↦ rw (e) refl
      | inr e ↦ elim (Bool-cases (length d.data_read == 0)) [
        | inl z ↦ rw (e, z) refl
        | inr z ↦ rw (e, z) (read-oob_ser d (own_all b (delivered_fds d.messages)) t)
      ]
    ]
