-- ===== src/Ipc/SeqPacket/Receive.antt =====
-- `receive_with_fds` of server/src/ipc/seqpacket.rs: no received descriptor is lost or closed
-- twice, and the two early returns on which descriptors stay open.
use tere.Prelude.{
  ℕ, ◌≡◌, ◌≢◌, refl, sym, subst, ◌∙◌, ◌⊎◌, inl, inr, true, false, none, some, List, [], ◌∷◌, ◌==◌,
  length, arith, Outcome, ok, err, panic, Build, All, append-nil, Bool-cases, length-ne,
}
use tere.Prelude.Int.{int_eq_iff}
use tere.Std.Fd.{RawFd, is_negative, Table, Owns}
use tere.Ipc.{ReceiveError}
use tere.Ipc.Bincode.{Bincode, BincodeError}
use tere.Ipc.OwnedFd.{OwnedFd, raws, owners, raws-owners, own_all-owners}
use tere.Ipc.PassFd.{Thread, unscatter, or_default, scatter_fds_from_vec_deque_lem}
use tere.Ipc.Message.{Message, Fields, fds_of, deserialize_message}
use tere.Ipc.SeqPacket.{Delivery, delivered_fds, check_left, read_message, receive_with_fds}
use tere.Ipc.SeqPacket.Ownership.{
  drop_fds-Owns, drop_message-Owns, Finished, deserialize_message-Finished,
}

-- After a receive that returned, of a message that came with the descriptors `fds`: a message owns
-- exactly those, in order; with an error none of them is open. What was open before still is, and
-- no `close` has failed.
abbrev pub Accounts :
    (m : Message) (fds before : List RawFd) (bad : ℕ)
    → Outcome ReceiveError (Fields m.slots) × Thread
    → Type 0
Accounts m fds before bad (ok message, t) =
    (fds_of m.slots message ≡ fds) × Owns fds before bad t.table × (t.oob_de ≡ none)
Accounts m fds before bad (err e, t) = Owns [] before bad t.table × (t.oob_de ≡ none)
Accounts m fds before bad (panic p, t) = ⊥

module _ (c : Bincode) (cmsg_space : ℕ → ℕ) (b : Build) (m : Message) (before : List RawFd)
    (bad : ℕ) where
  check_left-Accounts :
      (orig : ℕ) (queue : List OwnedFd) (r : (BincodeError ⊎ Fields m.slots) × Thread)
      → Finished before bad m.slots queue r
      → Accounts m (raws queue) before bad (check_left c cmsg_space b m orig (unscatter r))
  unfolding Finished
  check_left-Accounts orig queue (inl e, t) (left, q, o) =
      rw (q, or_default) (drop_fds-Owns before bad left t.table o, refl)
  check_left-Accounts orig queue (inr message, t) ([], q, o, e) =
      let all : raws queue ≡ fds_of m.slots message = e ∙ append-nil (fds_of m.slots message) in
      rw (q, or_default) (sym all, rw (e) o, refl)
  check_left-Accounts orig queue (inr message, t) (f ∷ left, q, o, e) =
      rw (q, or_default)
        (
          drop_fds-Owns before bad (f ∷ left) _
              (drop_message-Owns before bad m.slots message (raws (f ∷ left)) t.table o),
          refl,
        )

  scatter-Accounts :
      (d : Delivery) (fds : List RawFd) (t : Thread)
      → t.oob_de ≡ none
      → Owns fds before bad t.table
      → Accounts m fds before bad (read_message c cmsg_space b m d (ok (owners fds)) t)
  scatter-Accounts d fds t q o = elim (Bool-cases d.ancillary_truncated) [
    | inl cut ↦ rw cut (drop_fds-Owns before bad (owners fds) t.table (rw (raws-owners fds) o), q)
    | inr whole ↦
        rw (whole, scatter_fds_from_vec_deque_lem b t (owners fds) _ q)
          (subst
            (λ came. Accounts m came before bad (
              check_left c cmsg_space b m (length (owners fds)) (
                unscatter (
                  deserialize_message c m.slots d.data_read
                    (record t { oob_de = some (owners fds) })))))
            (raws-owners fds)
            (check_left-Accounts (length (owners fds)) (owners fds) _ (
              deserialize_message-Finished before bad c m.slots (owners fds) d.data_read
                (record t { oob_de = some (owners fds) }) refl (rw (raws-owners fds) o))))
  ]

  -- A receive of a message that is neither truncated nor empty accounts for every descriptor that
  -- came with it, whatever its bytes and its type: if the message is returned it owns exactly
  -- those descriptors, in order, and on every error each of them has been closed once. It does not
  -- panic. This supposes that the kernel's descriptors are not negative, that they are open, and
  -- that the call does not come from within a deserialization.
  pub receive_with_fds-Accounts :
      (d : Delivery) (t : Thread)
      → d.truncated ≡ false
      → d.data_read ≢ []
      → All (λ fd. is_negative fd ≡ false) (delivered_fds d.messages)
      → t.oob_de ≡ none
      → Owns (delivered_fds d.messages) before bad t.table
      → Accounts m
          (delivered_fds d.messages)
          before
          bad
          (receive_with_fds c cmsg_space b m (inr d) t)
  unfolding receive_with_fds
  receive_with_fds-Accounts d t whole some_data valid q o =
      let nonempty : (length d.data_read == 0) ≡ false = length-ne d.data_read some_data in
      rw (whole, nonempty, own_all-owners b (delivered_fds d.messages) valid)
        (scatter-Accounts d (delivered_fds d.messages) t q o)

  receive_with_fds-early :
      (d : Delivery) (t : Thread)
      → (d.truncated ≡ true) ⊎ (d.data_read ≡ [])
      → (receive_with_fds c cmsg_space b m (inr d) t).1 ≡ t
  unfolding receive_with_fds
  receive_with_fds-early d t (inl e) = rw e
  receive_with_fds-early d t (inr e) =
      let none_read : (length d.data_read == 0) ≡ true = rw e refl in
      elim (Bool-cases d.truncated) [ inl cut ↦ rw cut | inr whole ↦ rw (whole, none_read) ]

  Owns-ne :
      (fds : List RawFd) (t : Table) → fds ≢ [] → Owns fds before bad t → ¬ Owns [] before bad t
  Owns-ne [] t some_fds o back = some_fds refl
  Owns-ne (fd ∷ fds) t some_fds o back =
      ground (arith, o.counts fd, back.counts fd, int_eq_iff fd fd)

  -- Where the data was truncated, or there is none, a receive of a message with descriptors does
  -- not close them: the table does not go back to what it was before they came.
  pub receive_with_fds-leaks :
      (d : Delivery) (t : Thread)
      → (d.truncated ≡ true) ⊎ (d.data_read ≡ [])
      → delivered_fds d.messages ≢ []
      → Owns (delivered_fds d.messages) before bad t.table
      → ¬ Owns [] before bad (receive_with_fds c cmsg_space b m (inr d) t).1.table
  receive_with_fds-leaks d t early came o back =
      Owns-ne (delivered_fds d.messages) t.table came o
        (subst (λ t'. Owns [] before bad t'.table) (receive_with_fds-early d t early) back)
