-- ===== src/Ipc/SeqPacket/UnitTests.antt =====
-- The unit tests in server/src/ipc/seqpacket.rs, less what they ask of the files behind the
-- descriptors and of their numbers.
use tere.Prelude.{
  ℕ, ◌≡◌, ◌≢◌, ◌≤◌, sym, ◌∙◌, refl, ap, true, Bool, List, [], ◌∷◌, ◌==◌, length, if◌then◌else◌,
  Outcome, ok, err, panic, Build, explicit, expect, expect_outcome, bytes_eq, bytes_eq_iff, arith,
}
use tere.Prelude.Int.{int_eq, int_eq_iff}
use tere.Std.Fd.{RawFd}
use tere.Ipc.{SendError, ReceiveError}
use tere.Ipc.Bincode.{Bincode, IsLawful, text}
use tere.Ipc.Message.{Message, Fields, plain, passed}
use tere.Ipc.SeqPacket.Link.{Kernel, View, IsSeqPacketSocket, Peers, send, receive}
use tere.Ipc.SeqPacket.Fifo.{Linked, Fits, Held, resolve, Sent, Received}
use tere.Ipc.SeqPacket.Fifo.Sending.{send-Sent}
use tere.Ipc.SeqPacket.Fifo.Receiving.{receive-Received}

abbrev pub dummy_message : Message
dummy_message = record { max_size = 4000; max_fds = 3; slots = plain text ∷ passed ∷ passed ∷ [] }

-- `Vec::dedup`, behind an element that is kept.
abbrev dedup_after : RawFd → List RawFd → List RawFd
dedup_after x [] = []
dedup_after x (y ∷ ys) =
    let rest = dedup_after y ys in if int_eq x y then dedup_after x ys else y ∷ rest

abbrev pub dedup : List RawFd → List RawFd
dedup [] = []
dedup (x ∷ xs) = x ∷ dedup_after x xs

unfoldable fds_are_unique : List RawFd → Bool
fds_are_unique fds = length (dedup fds) == length fds

-- Descriptors that repeat, but not side by side, pass for unique.
fds_are_unique-repeated : (x y : RawFd) → x ≢ y → fds_are_unique (x ∷ y ∷ x ∷ []) ≡ true
unfolding fds_are_unique
fds_are_unique-repeated x y apart = ground (arith, int_eq_iff x y, int_eq_iff y x)

module _ {K F : Type 0} (kernel : Kernel K) (v : View K F) (c : Bincode) (cmsg_space : ℕ → ℕ)
    (b : Build) where
  abbrev same_greeting :
      Fields dummy_message.slots
      → Outcome ⊥ (Fields dummy_message.slots) × Peers K
      → Outcome ⊥ (Fields dummy_message.slots) × Peers K
  same_greeting msg (ok got, s) = if bytes_eq msg.0 got.0 then (ok got, s) else (panic explicit, s)
  same_greeting msg (err e, s) = absurd e
  same_greeting msg (panic p, s) = (panic p, s)

  abbrev then_receive :
      Fields dummy_message.slots
      → Outcome ⊥ (Unit {0}) × Peers K
      → Outcome ⊥ (Fields dummy_message.slots) × Peers K
  then_receive msg (ok u, s) =
      let r = receive kernel c cmsg_space b dummy_message s in
      same_greeting msg (expect_outcome r.0, r.1)
  then_receive msg (err e, s) = absurd e
  then_receive msg (panic p, s) = (panic p, s)

  -- The test `roundtrip`: the result is the message that came.
  unfoldable roundtrip :
      Fields dummy_message.slots → Peers K → Outcome ⊥ (Fields dummy_message.slots) × Peers K
  roundtrip msg s =
      let r = send kernel c cmsg_space b dummy_message msg s in
      then_receive msg (expect_outcome r.0, r.1)

  abbrev Passed :
      Held F dummy_message.slots → Outcome ⊥ (Fields dummy_message.slots) × Peers K → Type 0
  Passed want (ok got, s) = resolve (v.receiver_file s.socket) dummy_message.slots got ≡ want
  Passed want (err e, s) = ⊥
  Passed want (panic p, s) = p ≡ expect

  module _ (law : IsSeqPacketSocket kernel v cmsg_space) (lawful : IsLawful c)
      (monotone : (x y : ℕ) → x ≤ y → cmsg_space x ≤ cmsg_space y) where
    Received-Passed :
        (msg : Fields dummy_message.slots) (x : Held F dummy_message.slots)
        → x.0 ≡ msg.0
        → (r : Outcome ReceiveError (Fields dummy_message.slots) × Peers K)
        → Received v c dummy_message (x ∷ []) r
        → Passed x (same_greeting msg (expect_outcome r.0, r.1))
    Received-Passed msg x e (ok got, s) h =
        let same : bytes_eq msg.0 got.0 ≡ true =
          (bytes_eq_iff msg.0 got.0).1 (sym (ap (λ y. y.0) h.0 ∙ e)) in
        rw (same) h.0
    Received-Passed msg x e (err n, s) h = refl
    Received-Passed msg x e (panic p, s) h = absurd h

    Sent-Passed :
        (msg : Fields dummy_message.slots) (x : Held F dummy_message.slots)
        → x.0 ≡ msg.0
        → (r : Outcome SendError (Unit {0}) × Peers K) → Sent v c dummy_message [] x r
        → Passed x (then_receive msg (expect_outcome r.0, r.1))
    Sent-Passed msg x e (ok u, s) h =
        Received-Passed msg x e (receive kernel c cmsg_space b dummy_message s)
          (receive-Received kernel v c cmsg_space b dummy_message law lawful monotone (x ∷ []) s h)
    Sent-Passed msg x e (err n, s) h = refl
    Sent-Passed msg x e (panic p, s) h = absurd h

    -- Over a connection on which nothing is on its way, the test receives a message with the same
    -- greeting, whose descriptors stand for the same open files, or panics at the `expect` of a call
    -- that failed. The assertion about the greeting holds. This supposes a kernel, and a bincode,
    -- that keep their laws, and a message that fits.
    roundtrip-Passed :
        (msg : Fields dummy_message.slots) (s : Peers K)
        → Linked v c dummy_message [] s
        → Fits c dummy_message msg
        → Passed (resolve (v.sender_file s.socket) dummy_message.slots msg) (roundtrip msg s)
    unfolding roundtrip
    roundtrip-Passed msg s l fits =
        Sent-Passed msg (resolve (v.sender_file s.socket) dummy_message.slots msg) refl
          (send kernel c cmsg_space b dummy_message msg s)
          (send-Sent kernel v c cmsg_space b dummy_message law lawful [] msg s l fits)
