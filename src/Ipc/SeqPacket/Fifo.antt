-- ===== src/Ipc/SeqPacket/Fifo.antt =====
-- The connection of server/src/ipc/seqpacket.rs against a queue of messages. In a message of the
-- queue an open file stands for each descriptor.
pub mod Sending
pub mod Receiving
pub mod Run
mod Examples
use tere.Prelude.{
  ℕ, zero, suc, ◌*◌, ◌≡◌, ◌≢◌, ◌≤◌, refl, sym, ap, subst, ◌∙◌, ◌⊎◌, inl, inr, false, true, none,
  some, List, [], ◌∷◌, ◌++◌, map, length, take, ltb, Outcome, ok, err, panic, Build, All, arith,
  append-nil, append_assoc,
}
use tere.Std.Fd.{RawFd, is_negative, Table, opened_all}
use tere.Ipc.{IoError, SendError, ReceiveError}
use tere.Ipc.Bincode.{Bytes, Bincode, BincodeError, IsLawful, Value}
use tere.Ipc.PassFd.{Thread, ungather, gather_fds_to_vec_lem}
use tere.Ipc.Message.{Slot, plain, passed, Message, Fields, fds_of, refill, serialize_fields}
use tere.Ipc.SeqPacket.{
  Packet, Delivery, delivered_fds, sent, pack, prepare, send_with_fds, receive_with_fds,
}
use tere.Ipc.SeqPacket.Link.{
  Kernel, Flight, View, IsSeqPacketSocket, Peers, send, receive, after_prepare,
}
use tere.Ipc.SeqPacket.RoundTrip.{Codes, prepare-Codes, receive-Codes}

-- The fields of a message, with something else in place of descriptors.
abbrev pub Held : Type 0 → List Slot → Type 0
Held F [] = Unit
Held F (plain k ∷ ss) = Value k × Held F ss
Held F (passed ∷ ss) = F × Held F ss

abbrev pub resolve : {F : Type 0} → (RawFd → F) → (ss : List Slot) → Fields ss → Held F ss
resolve file [] m = tt
resolve file (plain k ∷ ss) m = (m.0, resolve file ss m.1)
resolve file (passed ∷ ss) m = (file m.0, resolve file ss m.1)

module _ (c : Bincode) (m : Message) where
  -- Any code of the message is not empty and fits into the receiver's buffer, and it has no more
  -- descriptors than the type announces.
  pub record Fits (message : Fields m.slots) : Type 0 where
    pub coded : (code : Bytes) → Codes c m.slots message code → code ≢ []
    pub small : (code : Bytes) → Codes c m.slots message code → length code ≤ m.max_size
    pub few : length (fds_of m.slots message) ≤ m.max_fds

module _ {F : Type 0} (c : Bincode) (m : Message) where
  -- A packet that is a code of a message, of which `content` is the abstract view.
  pub record Carries (content : Held F m.slots) (f : Flight F) : Type 0 where
    pub message : Fields m.slots
    pub file : RawFd → F
    pub codes : Codes c m.slots message f.bytes
    pub files : f.files ≡ map file (fds_of m.slots message)
    pub held : resolve file m.slots message ≡ content
    pub fits : Fits c m message

  abbrev pub Represents : List (Held F m.slots) → List (Flight F) → Type 0
  Represents [] [] = Unit
  Represents [] (f ∷ fs) = ⊥
  Represents (x ∷ xs) [] = ⊥
  Represents (x ∷ xs) (f ∷ fs) = Carries x f × Represents xs fs

  pub Represents-snoc :
      (xs : List (Held F m.slots)) (fs : List (Flight F)) (x : Held F m.slots) (f : Flight F)
      → Represents xs fs
      → Carries x f
      → Represents (xs ++ x ∷ []) (fs ++ f ∷ [])
  Represents-snoc [] [] x f h k = (k, tt)
  Represents-snoc [] (g ∷ fs) x f h k = absurd h
  Represents-snoc (y ∷ xs) [] x f h k = absurd h
  Represents-snoc (y ∷ xs) (g ∷ fs) x f h k = (h.0, Represents-snoc xs fs x f h.1 k)

module _ {K F : Type 0} (v : View K F) (c : Bincode) (m : Message) where
  -- The packets on their way are the messages of the queue, and neither process is within a call.
  pub record Linked (queue : List (Held F m.slots)) (s : Peers K) : Type 0 where
    pub represents : Represents c m queue (v.in_flight s.socket)
    pub no_ser : s.sender.oob_ser ≡ none
    pub no_de : s.receiver.oob_de ≡ none

  -- What a send leaves: the message at the end of the queue, or an error and the queue as it was.
  abbrev pub Sent :
      List (Held F m.slots) → Held F m.slots → Outcome SendError (Unit {0}) × Peers K → Type 0
  Sent queue x (ok u, s) = Linked (queue ++ x ∷ []) s
  Sent queue x (err e, s) = Linked queue s
  Sent queue x (panic p, s) = ⊥

  -- What a receive leaves: the first message of the queue, of the same content, or an error of
  -- `recvmsg` and the queue as it was. On an empty queue there is no message.
  abbrev pub Received :
      List (Held F m.slots) → Outcome ReceiveError (Fields m.slots) × Peers K → Type 0
  Received (x ∷ queue) (ok message, s) =
      (resolve (v.receiver_file s.socket) m.slots message ≡ x) × Linked queue s
  Received [] (ok message, s) = ⊥
  Received queue (err (ReceiveError.socket e), s) = Linked queue s
  Received [] (err ReceiveError.end, s) = Linked [] s
  Received queue (err e, s) = ⊥
  Received queue (panic p, s) = ⊥
