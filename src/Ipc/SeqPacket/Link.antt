-- ===== src/Ipc/SeqPacket/Link.antt =====
-- One direction of a connection of server/src/ipc/seqpacket.rs, between a process that sends and
-- one that receives. The kernel is an interface: `sendmsg` and `recvmsg` over its state, and what
-- unix(7) and recvmsg(2) say of a SOCK_SEQPACKET socket.
use tere.Prelude.{
  ℕ, ◌*◌, ◌≡◌, ◌≤◌, ◌⊎◌, inl, inr, false, List, [], ◌∷◌, ◌++◌, map, length, take, ltb, Outcome, ok,
  err, panic, Build, All,
}
use tere.Std.Fd.{RawFd, is_negative, Table, opened_all}
use tere.Ipc.{IoError, SendError, ReceiveError}
use tere.Ipc.Bincode.{Bytes, Bincode}
use tere.Ipc.PassFd.{Thread}
use tere.Ipc.Message.{Message, Fields}
use tere.Ipc.SeqPacket.{Packet, Delivery, delivered_fds, prepare, send_with_fds, receive_with_fds}

-- A call leaves the kernel's state; `recvmsg` also opens descriptors of the receiver, whose buffers
-- have the two sizes.
pub record Kernel (K : Type 0) : Type 0 where
  pub sendmsg : Packet → K → (IoError ⊎ Unit {0}) × K
  pub recvmsg : (data_size ancillary_size : ℕ) → K → Table → (IoError ⊎ Delivery) × (Table × K)

-- A packet on its way holds open files, of a type `F`, and no descriptors.
pub record Flight (F : Type 0) : Type 0 where
  pub bytes : Bytes
  pub files : List F

-- How the kernel's state is looked at: the packets on their way, and the open file of each
-- descriptor of the two processes.
pub record View (K F : Type 0) : Type 0 where
  pub in_flight : K → List (Flight F)
  pub sender_file : K → RawFd → F
  pub receiver_file : K → RawFd → F

module _ {K F : Type 0} (kernel : Kernel K) (v : View K F) (cmsg_space : ℕ → ℕ) where
  -- Packets keep their order and are received whole. What does not fit into the data buffer is cut
  -- off, which a flag tells. Where the ancillary buffer has room for all descriptors, all of them
  -- are made anew in the receiver, for the same open files. A call that fails leaves the packets as
  -- they are. A receive that finds no packet, and does not wait for one, reads nothing.
  pub record IsSeqPacketSocket : Type 0 where
    pub sent :
        (p : Packet) (k : K)
        → (kernel.sendmsg p k).0 ≡ inr tt
        → v.in_flight (kernel.sendmsg p k).1
          ≡ v.in_flight k ++ record { bytes = p.encoded; files = map (v.sender_file k) p.fds } ∷ []
    pub not_sent :
        (p : Packet) (k : K) (e : IoError)
        → (kernel.sendmsg p k).0 ≡ inl e
        → v.in_flight (kernel.sendmsg p k).1 ≡ v.in_flight k
    pub received :
        (n size : ℕ) (k : K) (t : Table) (f : Flight F) (fs : List (Flight F)) (d : Delivery)
        → v.in_flight k ≡ f ∷ fs
        → (kernel.recvmsg n size k t).0 ≡ inr d
        → (v.in_flight (kernel.recvmsg n size k t).1.1 ≡ fs)
          × (d.data_read ≡ take n f.bytes)
          × (d.truncated ≡ ltb n (length f.bytes))
    pub received_files :
        (n size : ℕ) (k : K) (t : Table) (f : Flight F) (fs : List (Flight F)) (d : Delivery)
        → v.in_flight k ≡ f ∷ fs
        → (kernel.recvmsg n size k t).0 ≡ inr d
        → cmsg_space (4 * length f.files) ≤ size
        → (d.ancillary_truncated ≡ false)
          × All (λ fd. is_negative fd ≡ false) (delivered_fds d.messages)
          × (map (v.receiver_file (kernel.recvmsg n size k t).1.1) (delivered_fds d.messages)
              ≡ f.files)
          × ((kernel.recvmsg n size k t).1.0 ≡ opened_all (delivered_fds d.messages) t)
    pub not_received :
        (n size : ℕ) (k : K) (t : Table) (e : IoError)
        → (kernel.recvmsg n size k t).0 ≡ inl e
        → (v.in_flight (kernel.recvmsg n size k t).1.1 ≡ v.in_flight k)
          × ((kernel.recvmsg n size k t).1.0 ≡ t)
    pub ended :
        (n size : ℕ) (k : K) (t : Table) (d : Delivery)
        → v.in_flight k ≡ []
        → (kernel.recvmsg n size k t).0 ≡ inr d
        → (v.in_flight (kernel.recvmsg n size k t).1.1 ≡ [])
          × (d.data_read ≡ [])
          × (d.truncated ≡ false)

pub record Peers (K : Type 0) : Type 0 where
  pub sender : Thread
  pub receiver : Thread
  pub socket : K

module _ {K : Type 0} (kernel : Kernel K) (c : Bincode) (cmsg_space : ℕ → ℕ) (b : Build)
    (m : Message) where
  abbrev pub after_prepare : Outcome SendError Packet × Thread → K → K
  after_prepare (ok p, t) k = (kernel.sendmsg p k).1
  after_prepare (err e, t) k = k
  after_prepare (panic p, t) k = k

  unfoldable pub send : Fields m.slots → Peers K → Outcome SendError (Unit {0}) × Peers K
  unfolding send_with_fds
  send message s =
      let r =
        send_with_fds c cmsg_space b m (λ p. (kernel.sendmsg p s.socket).0) message s.sender in
      (
        r.0,
        record s {
          sender = r.1;
          socket = after_prepare (prepare c cmsg_space b m message s.sender) s.socket;
        },
      )

  unfoldable pub receive : Peers K → Outcome ReceiveError (Fields m.slots) × Peers K
  unfolding receive_with_fds
  receive s =
      let r = kernel.recvmsg m.max_size (cmsg_space (4 * m.max_fds)) s.socket s.receiver.table in
      let got = receive_with_fds c cmsg_space b m r.0 (record s.receiver { table = r.1.0 }) in
      (got.0, record s { receiver = got.1; socket = r.1.1 })
