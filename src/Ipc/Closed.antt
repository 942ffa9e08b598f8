-- ===== src/Ipc/Closed.antt =====
-- A receive of server/src/ipc/seqpacket.rs on a connection whose peer is gone and on which no packet
-- is left.
use tere.Prelude.{ℕ, inr, false, [], Outcome, ok, err, panic, Build}
use tere.Ipc.{ReceiveError}
use tere.Ipc.Bincode.{Bincode}
use tere.Ipc.Message.{Message, Fields}
use tere.Ipc.PassFd.{Thread}
use tere.Ipc.SeqPacket.{Delivery, receive_with_fds}

-- What recvmsg(2) hands over then: it returns 0, as for an end of file.
abbrev pub nothing_left : Delivery
nothing_left = record {
  data_read = [];
  truncated = false;
  messages = [];
  ancillary_truncated = false;
}

-- The thread that receives, with the functions that its receive makes use of.
pub record Receiver : Type 0 where
  pub codec : Bincode
  pub cmsg_space : ℕ → ℕ
  pub build : Build
  pub thread : Thread

abbrev map_ok : {E A B : Type 0} → (A → B) → Outcome E A → Outcome E B
map_ok f (ok a) = ok (f a)
map_ok f (err e) = err e
map_ok f (panic p) = panic p

-- The result of the receive, for a type of messages that is made from its fields by `of`.
unfoldable pub hung_up :
    {M : Type 0} → Receiver → (m : Message) → (Fields m.slots → M) → Outcome ReceiveError M
unfolding receive_with_fds
hung_up r m of =
    map_ok of (receive_with_fds r.codec r.cmsg_space r.build m (inr nothing_left) r.thread).0
