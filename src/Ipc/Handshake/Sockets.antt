-- ===== src/Ipc/Handshake/Sockets.antt =====
-- A client and a server of server/src/ipc/handshake.rs, each in a thread of its own, over a
-- connection of server/src/ipc/seqpacket.rs. A receive by the client waits for the server, which
-- runs to its end.
pub mod Steps
pub mod Agreement
mod Examples
use tere.Prelude.{
  ℕ, ◌*◌, ◌≡◌, ◌≤◌, refl, sym, ap, ◌∙◌, ◌⊎◌, inl, inr, none, List, [], ◌∷◌, ◌++◌, Outcome, ok, err,
  panic, Act, Build, bytes_eq_iff, arith, map_err_outcome, continue, subst,
}
use tere.Ipc.{Ipc, SendError, ReceiveError}
use tere.Ipc.Bincode.{Bytes, Bincode, IsLawful}
use tere.Ipc.PassFd.{Thread}
use tere.Ipc.Message.{Fields}
use tere.Ipc.SeqPacket
use tere.Ipc.SeqPacket.Link.{Kernel, View, IsSeqPacketSocket, Peers, send, receive}
use tere.Ipc.SeqPacket.Fifo.{Held, resolve, Fits, Linked, Represents, Sent, Received}
use tere.Ipc.SeqPacket.Fifo.Sending.{send-Sent}
use tere.Ipc.SeqPacket.Fifo.Receiving.{receive-Received}
use tere.Ipc.SeqPacket.ThreadLocals.{send_with_fds-oob_de, receive_with_fds-oob_ser}
use tere.Ipc.Handshake
use tere.Ipc.Handshake.{
  Identity, Handshake, Error, message, message_fields, of_fields, new, identify, check,
  handshake_as_client, handshake_as_server,
}
use tere.Ipc.Handshake.Dialogue.{handshake_as_client-ok, handshake_as_server-ok, check-state}

-- The two threads, and what the kernel holds for each direction.
pub record Duplex (K : Type 0) : Type 0 where
  pub client : Thread
  pub server : Thread
  pub up : K
  pub down : K

abbrev pub received_handshake :
    Outcome ReceiveError (Fields message.slots) → Outcome ReceiveError Handshake
received_handshake (ok m) = ok (of_fields m)
received_handshake (err e) = err e
received_handshake (panic p) = panic p

module _ {K : Type 0} where
  abbrev pub upwards : Duplex K → Peers K
  upwards d = record { sender = d.client; receiver = d.server; socket = d.up }

  abbrev pub downwards : Duplex K → Peers K
  downwards d = record { sender = d.server; receiver = d.client; socket = d.down }

  abbrev pub after_up : Peers K → Duplex K → Duplex K
  after_up p d = record d { client = p.sender; server = p.receiver; up = p.socket }

  abbrev pub after_down : Peers K → Duplex K → Duplex K
  after_down p d = record d { server = p.sender; client = p.receiver; down = p.socket }

  module _ (kernel : Kernel K) (c : Bincode) (cmsg_space : ℕ → ℕ) (b : Build) where
    abbrev pub send_up : Handshake → Act (Duplex K) SendError (Unit {0})
    send_up m d =
        let r = send kernel c cmsg_space b message (message_fields m) (upwards d) in
        (r.0, after_up r.1 d)

    abbrev pub receive_up : Act (Duplex K) ReceiveError Handshake
    receive_up d =
        let r = receive kernel c cmsg_space b message (upwards d) in
        (received_handshake r.0, after_up r.1 d)

    abbrev pub send_down : Handshake → Act (Duplex K) SendError (Unit {0})
    send_down m d =
        let r = send kernel c cmsg_space b message (message_fields m) (downwards d) in
        (r.0, after_down r.1 d)

    abbrev pub receive_down : Act (Duplex K) ReceiveError Handshake
    receive_down d =
        let r = receive kernel c cmsg_space b message (downwards d) in
        (received_handshake r.0, after_down r.1 d)

    abbrev pub server_socket : Ipc (Duplex K) Handshake Handshake
    server_socket = record {
      send_with_fds = send_down;
      receive_with_fds = receive_up;
      shutdown = λ how d. (ok tt, d);
    }

    abbrev pub client_socket : Act (Duplex K) Error (Unit {0}) → Ipc (Duplex K) Handshake Handshake
    client_socket server = record {
      send_with_fds = send_up;
      receive_with_fds = λ d. receive_down (server d).1;
      shutdown = λ how d. (ok tt, d);
    }

-- A message as an entry of a queue.
abbrev pub contents : Handshake → Bytes × (Bytes × Unit {0})
contents m = (m.intent, (m.build_id, tt))

-- No message holds a descriptor, so that the contents of the two queues are the messages.
pub record Joined {K F : Type 0} (up_view down_view : View K F) (c : Bincode)
    (ups downs : List (Held F message.slots)) (d : Duplex K) : Type 0 where
  pub up_link : Linked up_view c message ups (upwards d)
  pub down_link : Linked down_view c message downs (downwards d)
