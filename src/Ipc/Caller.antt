-- ===== src/Ipc/Caller.antt =====
-- The end of a connection of server/src/ipc/mod.rs whose peer answers to what it is sent: a receive
-- finds what the peer has answered to all packets of type `P` that were sent up to then.
use tere.Prelude.{ℕ, ◌+◌, List, [], ◌∷◌, ◌++◌, drop, ok, Act}
use tere.Ipc.{Ipc, SendError, ReceiveError}
use tere.Ipc.Closed.{Receiver, hung_up}
use tere.Ipc.Handshake.{Handshake, message, of_fields}

-- The packets that were sent, and how many answers were received.
pub record Caller (P : Type 0) : Type 0 where
  pub sent : List P
  pub received : ℕ

module _ {P : Type 0} where
  abbrev pub quiet : Caller P
  quiet = record { sent = []; received = 0 }

  abbrev pub send_packet : P → Act (Caller P) SendError (Unit {0})
  send_packet p w = (ok tt, record w { sent = w.sent ++ p ∷ [] })

  abbrev pub take_answer : Receiver → List Handshake → Act (Caller P) ReceiveError Handshake
  take_answer r [] w = (hung_up r message of_fields, w)
  take_answer r (h ∷ hs) w = (ok h, record w { received = w.received + 1 })

  -- The handshake's end, given what the peer answers. `r` is the thread that calls; after the last
  -- answer its peer is gone.
  abbrev pub caller_handshakes :
      Receiver → (Handshake → P) → (List P → List Handshake) → Ipc (Caller P) Handshake Handshake
  caller_handshakes r greeting answers = record {
    send_with_fds = λ m. send_packet (greeting m);
    receive_with_fds = λ w. take_answer r (drop w.received (answers w.sent)) w;
    shutdown = λ how w. (ok tt, w);
  }
