-- ===== src/Services/Pty.antt =====
-- server/src/services/pty/mod.rs: the process that holds the terminal of one session. It takes the
-- terminal's descriptor from its first message, and serves a user for each later one.
pub mod User
pub mod Clients
pub mod Line
pub mod UnitTests
mod Examples
use tere.Prelude.{
  ℕ, zero, suc, ◌≡◌, refl, ◌⊎◌, inl, inr, Option, none, some, List, [], ◌∷◌, ◌++◌, Outcome, ok, err,
  panic, Act, expect_outcome, map_err_outcome,
}
use tere.Std.Fd.{RawFd, Table}
use tere.Ipc.{Ipc, IoError, ReceiveError}
use tere.Ipc.Handshake
use tere.Ipc.Handshake.{Identity, Handshake, handshake_as_server}
use tere.Ipc.SeqPacket.Sockets.{UnixDatagram, SeqPacket, SocketConversionError, try_from}
use tere.Proto.Pty
use tere.Proto.Pty.{Init, Request, new_client}

pub data Error : Type 0 where
  handshake : Handshake.Error → Error
  receive : ReceiveError → Error
  non_blocking_pty : IoError → Error

pub data RunError : Type 0 where
  stdin_as_socket : SocketConversionError → RunError
  run_failed : Error → RunError

-- A connection as this service uses it: the interface `Ipc` at its three types of messages.
pub record Conn (S : Type 0) : Type 0 where
  pub handshakes : Ipc S Handshake Handshake
  pub receive_init : Act S ReceiveError Init
  pub receive_request : Act S ReceiveError Request

-- A user's thread, with the terminal and the user's socket.
pub record Spawned : Type 0 where
  pub pty : RawFd
  pub client : SeqPacket

pub record State (S : Type 0) : Type 0 where
  pub conn : S
  pub table : Table
  pub spawned : List Spawned

module _ {S : Type 0} (so_type : RawFd → IoError ⊎ ℕ) where
  abbrev pub spawn : RawFd → Outcome Error SeqPacket → Act (State S) Error (Unit {0})
  spawn pty (ok client) s =
      (ok tt, record s { spawned = s.spawned ++ record { pty = pty; client = client } ∷ [] })
  spawn pty (err e) s = (err e, s)
  spawn pty (panic p) s = (panic p, s)

  -- One request: `SeqPacket::try_from(fd).unwrap()`, and a new thread.
  unfoldable pub serve_request : RawFd → Request → Act (State S) Error (Unit {0})
  unfolding try_from
  serve_request pty (new_client dummy fd) s =
      let r = try_from so_type (record { raw = fd }) s.table in
      spawn pty (expect_outcome r.0) (record s { table = r.1 })

  module _ (conn : Conn S) where
    abbrev pub then_loop :
        Outcome Error (Unit {0}) × State S
        → (State S → Option (Outcome Error (Unit {0})) × State S)
        → Option (Outcome Error (Unit {0})) × State S
    then_loop (ok u, s) k = k s
    then_loop (err e, s) k = (some (err e), s)
    then_loop (panic p, s) k = (some (panic p), s)

    abbrev pub on_request :
        RawFd → Outcome ReceiveError Request → State S → Outcome Error (Unit {0}) × State S
    on_request pty (ok q) s = serve_request pty q s
    on_request pty (err e) s = (err (receive e), s)
    on_request pty (panic p) s = (panic p, s)

    -- The loop. `none` means that the fuel ran out.
    unfoldable pub serve_loop : ℕ → RawFd → State S → Option (Outcome Error (Unit {0})) × State S
    unfolding serve_request
    serve_loop zero pty s = (none, s)
    serve_loop (suc fuel) pty s =
        let r = conn.receive_request s.conn in
        then_loop (on_request pty r.0 (record s { conn = r.1 })) (λ s'. serve_loop fuel pty s')

    abbrev pub after_init :
        ℕ → Outcome ReceiveError Init → State S → Option (Outcome Error (Unit {0})) × State S
    after_init fuel (ok i) s = serve_loop fuel i.pty_master s
    after_init fuel (err e) s = (some (err (receive e)), s)
    after_init fuel (panic p) s = (some (panic p), s)

    abbrev pub after_handshake :
        ℕ
        → Outcome Handshake.Error (Unit {0})
        → State S
        → Option (Outcome Error (Unit {0})) × State S
    after_handshake fuel (ok u) s =
        let r = conn.receive_init s.conn in after_init fuel r.0 (record s { conn = r.1 })
    after_handshake fuel (err e) s = (some (err (handshake e)), s)
    after_handshake fuel (panic p) s = (some (panic p), s)

    unfoldable pub serve : Identity → ℕ → State S → Option (Outcome Error (Unit {0})) × State S
    unfolding serve_loop
    serve id fuel s =
        let r = handshake_as_server id conn.handshakes Pty.client_intent Pty.server_intent s.conn in
        after_handshake fuel r.0 (record s { conn = r.1 })

-- `run` takes its standard input for the socket.
unfoldable pub run :
    Outcome SocketConversionError SeqPacket
    → (SeqPacket → Outcome Error (Unit {0}))
    → Outcome RunError (Unit {0})
run (ok conn) serve_conn = map_err_outcome run_failed (serve_conn conn)
run (err e) serve_conn = err (stdin_as_socket e)
run (panic p) serve_conn = panic p
