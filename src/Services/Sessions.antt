-- ===== src/Services/Sessions.antt =====
-- server/src/services/sessions/mod.rs: the process that creates shell sessions. The random ids that
-- are drawn, and what the other processes answer, are arguments.
pub mod Store
pub mod Creation
pub mod Listener
pub mod Connection
pub mod Accept
pub mod Simulation
pub mod Refinement
pub mod Threads
pub mod Shell
pub mod Descriptors
mod Examples
use tere.Prelude.{
  ℕ, ◌≡◌, refl, ◌⊎◌, inl, inr, Bool, true, false, Option, none, some, List, [], ◌∷◌, ◌++◌, codes,
  bytes_eq, if◌then◌else◌, Outcome, ok, err, panic, explicit, Act, pure, panic_with, map_err,
  expect_ok, ◌>>=◌, ◌>>◌,
}
use tere.Std.Fd.{RawFd}
use tere.DbusShell
use tere.DbusShell.{ShellSpec}
use tere.Ipc.{Ipc, IoError, SendError, ReceiveError}
use tere.Ipc.Bincode.{Bytes}
use tere.Ipc.Handshake
use tere.Ipc.Handshake.{Identity, Handshake, handshake_as_client, handshake_as_server}
use tere.Proto.Machine.{Machine, host, container}
use tere.Proto.Pty
use tere.Proto.Sessions
use tere.Proto.Sessions.{Request, create_shell_session, CreateShellSession}
use Store.{SessionId, Session, creating, ready, Sessions, lookup, set, allocate}

pub data ConnError : Type 0 where
  handshake : Handshake.Error → ConnError
  receive : ReceiveError → ConnError

unfoldable pub machine_name : Machine → Bytes
machine_name host = codes ".host"
machine_name (container name) = name

unfoldable pub shell_spec : CreateShellSession → ShellSpec
unfolding machine_name
shell_spec create = record {
  machine = machine_name create.machine;
  user = create.user;
  program = [];
  args = [];
  environment = [];
}

abbrev pub pty_service_location : Bytes
pty_service_location = codes "/run/tere/socket/pty.socket"

-- The calls that leave the process, over the state `W` of everything outside. A connection to the
-- pty service is named by its descriptor.
pub record World (W : Type 0) : Type 0 where
  pub client : Ipc W Handshake Handshake
  pub receive_request : Act W ReceiveError Request
  pub create_shell : ShellSpec → Act W DbusShell.Error RawFd
  pub connect : Bytes → Act W IoError RawFd
  pub pty_handshakes : RawFd → Ipc W Handshake Handshake
  pub send_init : RawFd → Pty.Init → Act W SendError (Unit {0})
  pub send_request : RawFd → Pty.Request → Act W SendError (Unit {0})

pub record Server (W : Type 0) : Type 0 where
  pub world : W
  pub sessions : Sessions

module _ {W E A : Type 0} where
  -- A call that does not touch the sessions.
  abbrev pub outside : Act W E A → Act (Server W) E A
  outside m s = ((m s.world).0, record s { world = (m s.world).1 })

module _ {W : Type 0} where
  abbrev pub outside_ipc : Ipc W Handshake Handshake → Ipc (Server W) Handshake Handshake
  outside_ipc conn = record {
    send_with_fds = λ m. outside (conn.send_with_fds m);
    receive_with_fds = outside conn.receive_with_fds;
    shutdown = λ how. outside (conn.shutdown how);
  }

  -- Under the lock of the session: it must still be `Creating`.
  abbrev pub replace :
      SessionId → RawFd → RawFd → Option Session → Act (Server W) ConnError (Unit {0})
  replace id pty_master pty_conn (some creating) s =
      (ok tt, record s { sessions = set id (ready pty_master pty_conn) s.sessions })
  replace id pty_master pty_conn (some (ready p c)) s = (panic explicit, s)
  replace id pty_master pty_conn none s = (panic explicit, s)

  unfoldable pub make_ready : SessionId → RawFd → RawFd → Act (Server W) ConnError (Unit {0})
  make_ready id pty_master pty_conn s = replace id pty_master pty_conn (lookup id s.sessions) s

  module _ (w : World W) (identity : Identity) where
    -- What follows the connect to the pty service.
    unfoldable pub hand_over :
        SessionId
        → CreateShellSession
        → (pty_master pty_conn : RawFd) → Act (Server W) ConnError (Unit {0})
    unfolding make_ready
    hand_over id create pty_master pty_conn = do
      expect_ok (
          handshake_as_client identity (outside_ipc (w.pty_handshakes pty_conn)) Pty.client_intent
            Pty.server_intent)
      expect_ok (outside (w.send_init pty_conn (record { dummy = 0; pty_master = pty_master })))
      make_ready id pty_master pty_conn
      expect_ok (outside (w.send_request pty_conn (Pty.new_client 0 create.fd)))

    -- A request, from the moment at which its session has an id. Every `expect` is a panic of the
    -- connection's thread.
    unfoldable pub create_session :
        SessionId → CreateShellSession → Act (Server W) ConnError (Unit {0})
    unfolding shell_spec hand_over
    create_session id create = do
      pty_master ← expect_ok (outside (w.create_shell (shell_spec create)))
      pty_conn ← expect_ok (outside (w.connect pty_service_location))
      hand_over id create pty_master pty_conn

    abbrev pub with_id :
        Option (SessionId × Sessions)
        → CreateShellSession
        → Server W
        → Option (Outcome ConnError (Unit {0}) × Server W)
    with_id none create s = none
    with_id (some (id, m)) create s = some (create_session id create (record s { sessions = m }))

    -- `draws` are the ids that `rand::random()` returns; `none` means that they were all taken.
    unfoldable pub handle_request :
        List SessionId → Request → Server W → Option (Outcome ConnError (Unit {0}) × Server W)
    unfolding create_session
    handle_request draws (create_shell_session create) s =
        with_id (allocate draws s.sessions) create s

    abbrev pub next_round :
        Option (Outcome ConnError (Unit {0}) × Server W)
        → (Server W → Option (Outcome ConnError (Unit {0}) × Server W))
        → Option (Outcome ConnError (Unit {0}) × Server W)
    next_round none k = none
    next_round (some (ok u, s)) k = k s
    next_round (some (err e, s)) k = some (err e, s)
    next_round (some (panic p, s)) k = some (panic p, s)

    abbrev pub on_request :
        List SessionId
        → Outcome ReceiveError Request
        → Server W
        → Option (Outcome ConnError (Unit {0}) × Server W)
    on_request draws (ok request) s = handle_request draws request s
    on_request draws (err e) s = some (err (receive e), s)
    on_request draws (panic p) s = some (panic p, s)

    -- The loop, with the ids that are drawn in each round. `none` means that the rounds, or the
    -- draws of one, ran out.
    unfoldable pub serve_requests :
        List (List SessionId) → Server W → Option (Outcome ConnError (Unit {0}) × Server W)
    unfolding handle_request
    serve_requests [] s = none
    serve_requests (draws ∷ rounds) s =
        next_round
          (on_request draws (w.receive_request s.world).0
            (record s { world = (w.receive_request s.world).1 }))
          (λ s'. serve_requests rounds s')

    abbrev pub after_handshake :
        List (List SessionId)
        → Outcome Handshake.Error (Unit {0}) × Server W
        → Option (Outcome ConnError (Unit {0}) × Server W)
    after_handshake rounds (ok u, s) = serve_requests rounds s
    after_handshake rounds (err e, s) = some (err (handshake e), s)
    after_handshake rounds (panic p, s) = some (panic p, s)

    unfoldable pub serve_conn :
        List (List SessionId) → Server W → Option (Outcome ConnError (Unit {0}) × Server W)
    unfolding serve_requests
    serve_conn rounds s = after_handshake rounds (
        handshake_as_server identity (outside_ipc w.client) Sessions.client_intent
          Sessions.server_intent s)
