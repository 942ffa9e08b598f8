-- ===== src/Services/Sessions/Shell/User.antt =====
-- A whole connection of a user to server/src/services/sessions/mod.rs, together with the pty service
-- that its request makes use of.
use tere.Prelude.{
  ℕ, ◌≡◌, refl, inr, Option, none, some, List, [], ◌∷◌, ◌++◌, Outcome, ok, err, Act, ◌⊎◌, bytes_eq,
  bytes_eq_iff, true,
}
use tere.Std.Fd.{RawFd, Table}
use tere.DbusShell
use tere.DbusShell.{ShellSpec}
use tere.Ipc.{Ipc, IoError, ReceiveError}
use tere.Ipc.Bincode.{Bytes}
use tere.Ipc.Closed.{Receiver, hung_up}
use tere.Ipc.SeqPacket.{receive_with_fds}
use tere.Ipc.Handshake
use tere.Ipc.Handshake.{Identity, Handshake, identify, handshake_as_server}
use tere.Ipc.SeqPacket.Sockets.{sock_seqpacket}
use tere.Proto.Sessions
use tere.Proto.Sessions.{Request, create_shell_session, CreateShellSession}
use tere.Services.Pty.{Spawned}
use tere.Services.Pty.Line
use tere.Services.Sessions.{
  ConnError, receive, Server, World, outside_ipc, shell_spec, serve_requests, serve_conn,
}
use tere.Services.Sessions.Store.{SessionId, Sessions, allocate}
use tere.Services.Sessions.Shell.{Around, outside_world, asked, Served, handle_request-Served}

pub data Packet : Type 0 where
  greeting : Handshake → Packet
  request : Request → Packet

-- What a receive makes of a packet that holds a message of the other type, and the threads
-- that receive at the two ends.
pub record Misread : Type 0 where
  pub receiver : Receiver
  pub caller : Receiver
  pub as_handshake : Packet → Outcome ReceiveError Handshake
  pub as_request : Packet → Outcome ReceiveError Request

-- The service's end: what it has yet to receive, and what it has sent.
pub record End : Type 0 where
  pub inbox : List Packet
  pub outbox : List Handshake

-- The next packet. After the last one the user is gone.
abbrev pub pop :
    {M : Type 0}
    → Outcome ReceiveError M
    → (Packet → Outcome ReceiveError M)
    → List Packet
    → Act End ReceiveError M
pop closed read [] s = (closed, s)
pop closed read (p ∷ ps) s = (read p, record s { inbox = ps })

-- The request as it arrives, with the number that its descriptor has in the service's process.
abbrev pub arrived_shell : (RawFd → RawFd) → CreateShellSession → CreateShellSession
arrived_shell take create = record create { fd = take create.fd }

abbrev pub arrived : (RawFd → RawFd) → Request → Request
arrived take (create_shell_session create) = create_shell_session (arrived_shell take create)

module _ (misread : Misread) (take : RawFd → RawFd) where
  abbrev pub read_handshake : Packet → Outcome ReceiveError Handshake
  read_handshake (greeting h) = ok h
  read_handshake p = misread.as_handshake p

  abbrev pub read_request : Packet → Outcome ReceiveError Request
  read_request (request q) = ok (arrived take q)
  read_request p = misread.as_request p

  abbrev pub user_handshakes : Ipc End Handshake Handshake
  user_handshakes = record {
    send_with_fds = λ m s. (ok tt, record s { outbox = s.outbox ++ m ∷ [] });
    receive_with_fds = λ s.
        pop (hung_up misread.receiver Handshake.message Handshake.of_fields) read_handshake s.inbox
          s;
    shutdown = λ how s. (ok tt, s);
  }

  abbrev pub user_requests : Act End ReceiveError Request
  user_requests s =
      pop (hung_up misread.receiver Sessions.request Sessions.request_of) read_request s.inbox s

-- The processes around the sessions service: how descriptors are numbered in the pty service, what
-- the sockets there are, and D-Bus.
pub record Machine : Type 0 where
  pub misread_pty : Line.Misread
  pub misread : Misread
  pub take : RawFd → RawFd
  pub pass : RawFd → RawFd
  pub so_type : RawFd → IoError ⊎ ℕ
  pub id : Identity
  pub table : Table
  pub dbus : ShellSpec → Outcome DbusShell.Error RawFd
  pub pty_conn : RawFd

module _ (c : Machine) where
  abbrev pub around : World (Around End)
  around =
      outside_world c.misread_pty c.pass c.so_type c.id c.table (user_handshakes c.misread c.take)
        (user_requests c.misread c.take) c.dbus c.pty_conn

  abbrev pub before : List Packet → List Handshake → Sessions → Server (Around End)
  before inbox outbox m =
      asked c.misread_pty c.pass c.so_type c.id c.table (user_handshakes c.misread c.take)
        (user_requests c.misread c.take) c.dbus c.pty_conn
        (record { inbox = inbox; outbox = outbox }) m

  -- The service on the packets of one connection.
  unfoldable pub service :
      List (List SessionId)
      → Sessions
      → List Packet
      → Option (Outcome ConnError (Unit {0}) × Server (Around End))
  unfolding serve_conn
  service rounds m packets = serve_conn around c.id rounds (before packets [] m)

  abbrev pub spawned_of : Option (Outcome ConnError (Unit {0}) × Server (Around End)) → List Spawned
  spawned_of none = []
  spawned_of (some (r, s)) =
      (Line.service c.misread_pty c.pass c.so_type c.id c.table s.world.pty.sent).1.spawned

  -- The threads that the pty service spawns, once the two services have seen the packets.
  unfoldable pub threads : List (List SessionId) → Sessions → List Packet → List Spawned
  unfolding service
  threads rounds m packets = spawned_of (service rounds m packets)

  abbrev pub outbox_of :
      Option (Outcome ConnError (Unit {0}) × Server (Around End)) → List Handshake
  outbox_of none = []
  outbox_of (some (r, s)) = s.world.user.outbox

  abbrev pub answers : List (List SessionId) → Sessions → List Packet → List Handshake
  answers rounds m packets = outbox_of (service rounds m packets)

  pub same_build : (intent : Bytes) → bytes_eq (identify c.id intent) (identify c.id intent) ≡ true
  same_build intent = (bytes_eq_iff (identify c.id intent) (identify c.id intent)).1 refl

  abbrev pub hello : Packet
  hello = greeting (Handshake.new c.id Sessions.client_intent)

  abbrev pub welcome : Handshake
  welcome = Handshake.new c.id Sessions.server_intent

  pub shaken :
      (m : Sessions) (packets : List Packet)
      → handshake_as_server c.id
          (outside_ipc around.client)
          Sessions.client_intent
          Sessions.server_intent
          (before (hello ∷ packets) [] m)
        ≡ (ok tt, before packets (welcome ∷ []) m)
  unfolding handshake_as_server Handshake.new
  shaken m packets = rw (same_build Sessions.client_intent) refl

  -- The answer to a handshake of the same build.
  pub first_answer :
      (rounds : List (List SessionId)) (draws : List SessionId) (m : Sessions)
      → answers (draws ∷ rounds) m (hello ∷ []) ≡ welcome ∷ []
  unfolding service serve_conn serve_requests hung_up receive_with_fds
  first_answer rounds draws m = rw (shaken m []) refl

  abbrev pub IsServed :
      SessionId → CreateShellSession → RawFd → Sessions → Server (Around End) → Type 0
  IsServed key create pty_master m s =
      Served c.misread_pty c.pass c.so_type c.id c.table (user_handshakes c.misread c.take)
        (user_requests c.misread c.take) c.dbus c.pty_conn key (arrived_shell c.take create)
        pty_master (record { inbox = []; outbox = welcome ∷ [] }) m s

  -- A receive from a user who sends no more.
  pub last_round :
      (rounds : List (List SessionId)) (more : List SessionId) (m : Sessions) (u : End)
      (l : Line.Line)
      → u ≡ record { inbox = []; outbox = welcome ∷ [] }
      → ◌≡◌ {A = Option (Outcome ConnError (Unit {0}) × Server (Around End))}
          (serve_requests around c.id
            (more ∷ rounds)
            (record { world = record { user = u; pty = l }; sessions = m }))
          (some (
            err (receive ReceiveError.end),
            record { world = record { user = u; pty = l }; sessions = m },
          ))
  unfolding serve_requests hung_up receive_with_fds
  last_round rounds more m u l h = rw (h) refl

  -- A connection on which a user of the same build shakes hands and asks for one shell, and then
  -- sends no more, under the conditions under which such a request is served: the connection ends
  -- with the end of the stream, the user has been sent one handshake, and the request was served.
  pub service-IsServed :
      (rounds : List (List SessionId)) (draws more : List SessionId) (create : CreateShellSession)
      (m m' : Sessions) (key : SessionId) (pty_master : RawFd)
      → allocate draws m ≡ some (key, m')
      → c.dbus (shell_spec (arrived_shell c.take create)) ≡ ok pty_master
      → c.so_type (c.pass (c.take create.fd)) ≡ inr sock_seqpacket
      → (s : Server (Around End)) × (service
            (draws ∷ more ∷ rounds)
            m
            (hello ∷ request (create_shell_session create) ∷ [])
          ≡ some (err (receive ReceiveError.end), s))
        × IsServed key create pty_master m s
  unfolding service serve_conn serve_requests
  service-IsServed rounds draws more create m m' key pty_master found opened packets =
      let (s, handled, served) =
        handle_request-Served c.misread_pty c.pass c.so_type c.id c.table
          (user_handshakes c.misread c.take) (user_requests c.misread c.take) c.dbus c.pty_conn
          draws (arrived_shell c.take create) (record { inbox = []; outbox = welcome ∷ [] }) m m'
          key pty_master found opened packets in
      let ends = last_round rounds more s.sessions s.world.user s.world.pty served.user_kept in
      (s, rw (shaken m (request (create_shell_session create) ∷ []), handled) ends, served)
