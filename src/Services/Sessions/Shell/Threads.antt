-- ===== src/Services/Sessions/Shell/Threads.antt =====
-- Which thread of server/src/services/pty/mod.rs a connection of a user to
-- server/src/services/sessions/mod.rs leads to.
use tere.Prelude.{
  ℕ, ◌≡◌, ◌≢◌, refl, false, ◌⊎◌, inr, some, List, [], ◌∷◌, Outcome, ok, err, panic, Panic, expect,
  Act,
}
use tere.Std.Fd.{RawFd, Table}
use tere.DbusShell
use tere.DbusShell.{ShellSpec}
use tere.Ipc.{Ipc, IoError, ReceiveError}
use tere.Ipc.Handshake.{Identity, Handshake}
use tere.Ipc.SeqPacket.Sockets.{sock_seqpacket, is_seq_packet}
use tere.Proto.Sessions.{Request, create_shell_session, CreateShellSession}
use tere.Services.Pty.Line.{Misread, service-refuses, service-silent}
use tere.Services.Sessions.{
  World, Server, shell_spec, create_session, handle_request, serve_requests, serve_conn,
}
use tere.Services.Sessions.Store.{SessionId, Sessions, allocate}
use tere.Services.Sessions.Shell.{
  Around, outside_world, asked, handed_over, handle_request-handed_over,
}
use tere.Services.Sessions.Shell.User.{
  Packet, request, Machine, End, user_handshakes, user_requests, arrived_shell, service, threads,
  hello, welcome, shaken, last_round, service-IsServed,
}

module _ {U : Type 0} (misread : Misread) (pass : RawFd → RawFd) (so_type : RawFd → IoError ⊎ ℕ)
    (id : Identity) (table : Table) (client : Ipc U Handshake Handshake)
    (requests : Act U ReceiveError Request) (dbus : ShellSpec → Outcome DbusShell.Error RawFd)
    (pty_conn : RawFd) where
  abbrev sessions_world : World (Around U)
  sessions_world = outside_world misread pass so_type id table client requests dbus pty_conn

  abbrev before_request : U → Sessions → Server (Around U)
  before_request u m = asked misread pass so_type id table client requests dbus pty_conn u m

  -- Without a terminal the request panics, and nothing is sent to the pty service.
  pub handle_request-no_terminal :
      (draws : List SessionId) (create : CreateShellSession) (u : U) (m m' : Sessions)
      (key : SessionId)
      → allocate draws m ≡ some (key, m')
      → ((pty_master : RawFd) → dbus (shell_spec create) ≢ ok pty_master)
      → (p : Panic) × (handle_request sessions_world id draws
            (create_shell_session create)
            (before_request u m)
          ≡ some (panic p, before_request u m'))
  unfolding handle_request create_session
  handle_request-no_terminal draws create u m m' key found closed =
      at (dbus (shell_spec create)) refl
    where
      at :
          (r : Outcome DbusShell.Error RawFd)
          → dbus (shell_spec create) ≡ r
          → (p : Panic) × (handle_request sessions_world id draws
                (create_shell_session create)
                (before_request u m)
              ≡ some (panic p, before_request u m'))
      at (ok fd) q = absurd (closed fd q)
      at (err e) q = (expect, rw (handle_request, found, create_session, q) refl)
      at (panic p) q = (p, rw (handle_request, found, create_session, q) refl)

module _ (c : Machine) (rounds : List (List SessionId)) (draws more : List SessionId)
    (create : CreateShellSession) (m m' : Sessions) (key : SessionId)
    (found : allocate draws m ≡ some (key, m')) where
  -- The packets of one request, and the descriptor of its socket in the pty service.
  abbrev pub one_request : List Packet
  one_request = hello c ∷ request (create_shell_session create) ∷ []

  abbrev pub arrives : RawFd
  arrives = c.pass (c.take create.fd)

  abbrev user : End
  user = record { inbox = []; outbox = welcome c ∷ [] }

  pub threads-one :
      (pty_master : RawFd)
      → c.dbus (shell_spec (arrived_shell c.take create)) ≡ ok pty_master
      → c.so_type arrives ≡ inr sock_seqpacket
      → threads c (draws ∷ more ∷ rounds) m one_request
        ≡ record { pty = c.pass pty_master; client = record { socket = record { raw = arrives } } }
          ∷ []
  unfolding threads
  threads-one pty_master opened packets =
      let (s, ends, served) =
        service-IsServed c rounds draws more create m m' key pty_master found opened packets in
      rw (ends) served.one_thread

  pub threads-other_socket :
      (pty_master : RawFd)
      → c.dbus (shell_spec (arrived_shell c.take create)) ≡ ok pty_master
      → is_seq_packet (c.so_type arrives) ≡ false
      → threads c (draws ∷ more ∷ rounds) m one_request ≡ []
  unfolding threads service serve_conn serve_requests
  threads-other_socket pty_master opened other =
      let handled =
        handle_request-handed_over c.misread_pty c.pass c.so_type c.id c.table
          (user_handshakes c.misread c.take) (user_requests c.misread c.take) c.dbus c.pty_conn
          draws (arrived_shell c.take create) user m m' key pty_master found opened in
      let after =
        handed_over c.misread_pty c.pass c.so_type c.id c.table (user_handshakes c.misread c.take)
          (user_requests c.misread c.take) c.dbus c.pty_conn key (arrived_shell c.take create)
          pty_master user m' in
      rw
        (
          shaken c m (request (create_shell_session create) ∷ []),
          handled,
          last_round c rounds more after.sessions user after.world.pty refl,
        )
        (service-refuses c.misread_pty c.pass c.so_type c.id c.table
          (record { dummy = 0; pty_master = pty_master }) 0 (c.take create.fd) other)

  pub threads-no_terminal :
      ((pty_master : RawFd) → c.dbus (shell_spec (arrived_shell c.take create)) ≢ ok pty_master)
      → threads c (draws ∷ more ∷ rounds) m one_request ≡ []
  unfolding threads service serve_conn serve_requests
  threads-no_terminal closed =
      let (p, handled) =
        handle_request-no_terminal c.misread_pty c.pass c.so_type c.id c.table
          (user_handshakes c.misread c.take) (user_requests c.misread c.take) c.dbus c.pty_conn
          draws (arrived_shell c.take create) user m m' key found closed in
      rw (shaken c m (request (create_shell_session create) ∷ []), handled)
        (service-silent c.misread_pty c.pass c.so_type c.id c.table)
