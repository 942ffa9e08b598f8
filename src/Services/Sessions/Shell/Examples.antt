-- ===== src/Services/Sessions/Shell/Examples.antt =====
-- A request of a user to whom the machine gives the terminal 5.
use tere.Prelude.{
  ℕ, ◌+◌, ◌≡◌, refl, some, none, [], ◌∷◌, ◌++◌, codes, ok, err, Outcome, Act, ◌⊎◌, inr,
}
use tere.Prelude.Int.{pos, negsuc}
use tere.Std.Fd.{RawFd, Table}
use tere.DbusShell
use tere.DbusShell.{ShellSpec}
use tere.Ipc.{Ipc, IoError, ReceiveError}
use tere.Ipc.Handshake.{Identity, Handshake}
use tere.Ipc.SeqPacket.Sockets.{sock_seqpacket}
use tere.Proto.Machine.{host}
use tere.Proto.Sessions.{Request, CreateShellSession, create_shell_session}
use tere.Ipc.SeqPacket.SmallKernel.{small_receiver}
use tere.Services.Pty.Line.{Misread, quiet}
use tere.Services.Sessions.{Server, handle_request}
use tere.Services.Sessions.Store.{Sessions, allocate, lookup, ready, creating}
use tere.Services.Sessions.Shell.{Around, outside_world, Served, handle_request-Served}

abbrev build : Identity
build = record {
  derive_key = λ context material. context ++ material;
  protocol_identity = codes "f00d";
}

abbrev misread : Misread
misread = record {
  receiver = small_receiver;
  caller = small_receiver;
  as_handshake = λ p. err ReceiveError.too_large;
  as_init = λ p. err ReceiveError.too_large;
  as_request = λ p. err ReceiveError.too_large;
}

abbrev moved : RawFd → RawFd
moved (pos n) = pos (n + 10)
moved (negsuc n) = negsuc n

abbrev so_type : RawFd → IoError ⊎ ℕ
so_type fd = inr sock_seqpacket

abbrev table : Table
table = record { open_fds = pos 10 ∷ []; bad_closes = 0 }

abbrev user : Ipc (Unit {0}) Handshake Handshake
user = record {
  send_with_fds = λ m l. (ok tt, l);
  receive_with_fds = λ l. (err ReceiveError.end, l);
  shutdown = λ how l. (ok tt, l);
}

abbrev requests : Act (Unit {0}) ReceiveError Request
requests l = (err ReceiveError.end, l)

abbrev dbus : ShellSpec → Outcome DbusShell.Error RawFd
dbus spec = ok (pos 5)

abbrev create : CreateShellSession
create = record {
  fd = pos 8;
  machine = host;
  user = codes "u";
  program = none;
  args = none;
  env = none;
}

abbrev before : Sessions
before = (codes "a", ready (pos 3) (pos 4)) ∷ []

handle_request-Served_example :
    (s : Server (Around (Unit {0}))) × (handle_request
        (outside_world misread moved so_type build table user requests dbus (pos 6))
        build
        (codes "a" ∷ codes "b" ∷ [])
        (create_shell_session create)
        (record { world = record { user = tt; pty = quiet }; sessions = before })
      ≡ some (ok tt, s))
    × Served misread moved so_type build table user requests dbus
        (pos 6)
        (codes "b")
        create
        (pos 5)
        tt
        before
        s
unfolding allocate lookup
handle_request-Served_example =
    handle_request-Served misread moved so_type build table user requests dbus (pos 6)
      (codes "a" ∷ codes "b" ∷ []) create tt before ((codes "b", creating) ∷ before) (codes "b")
      (pos 5) refl refl refl
