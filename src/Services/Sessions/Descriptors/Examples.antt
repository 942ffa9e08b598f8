-- ===== src/Services/Sessions/Descriptors/Examples.antt =====
-- A request to which D-Bus answers with the terminal 5, where the pty service refuses the handshake.
use tere.Prelude.{◌≡◌, refl, none, [], ◌∷◌, codes, ok, err, arith}
use tere.Prelude.Int.{pos}
use tere.Ipc.{Ipc, ReceiveError}
use tere.Ipc.Handshake.{Identity, Handshake}
use tere.Proto.Machine.{host}
use tere.Proto.Sessions.{CreateShellSession}
use tere.Services.Sessions.{World, create_session}
use tere.Services.Sessions.Store.{Sessions, lookup, creating}
use tere.Services.Sessions.Descriptors.{Process, erased, create_session_owned}
use tere.Services.Sessions.Descriptors.Settling.{Settled, create_session-Settled}

abbrev build : Identity
build = record { derive_key = λ context material. context; protocol_identity = [] }

abbrev refusing : Ipc (Unit {0}) Handshake Handshake
refusing = record {
  send_with_fds = λ m s. (ok tt, s);
  receive_with_fds = λ s. (err ReceiveError.end, s);
  shutdown = λ how s. (ok tt, s);
}

abbrev outside : World (Unit {0})
outside = record {
  client = refusing;
  receive_request = λ s. (err ReceiveError.end, s);
  create_shell = λ spec s. (ok (pos 5), s);
  connect = λ location s. (ok (pos 6), s);
  pty_handshakes = λ fd. refusing;
  send_init = λ fd i s. (ok tt, s);
  send_request = λ fd q s. (ok tt, s);
}

abbrev create : CreateShellSession
create = record {
  fd = pos 4;
  machine = host;
  user = codes "u";
  program = none;
  args = none;
  env = none;
}

abbrev one_creating : Sessions
one_creating = (codes "a", creating) ∷ []

abbrev process : Process (Unit {0})
process = record {
  server = record { world = tt; sessions = one_creating };
  table = record { open_fds = pos 4 ∷ pos 3 ∷ []; bad_closes = 0 };
}

create_session-Settled_example :
    (erased (create_session_owned outside build (codes "a") create process)
      ≡ create_session outside build (codes "a") create process.server)
    × Settled
        (codes "a")
        one_creating
        (pos 3 ∷ [])
        0
        (create_session_owned outside build (codes "a") create process)
unfolding lookup
create_session-Settled_example =
    create_session-Settled (codes "a") one_creating (pos 3 ∷ []) 0 outside build create process refl
      refl (record { counts = λ x. ground arith; clean = refl })
