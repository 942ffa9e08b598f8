-- ===== src/Services/Sessions/Shell.antt =====
-- A request to server/src/services/sessions/mod.rs together with the process of
-- server/src/services/pty/mod.rs that it connects to.
pub mod User
pub mod Threads
mod Examples
use tere.Prelude.{
  ℕ, ◌≡◌, refl, false, ◌∙◌, inr, some, List, [], ◌∷◌, map, Outcome, ok, err, panic, Act, ◌⊎◌,
  Option, map_err_outcome, continue, bytes_eq, expect, Panic, ◌≢◌, bytes_eq_iff, if◌then◌else◌,
  true, length, arith,
}
use tere.Std.Fd.{RawFd, Table}
use tere.DbusShell
use tere.DbusShell.{ShellSpec}
use tere.Ipc.{Ipc, IoError, ReceiveError}
use tere.Ipc.Handshake
use tere.Ipc.Handshake.{Identity, Handshake, handshake_as_client}
use tere.Ipc.SeqPacket.Sockets.{sock_seqpacket}
use tere.Proto.Pty
use tere.Proto.Sessions
use tere.Proto.Sessions.{Request, create_shell_session, CreateShellSession}
use tere.Services.Pty.{Spawned, Error, receive}
use tere.Services.Pty.Line.{
  Line, Packet, Misread, first_answer, same_build, quiet, send_packet, client_handshakes, answers,
  service, hello, init, request, shakes, service-spawns,
}
use tere.Services.Sessions.{
  World, Server, outside_ipc, shell_spec, hand_over, create_session, make_ready, replace, with_id,
  handle_request,
}
use tere.Services.Sessions.Creation.{make_ready-creating}
use tere.Services.Sessions.Store.{
  SessionId, Sessions, creating, ready, lookup, set, allocate, allocate-fresh, lookup-set,
}

-- What lies outside: the user's connection, and the line to a pty service.
pub record Around (U : Type 0) : Type 0 where
  pub user : U
  pub pty : Line

module _ {U E A : Type 0} where
  abbrev pub on_user : Act U E A → Act (Around U) E A
  on_user m w = ((m w.user).0, record w { user = (m w.user).1 })

  abbrev pub on_pty : Act Line E A → Act (Around U) E A
  on_pty m w = ((m w.pty).0, record w { pty = (m w.pty).1 })

-- The calls, with D-Bus as a function.
module _ {U : Type 0} (client : Ipc U Handshake Handshake) (requests : Act U ReceiveError Request)
    (dbus : ShellSpec → Outcome DbusShell.Error RawFd) (connected : Outcome IoError RawFd)
    (misread : Misread) (answered : List Packet → List Handshake) where
  abbrev pub world : World (Around U)
  world = record {
    client = record {
      send_with_fds = λ m. on_user (client.send_with_fds m);
      receive_with_fds = on_user client.receive_with_fds;
      shutdown = λ how. on_user (client.shutdown how);
    };
    receive_request = on_user requests;
    create_shell = λ spec l. (dbus spec, l);
    connect = λ location l. (connected, l);
    pty_handshakes = λ fd. record {
      send_with_fds = λ m. on_pty ((client_handshakes misread answered).send_with_fds m);
      receive_with_fds = on_pty (client_handshakes misread answered).receive_with_fds;
      shutdown = λ how. on_pty ((client_handshakes misread answered).shutdown how);
    };
    send_init = λ fd i. on_pty (send_packet (init i));
    send_request = λ fd q. on_pty (send_packet (request q));
  }

module _ (misread : Misread) (pass : RawFd → RawFd) (so_type : RawFd → IoError ⊎ ℕ) (id : Identity)
    (table : Table) where
  abbrev answered : List Packet → List Handshake
  answered = answers misread pass so_type id table

  -- The line after the handshake.
  abbrev shaken : Line
  shaken = record { sent = hello misread pass so_type id table ∷ []; received = 1 }

  abbrev terminal_for : RawFd → Pty.Init
  terminal_for pty_master = record { dummy = 0; pty_master = pty_master }

  module _ {U : Type 0} (client : Ipc U Handshake Handshake) (requests : Act U ReceiveError Request)
      (dbus : ShellSpec → Outcome DbusShell.Error RawFd) (pty_conn : RawFd) where
    abbrev pub outside_world : World (Around U)
    outside_world = world client requests dbus (ok pty_conn) misread answered

    -- The server before the request.
    abbrev pub asked : U → Sessions → Server (Around U)
    asked u m = record { world = record { user = u; pty = quiet }; sessions = m }

    -- The handshake with the pty service leaves the sessions and the user's connection.
    shakes_outside :
        (u : U) (m : Sessions)
        → handshake_as_client id
            (outside_ipc (outside_world.pty_handshakes pty_conn))
            Pty.client_intent
            Pty.server_intent
            (asked u m)
          ≡ (ok tt, record { world = record { user = u; pty = shaken }; sessions = m })
    unfolding handshake_as_client Handshake.new
    shakes_outside u m =
        rw
          (
            first_answer misread pass so_type id table,
            same_build misread pass so_type id table Pty.server_intent,
          )
          refl

    -- The server once the pty service has been sent the terminal and the user's socket.
    abbrev pub handed_over :
        SessionId → CreateShellSession → RawFd → U → Sessions → Server (Around U)
    handed_over key create pty_master u m = record {
      world = record {
        user = u;
        pty = record {
          sent =
              hello misread pass so_type id table
              ∷ init (terminal_for pty_master)
              ∷ request (Pty.new_client 0 create.fd)
              ∷ [];
          received = 1;
        };
      };
      sessions = set key (ready pty_master pty_conn) m;
    }

    hand_over-sent :
        (key : SessionId) (create : CreateShellSession) (pty_master : RawFd) (u : U) (m : Sessions)
        → lookup key m ≡ some creating
        → hand_over outside_world id key create pty_master pty_conn (asked u m)
          ≡ (ok tt, handed_over key create pty_master u m)
    unfolding hand_over
    hand_over-sent key create pty_master u m here =
        let s : Server (Around U) = record {
          world = record {
            user = u;
            pty = record {
              sent = hello misread pass so_type id table ∷ init (terminal_for pty_master) ∷ [];
              received = 1;
            };
          };
          sessions = m;
        } in
        rw (shakes_outside u m, make_ready-creating key pty_master pty_conn s here) refl

    -- The server after the request, and the pty service after what it was sent.
    pub record Served (key : SessionId) (create : CreateShellSession) (pty_master : RawFd) (u : U)
        (m : Sessions) (s : Server (Around U)) : Type 0 where
      pub user_kept : s.world.user ≡ u
      pub new_session : lookup key s.sessions ≡ some (ready pty_master pty_conn)
      pub others : (j : SessionId) → bytes_eq key j ≡ false → lookup j s.sessions ≡ lookup j m
      pub one_thread :
          (service misread pass so_type id table s.world.pty.sent).1.spawned
          ≡ record {
            pty = pass pty_master;
            client = record { socket = record { raw = pass create.fd } };
          }
            ∷ []
      pub waits :
          (service misread pass so_type id table s.world.pty.sent).0
          ≡ some (err (receive ReceiveError.end))

    create_session-sent :
        (key : SessionId) (create : CreateShellSession) (pty_master : RawFd) (u : U) (m : Sessions)
        → dbus (shell_spec create) ≡ ok pty_master
        → lookup key m ≡ some creating
        → create_session outside_world id key create (asked u m)
          ≡ hand_over outside_world id key create pty_master pty_conn (asked u m)
    unfolding create_session
    create_session-sent key create pty_master u m opened here = rw (opened) refl

    -- The request as far as the sessions service is concerned.
    pub handle_request-handed_over :
        (draws : List SessionId) (create : CreateShellSession) (u : U) (m m' : Sessions)
        (key : SessionId) (pty_master : RawFd)
        → allocate draws m ≡ some (key, m')
        → dbus (shell_spec create) ≡ ok pty_master
        → handle_request outside_world id draws (create_shell_session create) (asked u m)
          ≡ some (ok tt, handed_over key create pty_master u m')
    unfolding handle_request
    handle_request-handed_over draws create u m m' key pty_master found opened =
        let (vacant, entered) = allocate-fresh draws m m' key found in
        let self : bytes_eq key key ≡ true = (bytes_eq_iff key key).1 refl in
        let here : lookup key m' ≡ some creating = entered key ∙ rw (self) refl in
        rw
          (
            found,
            create_session-sent key create pty_master u m' opened here,
            hand_over-sent key create pty_master u m' here,
          )
          refl

    -- A request for a shell, where D-Bus hands over a terminal, the pty service accepts the connection
    -- and was built from the same sources, and the user's socket is a `SOCK_SEQPACKET` one: the
    -- request succeeds without a use of the user's own connection, its new session is `Ready` with that
    -- terminal, the other sessions stay, and the pty service has spawned exactly one thread, between that terminal and the user's socket,
    -- each under its number in the service's process. The service then waits for more requests, so
    -- that the end of the connection ends it.
    pub handle_request-Served :
        (draws : List SessionId) (create : CreateShellSession) (u : U) (m m' : Sessions)
        (key : SessionId) (pty_master : RawFd)
        → allocate draws m ≡ some (key, m')
        → dbus (shell_spec create) ≡ ok pty_master
        → so_type (pass create.fd) ≡ inr sock_seqpacket
        → (s : Server (Around U)) × (handle_request outside_world id draws
              (create_shell_session create)
              (asked u m)
            ≡ some (ok tt, s))
          × Served key create pty_master u m s
    handle_request-Served draws create u m m' key pty_master found opened packets =
        let (vacant, entered) = allocate-fresh draws m m' key found in
        let self : bytes_eq key key ≡ true = (bytes_eq_iff key key).1 refl in
        let here : lookup key m' ≡ some creating = entered key ∙ rw (self) refl in
        let (waits, thread) =
          service-spawns misread pass so_type id table (terminal_for pty_master)
            (Pty.new_client 0 create.fd ∷ []) (packets, tt) in
        (
          handed_over key create pty_master u m',
          handle_request-handed_over draws create u m m' key pty_master found opened,
          record {
            user_kept = refl;
            new_session = lookup-set key key (ready pty_master pty_conn) m' ∙ rw (self, here) refl;
            others = λ j other.
                lookup-set key j (ready pty_master pty_conn) m'
                ∙ rw (other) (entered j ∙ rw (other) refl);
            one_thread = thread;
            waits = waits;
          },
        )
