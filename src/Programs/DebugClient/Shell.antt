-- ===== src/Programs/DebugClient/Shell.antt =====
-- server/src/bin/tere-debug-client-sessions.rs together with the services that it asks: the sessions
-- service, the pty service behind that, and the thread of the pty service that the user's socket
-- leads to. All were built from the same sources.
pub mod Starting
mod Examples
use tere.Prelude.{
  ◌≡◌, refl, inr, Option, none, some, List, [], ◌∷◌, codes, Outcome, ok, err, Act, ◌⊎◌, bytes_eq,
  bytes_eq_iff, Bool, true, false, panic, expect, if◌then◌else◌, ◌↔◌, arith,
}
use tere.Prelude.Int.{int_eq, int_eq_iff}
use tere.Std.Fd.{RawFd}
use tere.Ipc.{Ipc, ReceiveError}
use tere.Ipc.Bincode.{Bytes}
use tere.Ipc.Caller.{Caller, quiet, send_packet, caller_handshakes}
use tere.Ipc.Closed.{hung_up}
use tere.Ipc.Handshake
use tere.Ipc.Handshake.{Identity, Handshake, identify, handshake_as_client, handshake_as_server}
use tere.Ipc.Handshake.Wire.{Wire, start, client_end, server_end}
use tere.Ipc.SeqPacket.{receive_with_fds}
use tere.Ipc.SeqPacket.Sockets.{SeqPacket, sock_seqpacket, seq_packet_pair, pair}
use tere.Proto.Pty
use tere.Proto.Pty.{Output}
use tere.Proto.Sessions
use tere.Proto.Sessions.{CreateShellSession, create_shell_session}
use tere.Proto.Machine.{host}
use tere.Services.Pty.{Spawned}
use tere.Services.Sessions.{Server, ConnError, receive, shell_spec}
use tere.Services.Sessions.Store.{SessionId, Sessions, allocate}
use tere.Services.Sessions.Shell.{Around}
use tere.Services.Sessions.Shell.User.{
  Packet, greeting, request, Machine, End, service, answers, hello, welcome, first_answer, IsServed,
  service-IsServed, arrived_shell, same_build, threads,
}
use tere.Programs.DebugClient.{Conns, World, date, shell_request, begin, request_shell, type_input}

-- The client's two connections.
pub record Ends : Type 0 where
  pub to_sessions : Caller Packet
  pub to_thread : Wire

module _ {E A : Type 0} where
  abbrev pub on_sessions : Act (Caller Packet) E A → Act Ends E A
  on_sessions m w = ((m w.to_sessions).0, record w { to_sessions = (m w.to_sessions).1 })

  abbrev pub on_thread : Act Wire E A → Act Ends E A
  on_thread m w = ((m w.to_thread).0, record w { to_thread = (m w.to_thread).1 })

-- The request for a shell that the client makes.
abbrev pub shell_of : RawFd → CreateShellSession
shell_of server_socket = record {
  fd = server_socket;
  machine = host;
  user = codes "testuser";
  program = none;
  args = none;
  env = none;
}

-- The thread's side of the user's handshake.
abbrev pub thread : Identity → Act Wire Handshake.Error (Unit {0})
thread id = handshake_as_server id server_end Pty.user_client_intent Pty.user_server_intent

-- What the handshake with a user leaves of the connection.
abbrev pub shaken : Wire
shaken = record { to_server = []; to_client = []; served = some (ok tt) }

-- Whether a thread was spawned for a descriptor.
unfoldable pub serves : RawFd → List Spawned → Bool
serves fd [] = false
serves fd (t ∷ ts) = let rest = serves fd ts in if int_eq t.client.socket.raw fd then true else rest

pub serves_self :
    (fd pty : RawFd)
    → serves fd (record { pty = pty; client = record { socket = record { raw = fd } } } ∷ []) ≡ true
unfolding serves
serves_self fd pty = let same : int_eq fd fd ≡ true = (int_eq_iff fd fd).1 refl in rw (same) refl

-- `theirs` is the socket that the client makes for the user's side of the session and sends away.
module _ (c : Machine) (rounds : List (List SessionId)) (draws more : List SessionId) (m : Sessions)
    (outputs : Act Ends ReceiveError Output) (theirs : RawFd) where
  abbrev pub replies : List Packet → List Handshake
  replies = answers c (draws ∷ more ∷ rounds) m

  -- On what was sent to the sessions service, the pty service has a thread for that socket.
  abbrev pub has_thread : List Packet → Bool
  has_thread packets = serves (c.pass (c.take theirs)) (threads c (draws ∷ more ∷ rounds) m packets)

  -- A receive on the user's connection. Without a thread the other end of the pair is closed.
  abbrev pub from_thread : Bool → Act Ends ReceiveError Handshake
  from_thread true e = on_thread (client_end (thread c.id)).receive_with_fds e
  from_thread false e = (hung_up c.misread.caller Handshake.message Handshake.of_fields, e)

  -- Messages on the user's connection are taken by the socket.
  abbrev pub conns : Conns Ends
  conns = record {
    conn = record {
      send_with_fds =
          λ h. on_sessions ((caller_handshakes c.misread.caller greeting replies).send_with_fds h);
      receive_with_fds =
          on_sessions (caller_handshakes c.misread.caller greeting replies).receive_with_fds;
      shutdown =
          λ how. on_sessions ((caller_handshakes c.misread.caller greeting replies).shutdown how);
    };
    send_request = λ q. on_sessions (send_packet (request q));
    client = record {
      send_with_fds = λ h. on_thread ((client_end (thread c.id)).send_with_fds h);
      receive_with_fds = λ e. from_thread (has_thread e.to_sessions.sent) e;
      shutdown = λ how. on_thread ((client_end (thread c.id)).shutdown how);
    };
    send_input = λ i e. (ok tt, e);
    receive_output = outputs;
  }

  abbrev pub fresh : World Ends
  fresh = record {
    behind = record { to_sessions = quiet; to_thread = start };
    requests = [];
    inputs = [];
    printed = [];
  }

  sessions_shaken :
      handshake_as_client c.id conns.conn Sessions.client_intent Sessions.server_intent fresh.behind
      ≡ (
        ok tt,
        record { to_sessions = record { sent = hello c ∷ []; received = 1 }; to_thread = start },
      )
  unfolding handshake_as_client Handshake.new
  sessions_shaken =
      rw (first_answer c (more ∷ rounds) draws m, same_build c Sessions.server_intent) refl

  -- The connection to the sessions service once the request was sent.
  abbrev pub asked : Caller Packet
  asked = record { sent = hello c ∷ request (shell_request theirs) ∷ []; received = 1 }

  -- The handshake of the user with the thread.
  user_shaken :
      has_thread asked.sent ≡ true
      → handshake_as_client c.id conns.client Pty.user_client_intent Pty.user_server_intent
          (record { to_sessions = asked; to_thread = start })
        ≡ (ok tt, record { to_sessions = asked; to_thread = shaken })
  unfolding handshake_as_client handshake_as_server Handshake.new
  user_shaken h =
      rw (h, same_build c Pty.user_client_intent, same_build c Pty.user_server_intent) refl

  -- Without a thread it fails.
  user_refused :
      has_thread asked.sent ≡ false
      → (handshake_as_client c.id conns.client Pty.user_client_intent Pty.user_server_intent
          (record { to_sessions = asked; to_thread = start })).0
        ≡ err (Handshake.receive ReceiveError.end)
  unfolding handshake_as_client hung_up receive_with_fds
  user_refused h = rw (h) refl

  -- The client when its loop begins.
  abbrev pub waiting : World Ends
  waiting = record {
    behind = record { to_sessions = asked; to_thread = shaken };
    requests = shell_request theirs ∷ [];
    inputs = date ∷ [];
    printed = [];
  }

  -- `ours` is the client's own socket of the pair.
  module _ (conn : SeqPacket) (ours : RawFd) where
    abbrev pub begun : Outcome ⊥ (Unit {0}) × World Ends
    begun = begin conns c.id (ok conn) (inr (ours, theirs)) fresh

    pub begin-waiting : has_thread asked.sent ≡ true → begun ≡ (ok tt, waiting)
    unfolding begin request_shell type_input seq_packet_pair pair
    begin-waiting h = rw (sessions_shaken, user_shaken h) refl

    pub begin-panics : has_thread asked.sent ≡ false → begun.0 ≡ panic expect
    unfolding begin request_shell type_input seq_packet_pair pair
    begin-panics h = rw (sessions_shaken, user_refused h) refl
