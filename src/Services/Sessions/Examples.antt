-- ===== src/Services/Sessions/Examples.antt =====
-- Two short ids, of which one is taken.
use tere.Prelude.{
  ◌≡◌, ◌≢◌, refl, none, some, List, [], ◌∷◌, arith, codes, ok, err, bytes_eq, if◌then◌else◌,
}
use tere.Prelude.Int.{pos}
use tere.Ipc.{Ipc, ReceiveError}
use tere.Ipc.Handshake
use tere.Ipc.Handshake.{Identity, Handshake, handshake_as_client}
use tere.Proto.Machine.{host}
use tere.Proto.Pty
use tere.Proto.Sessions.{CreateShellSession, create_shell_session}
use tere.Proto.Sessions
use tere.Services.Sessions.Connection.{Kept, serve_conn-Kept}
use tere.Services.Sessions.{
  ConnError, serve_conn, World, Server, handle_request, make_ready, hand_over, create_session,
}
use tere.Services.Sessions.Creation.{Took, handle_request-Took}
use tere.Prelude.{ℕ, true, ◌⊎◌, inl, inr, Build}
use tere.Prelude.Int.{int_eq}
use tere.Std.Fd.{RawFd}
use tere.Ipc.{IoError}
use tere.Ipc.SeqPacket.Sockets.{sock_seqpacket, sock_dgram}
use tere.Services.Sessions.Simulation.{Simulates}
use tere.Services.Sessions.Refinement.{serve_conn-Simulates}
use tere.Services.Sessions.Threads.{idle, ended}
use tere.Services.Sessions.Accept.{Accepting, conn_fds, serve, Served, serve-Served}
use tere.Std.Env
use tere.Std.Fd.{Table, Owns}
use tere.Std.Number.{u32_limit, usize_limit}
use tere.SocketActivation.{listen_pid, listen_fds, listen_fdnames}
use tere.SocketActivation.Names.{split, descriptors}
use tere.SocketActivation.Parsing.{Decimal}
use tere.Services.Sessions.Listener.{run, Chosen, run-Chosen}
use tere.Services.Sessions.Store.{
  set, SessionId, creating, ready, Sessions, lookup, allocate, allocate-fresh, allocate-ne-none,
}
use tere.Services.Sessions.Threads.{
  System, start, Inv, allocates, here, next, update, working, Reach-Inv,
}

abbrev taken : Sessions
taken = (codes "a", ready (pos 5) (pos 6)) ∷ []

abbrev draws : List SessionId
draws = codes "a" ∷ codes "b" ∷ []

second_is_fresh :
    (lookup (codes "b") taken ≡ none)
    × ((j : SessionId)
        → lookup j ((codes "b", creating) ∷ taken)
          ≡ (if bytes_eq (codes "b") j then some creating else lookup j taken))
unfolding allocate lookup
second_is_fresh = allocate-fresh draws taken ((codes "b", creating) ∷ taken) (codes "b") refl

allocate-ne-none_example : allocate draws taken ≢ none
allocate-ne-none_example = allocate-ne-none draws taken ((refl, tt), (tt, tt)) (omega arith)

-- The first connection has drawn an id.
abbrev one_working : System
one_working = record {
  sessions = (codes "a", creating) ∷ [];
  pc = update start.pc 0 (working (codes "a"));
}

Reach-Inv_example : Inv one_working
unfolding allocate
Reach-Inv_example =
    Reach-Inv (next here (allocates 0 draws (codes "a") ((codes "a", creating) ∷ []) refl refl))

abbrev build : Identity
build = record { derive_key = λ context material. context; protocol_identity = [] }

abbrev silent : Ipc (Unit {0}) Handshake Handshake
silent = record {
  send_with_fds = λ m s. (ok tt, s);
  receive_with_fds = λ s. (ok (Handshake.new build Pty.server_intent), s);
  shutdown = λ how s. (ok tt, s);
}

-- Every call succeeds; the new shell has terminal 7, and the connection to its service is 8.
abbrev outer : World (Unit {0})
outer = record {
  client = silent;
  receive_request = λ s. (err ReceiveError.end, s);
  create_shell = λ spec s. (ok (pos 7), s);
  connect = λ location s. (ok (pos 8), s);
  pty_handshakes = λ fd. silent;
  send_init = λ fd message s. (ok tt, s);
  send_request = λ fd message s. (ok tt, s);
}

abbrev shell : CreateShellSession
shell = record {
  fd = pos 4;
  machine = host;
  user = codes "tv";
  program = none;
  args = none;
  env = none;
}

abbrev before : Server (Unit {0})
before = record { world = tt; sessions = taken }

abbrev after : Server (Unit {0})
after = record { world = tt; sessions = (codes "b", ready (pos 7) (pos 8)) ∷ taken }

handle_request-Took_example : (id : SessionId) × Took id taken after.sessions (ok (pos 7)) (ok tt)
unfolding handle_request handshake_as_client set make_ready hand_over create_session allocate
handle_request-Took_example = handle_request-Took outer build draws shell before (ok tt, after) refl

-- Two sockets, of which the first is the one for sessions.
abbrev sockets : Env.Env
sockets =
    (listen_pid, codes "42")
    ∷ (listen_fds, codes "2")
    ∷ (listen_fdnames, codes "tere-sessions:other")
    ∷ []

pid_is_42 : Decimal u32_limit sockets listen_pid 42
unfolding Env.var_os
pid_is_42 = record {
  head = b'4';
  tail = b'2' ∷ [];
  present = refl;
  digits = (refl, (refl, tt));
  worth = refl;
  below = omega arith;
}

fds_are_2 : Decimal usize_limit sockets listen_fds 2
unfolding Env.var_os
fds_are_2 = record {
  head = b'2';
  tail = [];
  present = refl;
  digits = (refl, tt);
  worth = refl;
  below = omega arith;
}

abbrev debug : Build
debug = record { overflow_checks = true; debug_assertions = true }

-- Beside the two sockets the process has its standard input.
abbrev inherited : Table
inherited = record { open_fds = pos 3 ∷ pos 0 ∷ pos 4 ∷ []; bad_closes = 0 }

socket_owned : Owns (pos 3 ∷ []) (pos 0 ∷ pos 4 ∷ []) 0 inherited
socket_owned = record { counts = λ x. ground arith; clean = refl }

run-Chosen_example :
    Chosen (pos 0 ∷ pos 4 ∷ []) 0 (some (pos 3)) (ok tt) (run debug 3 42 (ok tt) sockets inherited)
unfolding split Env.var_os descriptors
run-Chosen_example =
    run-Chosen (pos 0 ∷ pos 4 ∷ []) 0 debug 42 2 (ok tt) sockets inherited
      (codes "tere-sessions:other") pid_is_42 fds_are_2 refl (omega arith) (inr (omega arith))
      socket_owned

-- A client that shakes hands, and goes away without a request.
abbrev visitor : World (Unit {0})
visitor = record outer {
  client = record silent {
    receive_with_fds = λ s. (ok (Handshake.new build Sessions.client_intent), s);
  };
}

serve_conn-Kept_example :
    Kept visitor build
      (codes "a")
      (ready (pos 5) (pos 6))
      (err (ConnError.receive ReceiveError.end), before)
unfolding serve_conn Handshake.handshake_as_server lookup
serve_conn-Kept_example =
    serve_conn-Kept visitor build (codes "a") (ready (pos 5) (pos 6)) ([] ∷ []) before
      (err (ConnError.receive ReceiveError.end), before) refl refl

-- No connection has done anything.
abbrev quiet : System
quiet = record { sessions = taken; pc = λ i. idle }

serve_conn-Simulates_example : Simulates 3 quiet taken ended
unfolding serve_conn Handshake.handshake_as_server
serve_conn-Simulates_example =
    serve_conn-Simulates visitor build 3 ([] ∷ []) quiet before
      (err (ConnError.receive ReceiveError.end), before) refl refl refl

-- One failed `accept`, one connection, and a datagram socket.
abbrev incoming : List (IoError ⊎ RawFd)
incoming = inl (record { errno = 24 }) ∷ inr (pos 5) ∷ inr (pos 6) ∷ []

abbrev so_type : RawFd → IoError ⊎ ℕ
so_type fd = if int_eq fd (pos 5) then inr sock_seqpacket else inr sock_dgram

abbrev listening : Accepting
listening = record { table = record { open_fds = pos 3 ∷ []; bad_closes = 0 }; spawned = [] }

nothing_owned : Owns [] (pos 3 ∷ []) 0 listening.table
nothing_owned = record { counts = λ x. ground arith; clean = refl }

serve-Served_example :
    Served so_type (pos 5 ∷ pos 6 ∷ []) listening (serve so_type incoming listening)
    × Owns
        (conn_fds (serve so_type incoming listening).1.spawned)
        (pos 3 ∷ [])
        0
        (serve so_type incoming listening).1.table
serve-Served_example = serve-Served so_type (pos 3 ∷ []) 0 incoming listening nothing_owned
