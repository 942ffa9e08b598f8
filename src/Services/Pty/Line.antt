-- ===== src/Services/Pty/Line.antt =====
-- A client of server/src/services/pty/mod.rs at the other end of the service's connection: the
-- process in server/src/services/sessions/mod.rs, or a test. A receive by the client finds what the
-- service has answered to all that was sent up to then.
use tere.Prelude.{
  ℕ, suc, ◌≡◌, refl, ap, Option, some, List, [], ◌∷◌, ◌++◌, map, length, length-map, Outcome, ok,
  err, Act, All, ◌⊎◌, bytes_eq, bytes_eq_iff, true, false, arith,
}
use tere.Std.Fd.{RawFd, Table}
use tere.Ipc.{Ipc, IoError, ReceiveError}
use tere.Ipc.Bincode.{Bytes}
use tere.Ipc.Closed.{Receiver, hung_up}
use tere.Ipc.SeqPacket.{receive_with_fds}
use tere.Ipc.SeqPacket.Sockets.{is_seq_packet, try_from}
pub use tere.Ipc.Caller.{quiet, send_packet}
use tere.Ipc.Caller.{Caller, caller_handshakes}
use tere.Ipc.Handshake
use tere.Ipc.Handshake.{Identity, Handshake, handshake_as_client, handshake_as_server, identify}
use tere.Proto.Pty
use tere.Proto.Pty.{Init, Request, new_client}
use tere.Services.Pty.{Error, receive, Conn, State, serve, serve_loop, serve_request}
use tere.Services.Pty.Clients.{Yields, stops, more, IsSeqPacket, thread_for, serve-spawns}

pub data Packet : Type 0 where
  greeting : Handshake → Packet
  init : Init → Packet
  request : Request → Packet

-- What a receive makes of a packet that holds a message of another type, and the threads
-- that receive at the two ends.
pub record Misread : Type 0 where
  pub receiver : Receiver
  pub caller : Receiver
  pub as_handshake : Packet → Outcome ReceiveError Handshake
  pub as_init : Packet → Outcome ReceiveError Init
  pub as_request : Packet → Outcome ReceiveError Request

-- The service's end: what it has yet to receive, and what it has sent.
pub record End : Type 0 where
  pub inbox : List Packet
  pub outbox : List Handshake

-- The next packet. After the last one the client is gone.
abbrev pub pop :
    {M : Type 0}
    → Outcome ReceiveError M
    → (Packet → Outcome ReceiveError M)
    → List Packet
    → Act End ReceiveError M
pop closed read [] s = (closed, s)
pop closed read (p ∷ ps) s = (read p, record s { inbox = ps })

-- The number that a descriptor has in the service's process.
abbrev pub arrived_init : (RawFd → RawFd) → Init → Init
arrived_init pass i = record i { pty_master = pass i.pty_master }

abbrev pub arrived : (RawFd → RawFd) → Request → Request
arrived pass (new_client dummy fd) = new_client dummy (pass fd)

module _ (misread : Misread) (pass : RawFd → RawFd) where
  abbrev pub read_handshake : Packet → Outcome ReceiveError Handshake
  read_handshake (greeting h) = ok h
  read_handshake p = misread.as_handshake p

  abbrev pub read_init : Packet → Outcome ReceiveError Init
  read_init (init i) = ok (arrived_init pass i)
  read_init p = misread.as_init p

  abbrev pub read_request : Packet → Outcome ReceiveError Request
  read_request (request q) = ok (arrived pass q)
  read_request p = misread.as_request p

  abbrev pub service_conn : Conn End
  service_conn = record {
    handshakes = record {
      send_with_fds = λ m s. (ok tt, record s { outbox = s.outbox ++ m ∷ [] });
      receive_with_fds = λ s.
          pop (hung_up misread.receiver Handshake.message Handshake.of_fields) read_handshake
            s.inbox s;
      shutdown = λ how s. (ok tt, s);
    };
    receive_init = λ s. pop (hung_up misread.receiver Pty.init Pty.init_of) read_init s.inbox s;
    receive_request =
        λ s. pop (hung_up misread.receiver Pty.request Pty.request_of) read_request s.inbox s;
  }

  -- The service at the end of a line on which the given packets come.
  module _ (so_type : RawFd → IoError ⊎ ℕ) (id : Identity) (table : Table) where
    unfoldable pub service : List Packet → Option (Outcome Error (Unit {0})) × State End
    unfolding serve
    service packets =
        serve so_type service_conn id (suc (length packets))
          (record { conn = record { inbox = packets; outbox = [] }; table = table; spawned = [] })

    abbrev pub answers : List Packet → List Handshake
    answers packets = (service packets).1.conn.outbox

-- The client's end.
abbrev pub Line : Type 0
Line = Caller Packet

abbrev pub client_handshakes :
    Misread → (List Packet → List Handshake) → Ipc Line Handshake Handshake
client_handshakes misread answers = caller_handshakes misread.caller greeting answers

module _ (misread : Misread) (pass : RawFd → RawFd) (so_type : RawFd → IoError ⊎ ℕ) (id : Identity)
    (table : Table) where
  pub same_build : (intent : Bytes) → bytes_eq (identify id intent) (identify id intent) ≡ true
  same_build intent = (bytes_eq_iff (identify id intent) (identify id intent)).1 refl

  abbrev pub hello : Packet
  hello = greeting (Handshake.new id Pty.client_intent)

  -- The service's side of the handshake with a client of the same build.
  shaken :
      (packets : List Packet)
      → handshake_as_server id
          (service_conn misread pass).handshakes
          Pty.client_intent
          Pty.server_intent
          (record { inbox = hello ∷ packets; outbox = [] })
        ≡ (ok tt, record { inbox = packets; outbox = Handshake.new id Pty.server_intent ∷ [] })
  unfolding handshake_as_server Handshake.new
  shaken packets = rw (same_build Pty.client_intent) refl

  pub first_answer :
      answers misread pass so_type id table (hello ∷ []) ≡ Handshake.new id Pty.server_intent ∷ []
  unfolding service serve hung_up receive_with_fds
  first_answer = rw (answers, service, serve, shaken []) refl

  -- The client's side.
  pub shakes :
      handshake_as_client id
        (client_handshakes misread (answers misread pass so_type id table))
        Pty.client_intent
        Pty.server_intent
        quiet
      ≡ (ok tt, record { sent = hello ∷ []; received = 1 })
  unfolding handshake_as_client Handshake.new
  shakes = rw (first_answer, same_build Pty.server_intent) refl

  -- The requests that are left are those that come.
  Yields-requests :
      (qs : List Request) (outbox : List Handshake)
      → Yields so_type
          (service_conn misread pass)
          (record { inbox = map request qs; outbox = outbox })
          (map (arrived pass) qs)
          ReceiveError.end
  unfolding hung_up receive_with_fds
  Yields-requests [] outbox = stops refl
  Yields-requests (q ∷ qs) outbox = more refl (Yields-requests qs outbox)

  -- The service on a whole line.
  pub service-spawns :
      (i : Init) (qs : List Request)
      → All (IsSeqPacket so_type (service_conn misread pass)) (map (arrived pass) qs)
      → ((service misread pass so_type id table (hello ∷ init i ∷ map request qs)).0
          ≡ some (err (receive ReceiveError.end)))
        × ((service misread pass so_type id table (hello ∷ init i ∷ map request qs)).1.spawned
            ≡ map (thread_for (pass i.pty_master)) (map (arrived pass) qs))
  unfolding service
  service-spawns i qs packets =
      serve-spawns so_type (service_conn misread pass) id
        (suc (length (hello ∷ init i ∷ map request qs)))
        (record {
          conn = record { inbox = hello ∷ init i ∷ map request qs; outbox = [] };
          table = table;
          spawned = [];
        })
        (arrived_init pass i) (map (arrived pass) qs) ReceiveError.end refl
        (ap (λ r. r.0) (shaken (init i ∷ map request qs)))
        (rw (shaken (init i ∷ map request qs)) refl)
        (rw (shaken (init i ∷ map request qs)) (Yields-requests qs _)) packets
        (omega (arith, length-map (arrived pass) qs, length-map request qs))

  -- A user whose socket is of another type gets no thread.
  pub service-refuses :
      (i : Init) (dummy : ℕ) (fd : RawFd)
      → is_seq_packet (so_type (pass fd)) ≡ false
      → (service misread pass so_type id table
          (hello ∷ init i ∷ request (new_client dummy fd) ∷ [])).1.spawned
        ≡ []
  unfolding service serve serve_loop serve_request try_from
  service-refuses i dummy fd other =
      rw (shaken (init i ∷ request (new_client dummy fd) ∷ []), other) refl

  -- Nor is there one on a line on which nothing comes.
  pub service-silent : (service misread pass so_type id table []).1.spawned ≡ []
  unfolding service serve handshake_as_server hung_up receive_with_fds
  service-silent = refl
