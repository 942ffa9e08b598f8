-- ===== src/Ipc/Handshake/Wire.antt =====
-- A client and a server of server/src/ipc/handshake.rs at the two ends of one connection. A receive
-- by the client waits for the server, which runs to its end; an empty queue is then the end of the
-- stream.
use tere.Prelude.{
  ◌≡◌, ◌≢◌, ◌↔◌, Option, none, some, List, [], ◌∷◌, ◌++◌, bytes_eq_iff, Outcome, ok, err, Act,
  arith,
}
use tere.Ipc.{Ipc, ReceiveError}
use tere.Ipc.Bincode.{Bytes}
use tere.Ipc.Handshake.{
  Identity, Handshake, Error, wrong_version, handshake_as_client, handshake_as_server,
}

pub record Wire : Type 0 where
  pub to_server : List Handshake
  pub to_client : List Handshake
  pub served : Option (Outcome Error (Unit {0}))

abbrev pub start : Wire
start = record { to_server = []; to_client = []; served = none }

abbrev pub pop_server : List Handshake → Act Wire ReceiveError Handshake
pop_server [] w = (err ReceiveError.end, w)
pop_server (m ∷ ms) w = (ok m, record w { to_server = ms })

abbrev pub pop_client : List Handshake → Act Wire ReceiveError Handshake
pop_client [] w = (err ReceiveError.end, w)
pop_client (m ∷ ms) w = (ok m, record w { to_client = ms })

abbrev pub server_end : Ipc Wire Handshake Handshake
server_end = record {
  send_with_fds = λ m w. (ok tt, record w { to_client = w.to_client ++ m ∷ [] });
  receive_with_fds = λ w. pop_server w.to_server w;
  shutdown = λ how w. (ok tt, w);
}

abbrev pub note_served : Outcome Error (Unit {0}) × Wire → Wire
note_served (r, w) = record w { served = some r }

module _ (server : Act Wire Error (Unit {0})) where
  abbrev pub client_end : Ipc Wire Handshake Handshake
  client_end = record {
    send_with_fds = λ m w. (ok tt, record w { to_server = w.to_server ++ m ∷ [] });
    receive_with_fds = λ w. pop_client (note_served (server w)).to_client (note_served (server w));
    shutdown = λ how w. (ok tt, w);
  }

module _ (derive_key : Bytes → Bytes → Bytes) (client_build server_build : Bytes) where
  abbrev pub client_id : Identity
  client_id = record { derive_key = derive_key; protocol_identity = client_build }

  abbrev pub server_id : Identity
  server_id = record { derive_key = derive_key; protocol_identity = server_build }

  -- The client expects the intents `ci` and `si`, the server `ci'` and `si'`.
  abbrev pub dialogue : (ci si ci' si' : Bytes) → Outcome Error (Unit {0}) × Wire
  dialogue ci si ci' si' =
      handshake_as_client client_id (client_end (handshake_as_server server_id server_end ci' si'))
        ci si start

  -- If the key derivation tells any two inputs apart, a handshake succeeds on the client's side
  -- exactly when both sides expect the same two intents and were built with the same protocol
  -- identity.
  pub dialogue-ok :
      (ci si ci' si' : Bytes)
      → ((x y a b : Bytes) → derive_key x a ≡ derive_key y b → (x ≡ y) × (a ≡ b))
      → ((dialogue ci si ci' si').0 ≡ ok tt)
        ↔ ((ci ≡ ci') × (si ≡ si') × (client_build ≡ server_build))
  unfolding handshake_as_client handshake_as_server
  dialogue-ok ci si ci' si' apart = (
    λ h. ground (
      arith,
      bytes_eq_iff (derive_key ci' server_build) (derive_key ci client_build),
      bytes_eq_iff ci ci',
      bytes_eq_iff si si',
      apart ci' ci server_build client_build,
      bytes_eq_iff (derive_key si client_build) (derive_key si' server_build),
      bytes_eq_iff si' si,
      apart si si' client_build server_build,
    ),
    λ (c, s, b). ground (
      arith,
      bytes_eq_iff (derive_key ci' server_build) (derive_key ci client_build),
      bytes_eq_iff ci ci',
      bytes_eq_iff (derive_key si client_build) (derive_key si' server_build),
      bytes_eq_iff si' si,
    ),
  )

-- A peer that sends back what it gets.
abbrev pub echo_pop : List Handshake → Act (List Handshake) ReceiveError Handshake
echo_pop [] q = (err ReceiveError.end, q)
echo_pop (m ∷ ms) q = (ok m, ms)

abbrev pub echo : Ipc (List Handshake) Handshake Handshake
echo = record {
  send_with_fds = λ m q. (ok tt, q ++ m ∷ []);
  receive_with_fds = λ q. echo_pop q q;
  shutdown = λ how q. (ok tt, q);
}

-- If the key derivation tells any two contexts apart, a client whose own message is sent back to it
-- refuses it as of the wrong version, unless the two intents are the same.
pub handshake_as_client-echo :
    (id : Identity) (client_intent server_intent : Bytes)
    → ((x y a b : Bytes) → id.derive_key x a ≡ id.derive_key y b → x ≡ y)
    → client_intent ≢ server_intent
    → (handshake_as_client id echo client_intent server_intent []).0 ≡ err wrong_version
unfolding handshake_as_client
handshake_as_client-echo id ci si apart differ = ground (
  arith,
  bytes_eq_iff (id.derive_key si id.protocol_identity) (id.derive_key ci id.protocol_identity),
  apart si ci id.protocol_identity id.protocol_identity,
)
