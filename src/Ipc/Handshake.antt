-- ===== src/Ipc/Handshake.antt =====
-- server/src/ipc/handshake.rs: both sides say which protocol they speak and prove that they were
-- built from the same sources.
pub mod Dialogue
pub mod Wire
pub mod UnitTests
pub mod Framed
pub mod Sockets
mod Examples
use tere.Prelude.{
  ℕ, ◌≡◌, refl, Bool, true, false, not, List, [], ◌∷◌, bytes_eq, if◌then◌else◌, Outcome, ok, err,
  Act, pure, throw, map_err, ◌>>=◌, ◌>>◌,
}
use tere.Ipc.{Ipc, SendError, ReceiveError}
use tere.Ipc.Bincode.{Bytes, text, hash}
use tere.Ipc.Message.{Message, Fields, plain}

-- `blake3::derive_key`, with the context first, and the value of TERE_PROTOCOL_IDENTITY that
-- server/build.rs put into the program.
pub record Identity : Type 0 where
  pub derive_key : Bytes → Bytes → Bytes
  pub protocol_identity : Bytes

unfoldable pub identify : Identity → Bytes → Bytes
identify id context = id.derive_key context id.protocol_identity

pub record Handshake : Type 0 where
  pub intent : Bytes
  pub build_id : Bytes

-- `impl ipc::Message for Handshake`, with the defaults of the trait.
abbrev pub message : Message
message = record { max_size = 8192; max_fds = 0; slots = plain text ∷ plain hash ∷ [] }

abbrev pub message_fields : Handshake → Fields message.slots
message_fields m = (m.intent, (m.build_id, tt))

abbrev pub of_fields : Fields message.slots → Handshake
of_fields (intent, (build_id, u)) = record { intent = intent; build_id = build_id }

unfoldable pub new : Identity → Bytes → Handshake
unfolding identify
new id intent = record { intent = intent; build_id = identify id intent }

pub data Error : Type 0 where
  send : SendError → Error
  receive : ReceiveError → Error
  wrong_version wrong_service : Error

module _ {S : Type 0} (id : Identity) where
  -- The two tests of the peer's message.
  abbrev pub check : Bytes → Handshake → Act S Error (Unit {0})
  check intent msg =
      if not (bytes_eq (identify id intent) msg.build_id)
      then throw wrong_version
      else if not (bytes_eq msg.intent intent)
      then throw wrong_service
      else pure tt

  module _ (conn : Ipc S Handshake Handshake) (client_intent server_intent : Bytes) where
    unfoldable pub handshake_as_client : Act S Error (Unit {0})
    unfolding new
    handshake_as_client = do
      map_err send (conn.send_with_fds (new id client_intent))
      msg ← map_err receive conn.receive_with_fds
      check server_intent msg

    unfoldable pub handshake_as_server : Act S Error (Unit {0})
    unfolding new
    handshake_as_server = do
      msg ← map_err receive conn.receive_with_fds
      check client_intent msg
      map_err send (conn.send_with_fds (new id server_intent))
