-- ===== src/Proto/Pty.antt =====
-- server/src/proto/pty.rs and server/src/proto/pty/user.rs: the messages of the pty service, and
-- those between it and the user of a session.
use tere.Prelude.{ℕ, [], ◌∷◌, codes}
use tere.Std.Fd.{RawFd}
use tere.Ipc.Bincode.{Bytes, variant, u8, bytes}
use tere.Ipc.Message.{Message, Fields, plain, passed}

abbrev pub client_intent : Bytes
client_intent = codes "tere 2021-06-11T21:34:03 pty client"

abbrev pub server_intent : Bytes
server_intent = codes "tere 2021-06-11T21:35:37 pty server"

pub record Init : Type 0 where
  pub dummy : ℕ
  pub pty_master : RawFd

abbrev pub init : Message
init = record { max_size = 1; max_fds = 1; slots = plain u8 ∷ passed ∷ [] }

pub data Request : Type 0 where
  new_client : (dummy : ℕ) → (fd : RawFd) → Request

abbrev pub request : Message
request = record {
  max_size = 8192;
  max_fds = 1;
  slots = plain (variant 1) ∷ plain u8 ∷ passed ∷ [];
}

abbrev pub init_fields : Init → Fields init.slots
init_fields i = (i.dummy, (i.pty_master, tt))

abbrev pub request_fields : Request → Fields request.slots
request_fields (new_client dummy fd) = (0, (dummy, (fd, tt)))

abbrev pub init_of : Fields init.slots → Init
init_of (dummy, (pty_master, u)) = record { dummy = dummy; pty_master = pty_master }

abbrev pub request_of : Fields request.slots → Request
request_of (index, (dummy, (fd, u))) = new_client dummy fd

abbrev pub user_client_intent : Bytes
user_client_intent = codes "tere 2021-06-22T12:12:30 pty_user client"

abbrev pub user_server_intent : Bytes
user_server_intent = codes "tere 2021-06-22T12:12:51 pty_user server"

pub data Output : Type 0 where
  session_output : Bytes → Output

pub data Input : Type 0 where
  keyboard_input : Bytes → Input

abbrev pub output : Message
output = record { max_size = 8192; max_fds = 0; slots = plain (variant 1) ∷ plain bytes ∷ [] }

abbrev pub input : Message
input = record { max_size = 8192; max_fds = 0; slots = plain (variant 1) ∷ plain bytes ∷ [] }

abbrev pub output_fields : Output → Fields output.slots
output_fields (session_output b) = (0, (b, tt))

abbrev pub input_fields : Input → Fields input.slots
input_fields (keyboard_input b) = (0, (b, tt))
