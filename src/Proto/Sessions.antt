-- ===== src/Proto/Sessions.antt =====
-- server/src/proto/sessions.rs: the request for a new shell session.
use tere.Prelude.{Option, List, [], ◌∷◌, codes}
use tere.Std.Fd.{RawFd}
use tere.Ipc.Bincode.{Bytes, variant, text, place, optional_text, optional_texts}
use tere.Ipc.Message.{Message, Fields, plain, passed}
use tere.Proto.Machine.{Machine}

abbrev pub client_intent : Bytes
client_intent = codes "tere 2021-07-01T19:41:51 sessions client"

abbrev pub server_intent : Bytes
server_intent = codes "tere 2021-07-01T19:42:20 sessions server"

pub record CreateShellSession : Type 0 where
  pub fd : RawFd
  pub machine : Machine
  pub user : Bytes
  pub program : Option Bytes
  pub args : Option (List Bytes)
  pub env : Option (List Bytes)

pub data Request : Type 0 where
  create_shell_session : CreateShellSession → Request

abbrev pub request : Message
request = record {
  max_size = 8192;
  max_fds = 1;
  slots =
      plain (variant 1)
      ∷ passed
      ∷ plain place
      ∷ plain text
      ∷ plain optional_text
      ∷ plain optional_texts
      ∷ plain optional_texts
      ∷ [];
}

abbrev pub request_fields : Request → Fields request.slots
request_fields (create_shell_session r) =
    (0, (r.fd, (r.machine, (r.user, (r.program, (r.args, (r.env, tt)))))))

abbrev pub request_of : Fields request.slots → Request
request_of (index, (fd, (machine, (user, (program, (args, (env, u))))))) =
    create_shell_session (record {
      fd = fd;
      machine = machine;
      user = user;
      program = program;
      args = args;
      env = env;
    })
