-- ===== src/Programs/DebugClient/Examples.antt =====
-- A service that answers with two outputs, for server/src/bin/tere-debug-client-sessions.rs.
use tere.Prelude.{
  ◌≡◌, refl, ◌⊎◌, inr, some, List, [], ◌∷◌, ◌++◌, codes, Outcome, ok, err, panic, Act, expect,
}
use tere.Prelude.Int.{pos}
use tere.Std.Fd.{RawFd}
use tere.Ipc.{Ipc, IoError, ReceiveError}
use tere.Ipc.Bincode.{Bytes}
use tere.Ipc.Handshake
use tere.Ipc.Handshake.{Identity, Handshake, handshake_as_client, identify}
use tere.Ipc.SeqPacket.Sockets.{SeqPacket, seq_packet_pair, pair}
use tere.Proto.Pty
use tere.Proto.Pty.{Output, session_output}
use tere.Proto.Sessions
use tere.Programs.DebugClient.{
  Conns, World, main, begin, answer_outputs, answer_output, print_output, type_input, request_shell,
  date, end_of_file,
}
use tere.Programs.DebugClient.Stages.{Ran}
use tere.Programs.DebugClient.Transcript.{main-Ran}

abbrev id : Identity
id = record { derive_key = λ context key. context ++ key; protocol_identity = codes "id" }

abbrev greeter : Bytes → Ipc (List Output) Handshake Handshake
greeter intent = record {
  send_with_fds = λ m s. (ok tt, s);
  receive_with_fds = λ s. (ok (Handshake.new id intent), s);
  shutdown = λ how s. (ok tt, s);
}

abbrev next_output : Act (List Output) ReceiveError Output
next_output [] = (err ReceiveError.end, [])
next_output (o ∷ os) = (ok o, os)

abbrev service : Conns (List Output)
service = record {
  conn = greeter Sessions.server_intent;
  send_request = λ m s. (ok tt, s);
  client = greeter Pty.user_server_intent;
  send_input = λ m s. (ok tt, s);
  receive_output = next_output;
}

abbrev connected : Outcome IoError SeqPacket
connected = ok (record { socket = record { raw = pos 3 } })

abbrev sockets : IoError ⊎ (RawFd × RawFd)
sockets = inr (pos 4, pos 5)

abbrev outputs : List Output
outputs = session_output (codes "Thu") ∷ session_output (codes "exit") ∷ []

abbrev fresh : World (List Output)
fresh = record { behind = outputs; requests = []; inputs = []; printed = [] }

main-Ran_example : Ran sockets 5 (main service id connected sockets 5 fresh)
main-Ran_example = main-Ran service id connected sockets 5 outputs

-- The third receive fails, and its `expect` panics.
main_runs : (main service id connected sockets 5 fresh).0 ≡ some (panic expect)
unfolding main begin answer_outputs answer_output print_output type_input request_shell
    handshake_as_client Handshake.new identify seq_packet_pair pair
main_runs = refl

main_types :
    (main service id connected sockets 5 fresh).1.inputs ≡ date ∷ end_of_file ∷ end_of_file ∷ []
unfolding main begin answer_outputs answer_output print_output type_input request_shell
    handshake_as_client Handshake.new identify seq_packet_pair pair
main_types = refl
