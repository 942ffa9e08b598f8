-- ===== src/Programs/DebugClient.antt =====
-- server/src/bin/tere-debug-client-sessions.rs: a client that asks the sessions service for a
-- shell, types a command and then an end of file for each output that it gets.
pub mod Stages
pub mod Transcript
pub mod Shell
mod Examples
use tere.Prelude.{
  ℕ, zero, suc, ◌⊎◌, Option, none, some, List, [], ◌∷◌, ◌++◌, codes, Outcome, ok, err, panic, Act,
  pure, ◌>>=◌, ◌>>◌, expect_outcome,
}
use tere.Std.Fd.{RawFd}
use tere.Ipc.{Ipc, IoError, SendError, ReceiveError}
use tere.Ipc.Bincode.{Bytes}
use tere.Ipc.Handshake.{Identity, Handshake, handshake_as_client}
use tere.Ipc.SeqPacket.Sockets.{UnixDatagram, SeqPacket, seq_packet_pair}
use tere.Proto.Machine.{host}
use tere.Proto.Pty
use tere.Proto.Pty.{Output, Input, session_output, keyboard_input}
use tere.Proto.Sessions
use tere.Proto.Sessions.{Request, create_shell_session}

-- The two connections, each the interface `Ipc` at its types of messages, over the state `S` of
-- everything that lies behind them.
pub record Conns (S : Type 0) : Type 0 where
  pub conn : Ipc S Handshake Handshake
  pub send_request : Request → Act S SendError (Unit {0})
  pub client : Ipc S Handshake Handshake
  pub send_input : Input → Act S SendError (Unit {0})
  pub receive_output : Act S ReceiveError Output

-- What lies behind the connections, with the transcript of what was sent without an error and of
-- the output that was printed.
pub record World (S : Type 0) : Type 0 where
  pub behind : S
  pub requests : List Request
  pub inputs : List Input
  pub printed : List Output

abbrev pub date : Input
date = keyboard_input (codes "date\r\n")

-- `b"\x04"`
abbrev pub end_of_file : Input
end_of_file = keyboard_input (4 ∷ [])

abbrev pub shell_request : RawFd → Request
shell_request server_socket = create_shell_session (record {
  fd = server_socket;
  machine = host;
  user = codes "testuser";
  program = none;
  args = none;
  env = none;
})

module _ {S : Type 0} where
  -- A call on a connection, with its `expect`.
  abbrev pub call : {E A : Type 0} → Act S E A → Act (World S) ⊥ A
  call m w = (expect_outcome (m w.behind).0, record w { behind = (m w.behind).1 })

  abbrev pub note : (World S → World S) → Act (World S) ⊥ (Unit {0})
  note f w = (ok tt, f w)

  -- A result that `main` has before it, or makes without a connection.
  abbrev pub given : {E A : Type 0} → Outcome E A → Act (World S) ⊥ A
  given r w = (expect_outcome r, w)

  module _ (c : Conns S) where
    unfoldable pub request_shell : RawFd → Act (World S) ⊥ (Unit {0})
    request_shell server_socket = do
      call (c.send_request (shell_request server_socket))
      note (λ w. record w { requests = w.requests ++ shell_request server_socket ∷ [] })

    unfoldable pub type_input : Input → Act (World S) ⊥ (Unit {0})
    type_input message = do
      call (c.send_input message)
      note (λ w. record w { inputs = w.inputs ++ message ∷ [] })

    unfoldable pub print_output : Act (World S) ⊥ (Unit {0})
    print_output = do
      message ← call c.receive_output
      note (λ w. record w { printed = w.printed ++ message ∷ [] })

    -- The body of the loop.
    unfoldable pub answer_output : Act (World S) ⊥ (Unit {0})
    unfolding print_output type_input
    answer_output = do print_output; type_input end_of_file

    abbrev pub then_again :
        Outcome ⊥ (Unit {0}) × World S
        → (World S → Option (Outcome ⊥ ⊥) × World S)
        → Option (Outcome ⊥ ⊥) × World S
    then_again (ok u, w) again = again w
    then_again (err e, w) again = absurd e
    then_again (panic p, w) again = (some (panic p), w)

    -- `none` means that the fuel ran out.
    unfoldable pub answer_outputs : ℕ → World S → Option (Outcome ⊥ ⊥) × World S
    unfolding answer_output
    answer_outputs zero w = (none, w)
    answer_outputs (suc fuel) w = then_again (answer_output w) (λ w'. answer_outputs fuel w')

    -- What comes before the loop. `connected` is the result of `SeqPacket::connect`, and `fds` that
    -- of `socketpair(2)`.
    unfoldable pub begin :
        Identity
        → Outcome IoError SeqPacket
        → IoError ⊎ (RawFd × RawFd)
        → Act (World S) ⊥ (Unit {0})
    unfolding handshake_as_client request_shell type_input seq_packet_pair
    begin id connected fds = do
      given connected
      call (handshake_as_client id c.conn Sessions.client_intent Sessions.server_intent)
      sockets ← given (seq_packet_pair fds)
      request_shell sockets.1.raw
      call (handshake_as_client id c.client Pty.user_client_intent Pty.user_server_intent)
      type_input date

    unfoldable pub main :
        Identity
        → Outcome IoError SeqPacket
        → IoError ⊎ (RawFd × RawFd)
        → ℕ
        → World S
        → Option (Outcome ⊥ ⊥) × World S
    unfolding begin answer_outputs
    main id connected fds fuel w =
        then_again (begin id connected fds w) (λ w'. answer_outputs fuel w')
