-- ===== src/Programs/DebugClient/Shell/Examples.antt =====
-- A debugging client on a machine that gives it the terminal 5, and the id that is drawn second,
-- since the first is taken.
use tere.Prelude.{Outcome, ℕ, ◌+◌, [], ◌∷◌, ◌++◌, codes, ok, err, Act, inr}
use tere.Prelude.Int.{pos, negsuc}
use tere.Std.Fd.{RawFd}
use tere.Ipc.{ReceiveError}
use tere.Ipc.SeqPacket.Sockets.{SeqPacket, sock_seqpacket}
use tere.Proto.Pty.{Output}
use tere.Ipc.SeqPacket.SmallKernel.{small_receiver}
use tere.Services.Sessions.Shell.User.{Machine}
use tere.Services.Sessions.Store.{Sessions, ready}
use tere.Programs.DebugClient.{World}
use tere.Programs.DebugClient.Shell.{Ends}
use tere.Programs.DebugClient.Shell.Starting.{start}

-- Descriptors get the number `n` higher.
abbrev moved : ℕ → RawFd → RawFd
moved n (pos m) = pos (m + n)
moved n (negsuc m) = negsuc m

abbrev machine : Machine
machine = record {
  misread_pty = record {
    receiver = small_receiver;
    caller = small_receiver;
    as_handshake = λ p. err ReceiveError.too_large;
    as_init = λ p. err ReceiveError.too_large;
    as_request = λ p. err ReceiveError.too_large;
  };
  misread = record {
    receiver = small_receiver;
    caller = small_receiver;
    as_handshake = λ p. err ReceiveError.too_large;
    as_request = λ p. err ReceiveError.too_large;
  };
  take = moved 2;
  pass = moved 10;
  so_type = λ fd. inr sock_seqpacket;
  id = record {
    derive_key = λ context material. context ++ material;
    protocol_identity = codes "f00d";
  };
  table = record { open_fds = pos 10 ∷ []; bad_closes = 0 };
  dbus = λ spec. ok (pos 5);
  pty_conn = pos 6;
}

abbrev outputs : Act Ends ReceiveError Output
outputs e = (err ReceiveError.end, e)

abbrev before : Sessions
before = (codes "a", ready (pos 3) (pos 4)) ∷ []

abbrev socket : SeqPacket
socket = record { socket = record { raw = pos 3 } }

abbrev started : Outcome ⊥ (Unit {0}) × World Ends
started = start machine [] (codes "a" ∷ codes "b" ∷ []) [] before outputs (pos 5) socket (pos 4)
