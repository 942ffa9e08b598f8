-- ===== src/Services/Pty/Examples.antt =====
-- A connection that brings one terminal and one user.
use tere.Prelude.{ℕ, ◌≡◌, refl, ◌⊎◌, inr, some, [], ◌∷◌, ok, err, arith, map, panic, explicit, true}
use tere.Prelude.Int.{pos}
use tere.Std.Fd.{RawFd}
use tere.Ipc.{IoError}
use tere.Ipc
use tere.Ipc.Handshake
use tere.Ipc.Handshake.{Identity, handshake_as_server}
use tere.Ipc.SeqPacket.Sockets.{sock_seqpacket}
use tere.Proto.Pty
use tere.Proto.Pty.{Init, Request, new_client}
use tere.Services.Pty.{receive, Conn, State, serve}
use tere.Ipc.SeqPacket.SmallKernel.{small_receiver}
use tere.Services.Pty.Line.{Misread}
use tere.Services.Pty.UnitTests.{init_then_eof, pty_io, tests_panic}
use tere.Services.Pty.Clients.{thread_for, stops, more, serve-spawns}

abbrev build : Identity
build = record { derive_key = λ context material. context; protocol_identity = [] }

-- The state counts the messages after the handshake: one with a terminal, one with a user, an end.
abbrev conn : Conn ℕ
conn = record {
  handshakes = record {
    send_with_fds = λ m s. (ok tt, s);
    receive_with_fds = λ s. (ok (Handshake.new build Pty.client_intent), s);
    shutdown = λ how s. (ok tt, s);
  };
  receive_init = λ s. (ok (record { dummy = 0; pty_master = pos 7 }), 1);
  receive_request = λ s. elim s [
    | Prim.Native.Nat.ℕ.zero ↦ (err Ipc.ReceiveError.end, 0)
    | Prim.Native.Nat.ℕ.suc n ↦ (ok (new_client 0 (pos 8)), n)
  ];
}

abbrev so_type : RawFd → IoError ⊎ ℕ
so_type fd = inr sock_seqpacket

abbrev initial : State ℕ
initial = record {
  conn = 0;
  table = record { open_fds = pos 7 ∷ pos 8 ∷ []; bad_closes = 0 };
  spawned = [];
}

serve-spawns_example :
    ((serve so_type conn build 3 initial).0 ≡ some (err (receive Ipc.ReceiveError.end)))
    × ((serve so_type conn build 3 initial).1.spawned
        ≡ map (thread_for (pos 7)) (new_client 0 (pos 8) ∷ []))
unfolding handshake_as_server
serve-spawns_example =
    serve-spawns so_type conn build 3 initial (record { dummy = 0; pty_master = pos 7 })
      (new_client 0 (pos 8) ∷ []) Ipc.ReceiveError.end refl refl refl (more refl (stops refl))
      (refl, tt) (omega arith)

abbrev misread : Misread
misread = record {
  receiver = small_receiver;
  caller = small_receiver;
  as_handshake = λ p. err Ipc.ReceiveError.too_large;
  as_init = λ p. err Ipc.ReceiveError.too_large;
  as_request = λ p. err Ipc.ReceiveError.too_large;
}

tests_panic_example :
    (init_then_eof (λ e. true) misread (λ fd. fd) so_type build initial.table (pos 7)
      ≡ panic explicit)
    × (pty_io (λ e. true) misread (λ fd. fd) so_type build initial.table (pos 7) (pos 8) (ok tt)
        ≡ panic explicit)
tests_panic_example =
    tests_panic (λ e. true) misread (λ fd. fd) so_type build initial.table (pos 7) (pos 8) refl
