-- ===== src/Services/Pty/Clients.antt =====
-- Which users the loop of server/src/services/pty/mod.rs serves, and how it ends.
use tere.Prelude.{
  ℕ, zero, suc, ◌≡◌, ◌<◌, refl, sym, ap, ◌∙◌, ◌⊎◌, inr, some, List, [], ◌∷◌, ◌++◌, length, ok, err,
  arith, All, append_assoc, append-nil, map,
}
use tere.Std.Fd.{RawFd}
use tere.Ipc.{IoError, ReceiveError}
use tere.Ipc.Handshake.{Identity, handshake_as_server}
use tere.Ipc.SeqPacket.Sockets.{sock_seqpacket}
use tere.Proto.Pty
use tere.Proto.Pty.{Init, Request, new_client}
use tere.Services.Pty.{receive, Conn, Spawned, State, serve_request, serve_loop, serve}

abbrev pub client_fd : Request → RawFd
client_fd (new_client dummy fd) = fd

abbrev pub thread_for : RawFd → Request → Spawned
thread_for pty q = record { pty = pty; client = record { socket = record { raw = client_fd q } } }

module _ {S : Type 0} (so_type : RawFd → IoError ⊎ ℕ) (conn : Conn S) where
  -- From the connection's state `s` come the requests `qs`, and then the error `e`.
  pub data Yields : S → List Request → ReceiveError → Type 0 where
    stops : {s : S} {e : ReceiveError} → (conn.receive_request s).0 ≡ err e → Yields s [] e
    more :
        {s : S} {q : Request} {qs : List Request} {e : ReceiveError}
        → (conn.receive_request s).0 ≡ ok q
        → Yields (conn.receive_request s).1 qs e
        → Yields s (q ∷ qs) e

  abbrev pub IsSeqPacket : Request → Type 0
  IsSeqPacket q = so_type (client_fd q) ≡ inr sock_seqpacket

  serve_request-spawns :
      (pty : RawFd) (q : Request) (s : State S)
      → IsSeqPacket q
      → serve_request so_type pty q s
        ≡ (ok tt, record s { spawned = s.spawned ++ thread_for pty q ∷ [] })
  unfolding serve_request
  serve_request-spawns pty (new_client dummy fd) s h = rw h

  serve_loop-spawns :
      (fuel : ℕ) (pty : RawFd) (s : State S) (qs : List Request) (e : ReceiveError)
      → Yields s.conn qs e
      → All IsSeqPacket qs
      → length qs < fuel
      → ((serve_loop so_type conn fuel pty s).0 ≡ some (err (receive e)))
        × ((serve_loop so_type conn fuel pty s).1.spawned ≡ s.spawned ++ map (thread_for pty) qs)
  unfolding serve_loop
  serve_loop-spawns zero pty s qs e y h lt = absurd (omega arith)
  serve_loop-spawns (suc fuel) pty s [] e (stops p) h lt = rw p (refl, sym (append-nil s.spawned))
  serve_loop-spawns (suc fuel) pty s (q ∷ qs) e (more p y) h lt =
      let s' : State S = record s {
        conn = (conn.receive_request s.conn).1;
        spawned = s.spawned ++ thread_for pty q ∷ [];
      } in
      let (ends, threads) = serve_loop-spawns fuel pty s' qs e y h.1 (omega arith) in
      rw (p, serve_request-spawns pty q (record s { conn = (conn.receive_request s.conn).1 }) h.0)
        (ends, threads ∙ append_assoc s.spawned (thread_for pty q ∷ []) (map (thread_for pty) qs))

  -- After a handshake that succeeds and a first message with a terminal, the service spawns one
  -- thread for each request that comes, in order, each with that terminal and the request's socket,
  -- until a receive fails; it then returns that error. This supposes that each socket is a
  -- `SOCK_SEQPACKET` one. Fuel for one round more than there are requests is enough.
  pub serve-spawns :
      (id : Identity) (fuel : ℕ) (s : State S) (init : Init) (qs : List Request) (e : ReceiveError)
      → s.spawned ≡ []
      → (handshake_as_server id conn.handshakes Pty.client_intent Pty.server_intent s.conn).0
        ≡ ok tt
      → (conn.receive_init
          (handshake_as_server id conn.handshakes Pty.client_intent Pty.server_intent s.conn).1).0
        ≡ ok init
      → Yields
          (conn.receive_init
            (handshake_as_server id conn.handshakes Pty.client_intent Pty.server_intent s.conn).1).1
          qs
          e
      → All IsSeqPacket qs
      → length qs < fuel
      → ((serve so_type conn id fuel s).0 ≡ some (err (receive e)))
        × ((serve so_type conn id fuel s).1.spawned ≡ map (thread_for init.pty_master) qs)
  unfolding serve
  serve-spawns id fuel s init qs e fresh shaken came y h lt =
      let shook =
        handshake_as_server id conn.handshakes Pty.client_intent Pty.server_intent s.conn in
      let s' : State S = record s { conn = (conn.receive_init shook.1).1 } in
      let (ends, threads) = serve_loop-spawns fuel init.pty_master s' qs e y h lt in
      rw (shaken, came) (ends, threads ∙ ap (λ l. l ++ map (thread_for init.pty_master) qs) fresh)
