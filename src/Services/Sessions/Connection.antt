-- ===== src/Services/Sessions/Connection.antt =====
-- A whole connection of server/src/services/sessions/mod.rs, from its handshake to its end.
use tere.Prelude.{
  ◌≡◌, ◌≢◌, refl, sym, ap, ◌∙◌, inl, inr, Option, none, some, List, [], ◌∷◌, bytes_eq, bytes_eq_iff,
  subst, map_err_outcome, Outcome, ok, err, panic, arith, Bool-cases,
}
use tere.Ipc.{Ipc, ReceiveError}
use tere.Ipc.Bincode.{Bytes}
use tere.Ipc.Handshake
use tere.Ipc.Handshake.{Identity, Handshake, check, handshake_as_server}
use tere.Ipc.Handshake.Dialogue.{check-state}
use tere.Proto.Sessions
use tere.Proto.Sessions.{Request, create_shell_session}
use tere.Services.Sessions.{
  ConnError, World, Server, outside_ipc, handle_request, next_round, on_request, serve_requests,
  after_handshake, serve_conn,
}
use tere.Services.Sessions.Store.{SessionId, Session, lookup}
use tere.Services.Sessions.Creation.{continue-keeps, handle_request-Took}

module _ {W : Type 0} (w : World W) (identity : Identity) (j : SessionId) (v : Session) where
  handle_request_keeps :
      (draws : List SessionId) (q : Request) (s : Server W)
      (r : Outcome ConnError (Unit {0}) × Server W)
      → lookup j s.sessions ≡ some v
      → handle_request w identity draws q s ≡ some r
      → lookup j r.1.sessions ≡ some v
  handle_request_keeps draws (create_shell_session create) s r here h =
      let (id, took) = handle_request-Took w identity draws create s r h in
      elim (Bool-cases (bytes_eq id j)) [
        | inl same ↦ let free = took.was_free in ground (arith, bytes_eq_iff id j)
        | inr other ↦ took.others j other ∙ here
      ]

  on_request_keeps :
      (draws : List SessionId) (q : Outcome ReceiveError Request) (s : Server W)
      (r : Outcome ConnError (Unit {0}) × Server W)
      → lookup j s.sessions ≡ some v
      → on_request w identity draws q s ≡ some r
      → lookup j r.1.sessions ≡ some v
  on_request_keeps draws (ok q) s r here h = handle_request_keeps draws q s r here h
  on_request_keeps draws (err e) s r here h =
      let same : ◌≡◌ {A = Outcome ConnError (Unit {0}) × Server W} (err (ConnError.receive e), s)
          r =
        cc in
      rw (← same) here
  on_request_keeps draws (panic p) s r here h =
      let same : ◌≡◌ {A = Outcome ConnError (Unit {0}) × Server W} (panic p, s) r = cc in
      rw (← same) here

  abbrev pub Kept : Outcome ConnError (Unit {0}) × Server W → Type 0
  Kept r = (lookup j r.1.sessions ≡ some v) × (r.0 ≢ ok tt)

  next_round-Kept :
      (o : Option (Outcome ConnError (Unit {0}) × Server W))
      (k : Server W → Option (Outcome ConnError (Unit {0}) × Server W))
      (r : Outcome ConnError (Unit {0}) × Server W)
      → ((x : Outcome ConnError (Unit {0}) × Server W)
          → o ≡ some x
          → lookup j x.1.sessions ≡ some v)
      → ((s : Server W) → lookup j s.sessions ≡ some v → k s ≡ some r → Kept r)
      → next_round w identity o k ≡ some r
      → Kept r
  next_round-Kept none k r h g e = cc
  next_round-Kept (some (ok u, s)) k r h g e = g s (h (ok u, s) refl) e
  next_round-Kept (some (err x, s)) k r h g e =
      let same : ◌≡◌ {A = Outcome ConnError (Unit {0}) × Server W} (err x, s) r = cc in
      rw (← same) (h (err x, s) refl, λ q. cc)
  next_round-Kept (some (panic p, s)) k r h g e =
      let same : ◌≡◌ {A = Outcome ConnError (Unit {0}) × Server W} (panic p, s) r = cc in
      rw (← same) (h (panic p, s) refl, λ q. cc)

  serve_requests-Kept :
      (rounds : List (List SessionId)) (s : Server W) (r : Outcome ConnError (Unit {0}) × Server W)
      → lookup j s.sessions ≡ some v
      → serve_requests w identity rounds s ≡ some r
      → Kept r
  unfolding serve_requests
  serve_requests-Kept [] s r here h = cc
  serve_requests-Kept (draws ∷ rounds) s r here h =
      let q = w.receive_request s.world in
      next_round-Kept (on_request w identity draws q.0 (record s { world = q.1 }))
        (λ s'. serve_requests w identity rounds s') r
        (λ x e. on_request_keeps draws q.0 (record s { world = q.1 }) x here e)
        (λ s' there e. serve_requests-Kept rounds s' r there e) h

  pub handshake_as_server-sessions :
      (conn : Ipc W Handshake Handshake) (ci si : Bytes) (s : Server W)
      → (handshake_as_server identity (outside_ipc conn) ci si s).1.sessions ≡ s.sessions
  unfolding handshake_as_server
  handshake_as_server-sessions conn ci si s =
      let same : Server W → Type 0 = λ t. t.sessions ≡ s.sessions in
      continue-keeps same (map_err_outcome Handshake.receive (conn.receive_with_fds s.world).0) _
        (record s { world = (conn.receive_with_fds s.world).1 }) refl
        (λ msg t h.
          continue-keeps same (check identity ci msg t).0 _ (check identity ci msg t).1
            (subst same (sym (check-state identity ci msg t)) h) (λ u t' g. g))

  after_handshake-Kept :
      (rounds : List (List SessionId)) (r : Outcome ConnError (Unit {0}) × Server W)
      (q : Outcome Handshake.Error (Unit {0})) (s : Server W)
      → lookup j s.sessions ≡ some v
      → after_handshake w identity rounds (q, s) ≡ some r
      → Kept r
  after_handshake-Kept rounds r (ok u) s here h = serve_requests-Kept rounds s r here h
  after_handshake-Kept rounds r (err e) s here h =
      let same : ◌≡◌ {A = Outcome ConnError (Unit {0}) × Server W} (err (ConnError.handshake e), s)
          r =
        cc in
      rw (← same) (here, λ x. cc)
  after_handshake-Kept rounds r (panic p) s here h =
      let same : ◌≡◌ {A = Outcome ConnError (Unit {0}) × Server W} (panic p, s) r = cc in
      rw (← same) (here, λ x. cc)

  -- A connection that ends, within the rounds and draws that are given, has left the session `v` of
  -- every id `j` that was there at its start as it was, whatever it was asked and whatever the other
  -- processes answered; and its thread has not returned `Ok`.
  pub serve_conn-Kept :
      (rounds : List (List SessionId)) (s : Server W) (r : Outcome ConnError (Unit {0}) × Server W)
      → lookup j s.sessions ≡ some v
      → serve_conn w identity rounds s ≡ some r
      → Kept r
  unfolding serve_conn
  serve_conn-Kept rounds s r here h =
      let shook =
        handshake_as_server identity (outside_ipc w.client) Sessions.client_intent
          Sessions.server_intent s in
      let same : shook.1.sessions ≡ s.sessions =
        handshake_as_server-sessions w.client Sessions.client_intent Sessions.server_intent s in
      after_handshake-Kept rounds r shook.0 shook.1 (ap (lookup j) same ∙ here) h
