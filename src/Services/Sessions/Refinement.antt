-- ===== src/Services/Sessions/Refinement.antt =====
-- A connection of server/src/services/sessions/mod.rs, as `serve_conn` runs it from its handshake
-- to its end, against the machine of Services/Sessions/Threads that stands for its locked sections.
use tere.Prelude.{
  ℕ, ◌≡◌, refl, sym, ap, subst, ◌∙◌, ◌⊎◌, inl, inr, Option, none, some, List, [], ◌∷◌, Outcome, ok,
  err, panic, Panic, arith, bytes_eq_iff,
}
use tere.DbusShell
use tere.Std.Fd.{RawFd}
use tere.Ipc.{ReceiveError}
use tere.Ipc.Handshake
use tere.Ipc.Handshake.{Identity, handshake_as_server}
use tere.Proto.Sessions
use tere.Proto.Sessions.{Request, create_shell_session}
use tere.Services.Sessions.{
  ConnError, World, Server, outside_ipc, shell_spec, with_id, create_session, handle_request,
  next_round, on_request, serve_requests, after_handshake, serve_conn,
}
use tere.Services.Sessions.Store.{
  SessionId, Sessions, creating, ready, lookup, set, allocate, allocate-fresh,
}
use tere.Services.Sessions.Creation.{
  Result, given_up, made, make_ready-creating, create_session-Result,
}
use tere.Services.Sessions.Connection.{handshake_as_server-sessions}
use tere.Services.Sessions.Simulation.{
  Simulates, Simulates-refl, Simulates-trans, Simulates-step, Simulates-fails,
}
use tere.Services.Sessions.Threads.{
  Pc, idle, working, ended, System, update, alone, Step, allocates, enters, after_ready,
}

-- Where a thread stands after a request with that result.
abbrev pub after_request : Outcome ConnError (Unit {0}) → Pc
after_request (ok u) = idle
after_request (err e) = ended
after_request (panic p) = ended

Simulates-after_request :
    (i : ℕ) (sys : System) (m : Sessions) (o : Outcome ConnError (Unit {0}))
    → Simulates i sys m idle
    → (o ≡ ok tt) ⊎ ((p : Panic) × (o ≡ panic p))
    → Simulates i sys m (after_request o)
Simulates-after_request i sys m o b (inl q) = rw q b
Simulates-after_request i sys m o b (inr (p, q)) = rw q (Simulates-fails i sys m idle b)

request-Simulates :
    {W : Type 0} (i : ℕ) (sys : System) (draws : List SessionId) (id : SessionId) (m : Sessions)
    (created : Outcome DbusShell.Error RawFd) (r : Outcome ConnError (Unit {0}) × Server W)
    → sys.pc i ≡ idle
    → allocate draws sys.sessions ≡ some (id, m)
    → lookup id m ≡ some creating
    → Result id m created r
    → Simulates i sys r.1.sessions (after_request r.0)
unfolding Simulates-refl
request-Simulates i sys draws id m created r at found new result =
    let first =
      Simulates-step i sys sys.sessions m idle (working id)
        (Simulates-refl i sys sys.sessions idle refl at) (allocates i draws id m at found) in
    conclude first result
  where
    conclude :
        Simulates i sys m (working id)
        → Result id m created r
        → Simulates i sys r.1.sessions (after_request r.0)
    conclude a (given_up p q e) = rw (e, q) (Simulates-fails i sys m (working id) a)
    conclude a (made pty c p q e) =
        let here : lookup id a.final.sessions ≡ some creating =
          ap (lookup id) a.same_sessions ∙ new in
        let next = set id (ready pty c) a.final.sessions in
        let step : Step a.final (record { sessions = next; pc = update a.final.pc i idle }) =
          subst
            (λ (x : Outcome ConnError (Unit {0}) × Server (Unit {0})).
              Step a.final
                (record { sessions = x.1.sessions; pc = update a.final.pc i (after_ready x.0) }))
            (make_ready-creating id pty c (alone a.final.sessions) here)
            (enters i id pty c a.thread) in
        let b : Simulates i sys r.1.sessions idle =
          subst (λ n. Simulates i sys n idle) (ap (set id (ready pty c)) a.same_sessions ∙ sym e)
            (Simulates-step i sys m next (working id) idle a step) in
        Simulates-after_request i sys r.1.sessions r.0 b q

module _ {W : Type 0} (w : World W) (identity : Identity) (i : ℕ) where
  handle_request-Simulates :
      (sys : System) (draws : List SessionId) (q : Request) (s : Server W)
      (r : Outcome ConnError (Unit {0}) × Server W)
      → sys.sessions ≡ s.sessions
      → sys.pc i ≡ idle
      → handle_request w identity draws q s ≡ some r
      → Simulates i sys r.1.sessions (after_request r.0)
  unfolding handle_request
  handle_request-Simulates sys draws (create_shell_session create) s r e at h =
      go (allocate draws s.sessions) refl h
    where
      go :
          (o : Option (SessionId × Sessions))
          → allocate draws s.sessions ≡ o
          → with_id w identity o create s ≡ some r
          → Simulates i sys r.1.sessions (after_request r.0)
      go none q g = cc
      go (some (id, m)) q g =
          let (free, fresh) = allocate-fresh draws s.sessions m id q in
          let new : lookup id m ≡ some creating = ground (arith, fresh id, bytes_eq_iff id id) in
          let t : Server W = record s { sessions = m } in
          let same : create_session w identity id create t ≡ r = cc in
          let created = (w.create_shell (shell_spec create) s.world).0 in
          request-Simulates i sys draws id m created r at (ap (allocate draws) e ∙ q) new
            (subst (Result id m created) same (create_session-Result w identity id create t new))

  -- How a round of the loop ends: in the next round, or with the connection.
  round-Simulates :
      (sys : System) (draws : List SessionId) (q : Outcome ReceiveError Request) (s : Server W)
      (r : Outcome ConnError (Unit {0}) × Server W)
      → sys.sessions ≡ s.sessions
      → sys.pc i ≡ idle
      → on_request w identity draws q s ≡ some r
      → Simulates i sys r.1.sessions (after_request r.0)
  round-Simulates sys draws (ok q) s r e at h = handle_request-Simulates sys draws q s r e at h
  round-Simulates sys draws (err x) s r e at h =
      let same : ◌≡◌ {A = Outcome ConnError (Unit {0}) × Server W} (err (ConnError.receive x), s)
          r =
        cc in
      rw (← same)
        (Simulates-fails i sys s.sessions idle (Simulates-refl i sys s.sessions idle e at))
  round-Simulates sys draws (panic p) s r e at h =
      let same : ◌≡◌ {A = Outcome ConnError (Unit {0}) × Server W} (panic p, s) r = cc in
      rw (← same)
        (Simulates-fails i sys s.sessions idle (Simulates-refl i sys s.sessions idle e at))

  next_round-Simulates :
      (sys : System) (o : Option (Outcome ConnError (Unit {0}) × Server W))
      (k : Server W → Option (Outcome ConnError (Unit {0}) × Server W))
      (r : Outcome ConnError (Unit {0}) × Server W)
      → ((x : Outcome ConnError (Unit {0}) × Server W)
          → o ≡ some x
          → Simulates i sys x.1.sessions (after_request x.0))
      → ((t : System) (s : Server W)
          → t.sessions ≡ s.sessions
          → t.pc i ≡ idle
          → k s ≡ some r
          → Simulates i t r.1.sessions ended)
      → next_round w identity o k ≡ some r
      → Simulates i sys r.1.sessions ended
  next_round-Simulates sys none k r h g e = cc
  next_round-Simulates sys (some (ok u, s)) k r h g e =
      let a = h (ok u, s) refl in
      Simulates-trans i sys s.sessions r.1.sessions idle ended a
        (g a.final s a.same_sessions a.thread e)
  next_round-Simulates sys (some (err x, s)) k r h g e =
      let same : ◌≡◌ {A = Outcome ConnError (Unit {0}) × Server W} (err x, s) r = cc in
      rw (← same) (h (err x, s) refl)
  next_round-Simulates sys (some (panic p, s)) k r h g e =
      let same : ◌≡◌ {A = Outcome ConnError (Unit {0}) × Server W} (panic p, s) r = cc in
      rw (← same) (h (panic p, s) refl)

  serve_requests-Simulates :
      (rounds : List (List SessionId)) (sys : System) (s : Server W)
      (r : Outcome ConnError (Unit {0}) × Server W)
      → sys.sessions ≡ s.sessions
      → sys.pc i ≡ idle
      → serve_requests w identity rounds s ≡ some r
      → Simulates i sys r.1.sessions ended
  unfolding serve_requests
  serve_requests-Simulates [] sys s r e at h = cc
  serve_requests-Simulates (draws ∷ rounds) sys s r e at h =
      let q = w.receive_request s.world in
      next_round-Simulates sys (on_request w identity draws q.0 (record s { world = q.1 }))
        (λ s'. serve_requests w identity rounds s') r
        (λ x g. round-Simulates sys draws q.0 (record s { world = q.1 }) x e at g)
        (λ t s' e' at' g. serve_requests-Simulates rounds t s' r e' at' g) h

  after_handshake-Simulates :
      (rounds : List (List SessionId)) (sys : System) (q : Outcome Handshake.Error (Unit {0}))
      (s : Server W) (r : Outcome ConnError (Unit {0}) × Server W)
      → sys.sessions ≡ s.sessions
      → sys.pc i ≡ idle
      → after_handshake w identity rounds (q, s) ≡ some r
      → Simulates i sys r.1.sessions ended
  after_handshake-Simulates rounds sys (ok u) s r e at h =
      serve_requests-Simulates rounds sys s r e at h
  after_handshake-Simulates rounds sys (err x) s r e at h =
      let same : ◌≡◌ {A = Outcome ConnError (Unit {0}) × Server W} (err (ConnError.handshake x), s)
          r =
        cc in
      rw (← same)
        (Simulates-fails i sys s.sessions idle (Simulates-refl i sys s.sessions idle e at))
  after_handshake-Simulates rounds sys (panic p) s r e at h =
      let same : ◌≡◌ {A = Outcome ConnError (Unit {0}) × Server W} (panic p, s) r = cc in
      rw (← same)
        (Simulates-fails i sys s.sessions idle (Simulates-refl i sys s.sessions idle e at))

  -- A connection that runs from its handshake to its end, in any world and within the rounds and
  -- draws that are given, does to the sessions what some steps of one thread of the machine do,
  -- with the other threads standing still; and that thread is then at its end.
  pub serve_conn-Simulates :
      (rounds : List (List SessionId)) (sys : System) (s : Server W)
      (r : Outcome ConnError (Unit {0}) × Server W)
      → sys.sessions ≡ s.sessions
      → sys.pc i ≡ idle
      → serve_conn w identity rounds s ≡ some r
      → Simulates i sys r.1.sessions ended
  unfolding serve_conn
  serve_conn-Simulates rounds sys s r e at h =
      let shook =
        handshake_as_server identity (outside_ipc w.client) Sessions.client_intent
          Sessions.server_intent s in
      let same : shook.1.sessions ≡ s.sessions =
        handshake_as_server-sessions w identity [] creating w.client Sessions.client_intent
          Sessions.server_intent s in
      after_handshake-Simulates rounds sys shook.0 shook.1 r (e ∙ sym same) at h
