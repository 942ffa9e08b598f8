-- ===== src/Services/Sessions/Creation.antt =====
-- What one request of server/src/services/sessions/mod.rs does to the map of sessions.
use tere.Prelude.{
  ◌≡◌, refl, sym, ap, subst, ◌∙◌, ◌⊎◌, inl, inr, false, Option, none, some, List, bytes_eq,
  bytes_eq_iff, if◌then◌else◌, Outcome, ok, err, panic, Panic, expect, Act, continue,
  map_err_outcome, expect_outcome, arith,
}
use tere.Proto.Pty
use tere.DbusShell
use tere.Std.Fd.{RawFd}
use tere.Ipc.{Ipc}
use tere.Ipc.Bincode.{Bytes}
use tere.Ipc.Handshake
use tere.Ipc.Handshake.{Identity, Handshake, check, handshake_as_client}
use tere.Ipc.Handshake.Dialogue.{check-state}
use tere.Proto.Sessions.{create_shell_session, CreateShellSession}
use tere.Services.Sessions.{
  ConnError, World, Server, outside_ipc, replace, make_ready, shell_spec, create_session, hand_over,
  with_id, handle_request, pty_service_location,
}
use tere.Services.Sessions.Store.{
  SessionId, creating, ready, Sessions, lookup, set, allocate, lookup-set, allocate-fresh,
}

module _ {S E A B : Type 0} (P : S → Type 0) where
  -- A chain of calls keeps what each of them keeps.
  pub continue-keeps :
      (r : Outcome E A) (f : A → Act S E B) (s : S)
      → P s
      → ((a : A) (t : S) → P t → P (f a t).1)
      → P (continue r f s).1
  continue-keeps (ok a) f s h k = k a s h
  continue-keeps (err e) f s h k = h
  continue-keeps (panic p) f s h k = h

module _ {S E F A B : Type 0} (P : Outcome F B × S → Type 0) where
  -- An `expect` on a result, and the code that follows it.
  expect_elim :
      (r : Outcome E A) (f : A → Act S F B) (s : S)
      → ((a : A) → r ≡ ok a → P (f a s))
      → ((p : Panic) → P (panic p, s))
      → P (continue (expect_outcome r) f s)
  expect_elim (ok a) f s h k = h a refl
  expect_elim (err e) f s h k = k expect
  expect_elim (panic p) f s h k = k p

last_expect :
    {E F : Type 0} (r : Outcome E (Unit {0})) (o : Outcome F (Unit {0}))
    → o ≡ expect_outcome r
    → (o ≡ ok tt) ⊎ ((p : Panic) × (o ≡ panic p))
last_expect (ok u) o h = inl h
last_expect (err e) o h = inr (expect, h)
last_expect (panic p) o h = inr (p, h)

module _ {W : Type 0} where
  pub handshake-sessions :
      (identity : Identity) (conn : Ipc W Handshake Handshake) (ci si : Bytes) (s : Server W)
      → (handshake_as_client identity (outside_ipc conn) ci si s).1.sessions ≡ s.sessions
  unfolding handshake_as_client
  handshake-sessions identity conn ci si s =
      let same : Server W → Type 0 = λ t. t.sessions ≡ s.sessions in
      continue-keeps same
        (map_err_outcome Handshake.send (conn.send_with_fds (Handshake.new identity ci) s.world).0)
        _ (record s { world = (conn.send_with_fds (Handshake.new identity ci) s.world).1 }) refl
        (λ u t h.
          continue-keeps same (map_err_outcome Handshake.receive (conn.receive_with_fds t.world).0)
            _ (record t { world = (conn.receive_with_fds t.world).1 }) h
            (λ msg v g. subst same (sym (check-state identity si msg v)) g))

  pub make_ready-creating :
      (id : SessionId) (p c : RawFd) (s : Server W)
      → lookup id s.sessions ≡ some creating
      → make_ready id p c s ≡ (ok tt, record s { sessions = set id (ready p c) s.sessions })
  unfolding make_ready
  make_ready-creating id p c s h = rw (h, replace)

  -- How the creation of a session can end: with a panic that leaves the sessions `m` as they were,
  -- or with the session `Ready` with the terminal that was created; then the last message to the pty
  -- service may still have failed, which is a panic.
  pub data Result (id : SessionId) (m : Sessions) (created : Outcome DbusShell.Error RawFd)
      (r : Outcome ConnError (Unit {0}) × Server W) : Type 0 where
    given_up : (p : Panic) → r.0 ≡ panic p → r.1.sessions ≡ m → Result id m created r
    made :
        (pty_master pty_conn : RawFd)
        → created ≡ ok pty_master
        → (r.0 ≡ ok tt) ⊎ ((p : Panic) × (r.0 ≡ panic p))
        → r.1.sessions ≡ set id (ready pty_master pty_conn) m
        → Result id m created r

  module _ (w : World W) (identity : Identity) (id : SessionId) where
    hand_over-Result :
        (create : CreateShellSession) (created : Outcome DbusShell.Error RawFd) (m : Sessions)
        (pty c : RawFd) (s : Server W)
        → created ≡ ok pty
        → s.sessions ≡ m
        → lookup id m ≡ some creating
        → Result id m created (hand_over w identity id create pty c s)
    unfolding hand_over
    hand_over-Result create created m pty c s p e here =
        let R : Outcome ConnError (Unit {0}) × Server W → Type 0 = Result id m created in
        let conn = outside_ipc (w.pty_handshakes c) in
        let shook = handshake_as_client identity conn Pty.client_intent Pty.server_intent s in
        let same : shook.1.sessions ≡ m =
          handshake-sessions identity (w.pty_handshakes c) Pty.client_intent Pty.server_intent s
          ∙ e in
        let message : Pty.Init = record { dummy = 0; pty_master = pty } in
        let sent = w.send_init c message shook.1.world in
        let s' : Server W = record shook.1 { world = sent.1 } in
        expect_elim R shook.0 _ shook.1
          (λ u a.
            expect_elim R sent.0 _ s'
              (λ v b. rw (make_ready-creating id pty c s' (ap (lookup id) same ∙ here)) (
                made pty c p
                  (last_expect (w.send_request c (Pty.new_client 0 create.fd) sent.1).0 _ refl)
                  (ap (set id (ready pty c)) same)))
              (λ x. given_up x refl same))
          (λ x. given_up x refl same)

    pub create_session-Result :
        (create : CreateShellSession) (s : Server W)
        → lookup id s.sessions ≡ some creating
        → Result id s.sessions
            (w.create_shell (shell_spec create) s.world).0
            (create_session w identity id create s)
    unfolding create_session
    create_session-Result create s here =
        let created = (w.create_shell (shell_spec create) s.world).0 in
        let R : Outcome ConnError (Unit {0}) × Server W → Type 0 = Result id s.sessions created in
        let s1 : Server W = record s { world = (w.create_shell (shell_spec create) s.world).1 } in
        let s2 : Server W = record s { world = (w.connect pty_service_location s1.world).1 } in
        expect_elim R created _ s1
          (λ pty p.
            expect_elim R (w.connect pty_service_location s1.world).0 _ s2
              (λ c q. hand_over-Result create created s.sessions pty c s2 p refl here)
              (λ e. given_up e refl refl))
          (λ e. given_up e refl refl)

-- What a request that took the id `id` has made of the sessions `before`, where `created` is the
-- answer of the D-Bus call.
pub record Took (id : SessionId) (before after : Sessions) (created : Outcome DbusShell.Error RawFd)
    (result : Outcome ConnError (Unit {0})) : Type 0 where
  pub was_free : lookup id before ≡ none
  pub others : (j : SessionId) → bytes_eq id j ≡ false → lookup j after ≡ lookup j before
  pub own :
      ((lookup id after ≡ some creating) × ((p : Panic) × (result ≡ panic p)))
      ⊎ ((pty_master : RawFd) × (pty_conn : RawFd) × (lookup id after
            ≡ some (ready pty_master pty_conn))
          × (created ≡ ok pty_master)
          × ((result ≡ ok tt) ⊎ ((p : Panic) × (result ≡ panic p))))

module _ {W : Type 0} where
  Result-Took :
      (id : SessionId) (before m : Sessions) (created : Outcome DbusShell.Error RawFd)
      (r : Outcome ConnError (Unit {0}) × Server W)
      → lookup id before ≡ none
      → ((j : SessionId) → lookup j m ≡ (if bytes_eq id j then some creating else lookup j before))
      → Result id m created r
      → Took id before r.1.sessions created r.0
  Result-Took id before m created r free fresh (given_up p q e) = record {
    was_free = free;
    others = λ j d. rw (e, fresh j, d) refl;
    own = inl (ground (arith, e, fresh id, bytes_eq_iff id id), (p, q));
  }
  Result-Took id before m created r free fresh (made pty c p q e) = record {
    was_free = free;
    others = λ j d. rw (e, lookup-set id j (ready pty c) m, d, fresh j, d) refl;
    own = inr (
      pty,
      c,
      ground (arith, e, lookup-set id id (ready pty c) m, fresh id, bytes_eq_iff id id),
      p,
      q,
    );
  }

  -- A request for a shell session that ends has taken one id that was free, and has left the
  -- session of every other id as it was. Either the thread panics and the session of its id stays
  -- `Creating`; or that session is `Ready` with the terminal that the D-Bus call returned, and the
  -- request has succeeded or has panicked on the last message to the pty service.
  pub handle_request-Took :
      (w : World W) (identity : Identity) (draws : List SessionId) (create : CreateShellSession)
      (s : Server W) (r : Outcome ConnError (Unit {0}) × Server W)
      → handle_request w identity draws (create_shell_session create) s ≡ some r
      → (id : SessionId) × Took id s.sessions r.1.sessions
          (w.create_shell (shell_spec create) s.world).0
          r.0
  unfolding handle_request
  handle_request-Took w identity draws create s r h = at (allocate draws s.sessions) refl h
    where
      at :
          (o : Option (SessionId × Sessions))
          → allocate draws s.sessions ≡ o
          → with_id w identity o create s ≡ some r
          → (id : SessionId) × Took id s.sessions r.1.sessions
              (w.create_shell (shell_spec create) s.world).0
              r.0
      at none q g = cc
      at (some (id, m)) q g =
          let (free, fresh) = allocate-fresh draws s.sessions m id q in
          let t : Server W = record s { sessions = m } in
          let created = (w.create_shell (shell_spec create) s.world).0 in
          let new : lookup id m ≡ some creating = ground (arith, fresh id, bytes_eq_iff id id) in
          let same : create_session w identity id create t ≡ r = cc in
          (
            id,
            subst
                (λ (x : Outcome ConnError (Unit {0}) × Server W).
                  Took id s.sessions x.1.sessions created x.0)
                same
                (Result-Took id s.sessions m created _ free fresh
                  (create_session-Result w identity id create t new)),
          )
