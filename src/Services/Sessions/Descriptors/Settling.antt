-- ===== src/Services/Sessions/Descriptors/Settling.antt =====
-- A request of server/src/services/sessions/mod.rs leaks no descriptor and closes none twice.
use tere.Prelude.{
  ℕ, ◌≡◌, refl, ap, ◌∙◌, some, List, [], ◌∷◌, Outcome, ok, err, panic, Act, expect_outcome,
  continue, ◌⊎◌, inl, inr, Panic, expect, arith,
}
use tere.Std.Fd.{
  RawFd, Table, close_all, opened, opened-Owns, Owns, close-Owns, close_all-Owns_all, Owns-perm,
}
use tere.Ipc.Handshake.{Identity, handshake_as_client}
use tere.Proto.Pty
use tere.Proto.Sessions.{CreateShellSession}
use tere.Services.Sessions.{
  ConnError, World, Server, outside_ipc, shell_spec, create_session, pty_service_location,
}
use tere.Services.Sessions.Creation.{handshake-sessions, make_ready-creating}
use tere.Services.Sessions.Store.{SessionId, Sessions, creating, ready, lookup, set}
use tere.Services.Sessions.Descriptors.{
  Process, drop_on_panic, open_or_drop, dropping, hand_over_owned, create_session_owned, erased,
  create_session_owned-erased,
}

module _ {W : Type 0} (id : SessionId) (m : Sessions) (before : List RawFd) (bad : ℕ) where
  -- How a request can end: with a panic, after which the sessions are `m` and the descriptors those
  -- from before; or with the session `Ready`, which owns the terminal and the connection. Only the
  -- last message can still have failed then, which is a panic.
  pub data Settled (r : Outcome ConnError (Unit {0}) × Process W) : Type 0 where
    given_up :
        (p : Panic)
        → r.0 ≡ panic p
        → r.1.server.sessions ≡ m
        → Owns [] before bad r.1.table
        → Settled r
    kept :
        (pty_master pty_conn : RawFd)
        → (r.0 ≡ ok tt) ⊎ ((p : Panic) × (r.0 ≡ panic p))
        → r.1.server.sessions ≡ set id (ready pty_master pty_conn) m
        → Owns (pty_master ∷ pty_conn ∷ []) before bad r.1.table
        → Settled r

  held-Settled :
      {E A : Type 0} (fds : List RawFd) (r : Outcome E A) (x : Server W) (t : Table)
      (k : A → Act (Process W) ConnError (Unit {0}))
      → Owns fds before bad t
      → x.sessions ≡ m
      → ((a : A) → Settled (k a (record { server = x; table = t })))
      → Settled (
          continue
            (expect_outcome r)
            k
            (record { server = x; table = drop_on_panic (expect_outcome r) fds t }))
  held-Settled fds (ok a) x t k o e f = f a
  held-Settled fds (err n) x t k o e f = given_up expect refl e (close_all-Owns_all fds t o)
  held-Settled fds (panic p) x t k o e f = given_up p refl e (close_all-Owns_all fds t o)

  opened-Settled :
      {E : Type 0} (fds : List RawFd) (r : Outcome E RawFd) (x : Server W) (t : Table)
      (k : RawFd → Act (Process W) ConnError (Unit {0}))
      → Owns fds before bad t
      → x.sessions ≡ m
      → ((fd : RawFd) → Settled (k fd (record { server = x; table = opened fd t })))
      → Settled (
          continue
            (expect_outcome r)
            k
            (record { server = x; table = open_or_drop (expect_outcome r) fds t }))
  opened-Settled fds (ok fd) x t k o e f = f fd
  opened-Settled fds (err n) x t k o e f = given_up expect refl e (close_all-Owns_all fds t o)
  opened-Settled fds (panic p) x t k o e f = given_up p refl e (close_all-Owns_all fds t o)

  -- The last message, which owns the user's socket.
  last-Settled :
      {E : Type 0} (user pty c : RawFd) (r : Outcome E (Unit {0})) (x : Server W) (t : Table)
      → Owns (user ∷ pty ∷ c ∷ []) before bad t
      → x.sessions ≡ set id (ready pty c) m
      → Settled (
          continue
            (expect_outcome r)
            (λ u. dropping user)
            (record { server = x; table = drop_on_panic (expect_outcome r) (user ∷ []) t }))
  unfolding close_all
  last-Settled user pty c (ok u) x t o e =
      kept pty c (inl refl) e (close-Owns user (pty ∷ c ∷ []) t o)
  last-Settled user pty c (err n) x t o e =
      kept pty c (inr (expect, refl)) e (close-Owns user (pty ∷ c ∷ []) t o)
  last-Settled user pty c (panic p) x t o e =
      kept pty c (inr (p, refl)) e (close-Owns user (pty ∷ c ∷ []) t o)

  module _ (w : World W) (identity : Identity) (create : CreateShellSession) where
    hand_over-Settled :
        (pty c : RawFd) (s : Process W)
        → s.server.sessions ≡ m
        → lookup id m ≡ some creating
        → Owns (c ∷ pty ∷ create.fd ∷ []) before bad s.table
        → Settled (hand_over_owned w identity id create pty c s)
    unfolding hand_over_owned
    hand_over-Settled pty c s e here o =
        let user = create.fd in
        let conn = outside_ipc (w.pty_handshakes c) in
        let shook =
          handshake_as_client identity conn Pty.client_intent Pty.server_intent s.server in
        let same : shook.1.sessions ≡ m =
          handshake-sessions identity (w.pty_handshakes c) Pty.client_intent Pty.server_intent
            s.server
          ∙ e in
        let sent = w.send_init c (record { dummy = 0; pty_master = pty }) shook.1.world in
        let s' : Server W = record shook.1 { world = sent.1 } in
        let o' : Owns (pty ∷ c ∷ user ∷ []) before bad s.table =
          Owns-perm (c ∷ pty ∷ user ∷ []) (pty ∷ c ∷ user ∷ []) s.table (λ x. ground arith) o in
        let o'' : Owns (user ∷ pty ∷ c ∷ []) before bad s.table =
          Owns-perm (c ∷ pty ∷ user ∷ []) (user ∷ pty ∷ c ∷ []) s.table (λ x. ground arith) o in
        held-Settled (c ∷ pty ∷ user ∷ []) shook.0 shook.1 s.table _ o same (λ u.
          held-Settled (pty ∷ c ∷ user ∷ []) sent.0 s' s.table _ o' same (λ v.
            rw (make_ready-creating id pty c s' (ap (lookup id) same ∙ here)) (
              last-Settled user pty c (w.send_request c (Pty.new_client 0 user) sent.1).0
                (record s' {
                  world = (w.send_request c (Pty.new_client 0 user) sent.1).1;
                  sessions = set id (ready pty c) s'.sessions;
                })
                s.table o'' (ap (set id (ready pty c)) same))))

    create_session_owned-Settled :
        (s : Process W)
        → s.server.sessions ≡ m
        → lookup id m ≡ some creating
        → Owns (create.fd ∷ []) before bad s.table
        → Settled (create_session_owned w identity id create s)
    unfolding create_session_owned
    create_session_owned-Settled s e here o =
        let created = w.create_shell (shell_spec create) s.server.world in
        let connected = w.connect pty_service_location created.1 in
        opened-Settled (create.fd ∷ []) created.0 (record s.server { world = created.1 }) s.table _
          o e
          (λ pty.
            let o1 = opened-Owns before bad pty (create.fd ∷ []) s.table o in
            opened-Settled (pty ∷ create.fd ∷ []) connected.0
              (record s.server { world = connected.1 }) (opened pty s.table) _ o1 e
              (λ c.
                hand_over-Settled pty c
                  (record {
                    server = record s.server { world = connected.1 };
                    table = opened c (opened pty s.table);
                  })
                  e here (opened-Owns before bad c (pty ∷ create.fd ∷ []) (opened pty s.table) o1)))

    -- From the moment at which a request's session has an id and is `Creating`: the user's socket, the
    -- terminal that D-Bus hands over and the connection to the pty service are not leaked, and none is
    -- closed twice. Either the session is `Ready`, and owns the terminal and the connection, and the
    -- user's socket is closed; or the thread has panicked, the sessions are as they were, and all
    -- that was opened is closed. This holds whatever the other processes answer, and the
    -- descriptors aside the request is the one of Services/Sessions.
    pub create_session-Settled :
        (s : Process W)
        → s.server.sessions ≡ m
        → lookup id m ≡ some creating
        → Owns (create.fd ∷ []) before bad s.table
        → (erased (create_session_owned w identity id create s)
            ≡ create_session w identity id create s.server)
          × Settled (create_session_owned w identity id create s)
    create_session-Settled s e here o = (
      create_session_owned-erased w identity id create s,
      create_session_owned-Settled s e here o,
    )
