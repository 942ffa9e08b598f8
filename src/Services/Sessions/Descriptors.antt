-- ===== src/Services/Sessions/Descriptors.antt =====
-- The descriptors of a request in server/src/services/sessions/mod.rs: which calls open them, and
-- which ends of scopes close them. What is not a descriptor is as in Services/Sessions.
pub mod Settling
mod Examples
use tere.Prelude.{
  ℕ, ◌≡◌, refl, sym, ap, subst, ◌∙◌, some, List, [], ◌∷◌, Outcome, ok, err, panic, Act, expect_ok,
  expect_outcome, continue, ◌>>=◌, ◌>>◌,
}
use tere.Std.Fd.{
  RawFd, Table, close, close_all, opened, opened-Owns, Owns, close-Owns, close_all-Owns, Owns-perm,
}
use tere.Ipc.{SendError}
use tere.Ipc.Handshake.{Identity, handshake_as_client}
use tere.Proto.Pty
use tere.Proto.Sessions.{CreateShellSession}
use tere.Services.Sessions.{
  ConnError, World, Server, outside, outside_ipc, make_ready, shell_spec, hand_over, create_session,
  pty_service_location,
}
use tere.Services.Sessions.Creation.{handshake-sessions, make_ready-creating}
use tere.Services.Sessions.Store.{SessionId, Sessions, creating, ready, lookup, set}

-- The server, and the descriptors of its process.
pub record Process (W : Type 0) : Type 0 where
  pub server : Server W
  pub table : Table

abbrev pub drop_on_panic : {A : Type 0} → Outcome ConnError A → List RawFd → Table → Table
drop_on_panic (ok a) fds t = t
drop_on_panic (err e) fds t = close_all fds t
drop_on_panic (panic p) fds t = close_all fds t

abbrev pub open_or_drop : Outcome ConnError RawFd → List RawFd → Table → Table
open_or_drop (ok fd) fds t = opened fd t
open_or_drop (err e) fds t = close_all fds t
open_or_drop (panic p) fds t = close_all fds t

module _ {W : Type 0} where
  -- A step while the thread's variables own the given descriptors, in the order in which a panic
  -- drops them.
  abbrev pub holding :
      {A : Type 0} → List RawFd → Act (Server W) ConnError A → Act (Process W) ConnError A
  holding fds m s = (
    (m s.server).0,
    record { server = (m s.server).1; table = drop_on_panic (m s.server).0 fds s.table },
  )

  -- The same for a call that returns a new descriptor.
  abbrev pub opening : List RawFd → Act (Server W) ConnError RawFd → Act (Process W) ConnError RawFd
  opening fds m s = (
    (m s.server).0,
    record { server = (m s.server).1; table = open_or_drop (m s.server).0 fds s.table },
  )

  -- The end of a scope whose variable owns a descriptor.
  abbrev pub dropping : RawFd → Act (Process W) ConnError (Unit {0})
  dropping fd s = (ok tt, record s { table = close fd s.table })

  module _ (w : World W) (identity : Identity) where
    -- The session has the terminal and the connection once it is `Ready`. The last message is
    -- dropped after it has been sent, and with it the user's socket.
    unfoldable pub hand_over_owned :
        SessionId
        → CreateShellSession
        → (pty_master pty_conn : RawFd) → Act (Process W) ConnError (Unit {0})
    unfolding make_ready
    hand_over_owned id create pty_master pty_conn = do
      holding (pty_conn ∷ pty_master ∷ create.fd ∷ []) (
          expect_ok (
            handshake_as_client identity (outside_ipc (w.pty_handshakes pty_conn)) Pty.client_intent
              Pty.server_intent))
      holding (pty_master ∷ pty_conn ∷ create.fd ∷ []) (
          expect_ok
            (outside (w.send_init pty_conn (record { dummy = 0; pty_master = pty_master }))))
      holding (pty_master ∷ pty_conn ∷ create.fd ∷ []) (make_ready id pty_master pty_conn)
      holding (create.fd ∷ [])
          (expect_ok (outside (w.send_request pty_conn (Pty.new_client 0 create.fd))))
      dropping create.fd

    unfoldable pub create_session_owned :
        SessionId → CreateShellSession → Act (Process W) ConnError (Unit {0})
    unfolding shell_spec hand_over_owned
    create_session_owned id create = do
      pty_master ←
          opening (create.fd ∷ []) (expect_ok (outside (w.create_shell (shell_spec create))))
      pty_conn ←
          opening (pty_master ∷ create.fd ∷ [])
            (expect_ok (outside (w.connect pty_service_location)))
      hand_over_owned id create pty_master pty_conn

  -- Without the descriptors.
  abbrev pub erased :
      {A : Type 0} → Outcome ConnError A × Process W → Outcome ConnError A × Server W
  erased (r, s) = (r, s.server)

  erased-continue :
      {A B : Type 0} (r : Outcome ConnError A × Process W) (k : A → Act (Process W) ConnError B)
      (l : A → Act (Server W) ConnError B)
      → ((a : A) (s : Process W) → erased (k a s) ≡ l a s.server)
      → erased (continue r.0 k r.1) ≡ continue r.0 l r.1.server
  erased-continue (ok a, s) k l h = h a s
  erased-continue (err e, s) k l h = refl
  erased-continue (panic p, s) k l h = refl

  -- The descriptors aside, this is the request of Services/Sessions.
  pub create_session_owned-erased :
      (w : World W) (identity : Identity) (id : SessionId) (create : CreateShellSession)
      (s : Process W)
      → erased (create_session_owned w identity id create s)
        ≡ create_session w identity id create s.server
  unfolding create_session_owned create_session hand_over_owned hand_over
  create_session_owned-erased w identity id create s =
      erased-continue
        (opening (create.fd ∷ []) (expect_ok (outside (w.create_shell (shell_spec create)))) s) _ _
        (λ pty s1.
          erased-continue
            (opening (pty ∷ create.fd ∷ []) (expect_ok (outside (w.connect pty_service_location)))
              s1)
            _ _
            (λ c s2.
              erased-continue
                (holding (c ∷ pty ∷ create.fd ∷ [])
                  (expect_ok (
                    handshake_as_client identity (outside_ipc (w.pty_handshakes c))
                      Pty.client_intent Pty.server_intent))
                  s2)
                _ _
                (λ u s3.
                  erased-continue
                    (holding (pty ∷ c ∷ create.fd ∷ [])
                      (expect_ok (outside (w.send_init c (record { dummy = 0; pty_master = pty }))))
                      s3)
                    _ _
                    (λ v s4.
                      erased-continue (holding (pty ∷ c ∷ create.fd ∷ []) (make_ready id pty c) s4)
                        _ _
                        (λ x s5.
                          last (w.send_request c (Pty.new_client 0 create.fd) s5.server.world)
                            s5)))))
    where
      last :
          (r : Outcome SendError (Unit {0}) × W) (s5 : Process W)
          → erased (
              continue
                (expect_outcome r.0)
                (λ y. dropping create.fd)
                (record {
                  server = record s5.server { world = r.1 };
                  table = drop_on_panic (expect_outcome r.0) (create.fd ∷ []) s5.table;
                }))
            ≡ (expect_outcome r.0, record s5.server { world = r.1 })
      last (ok y, x) s5 = refl
      last (err e, x) s5 = refl
      last (panic p, x) s5 = refl
