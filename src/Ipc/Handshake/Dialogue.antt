-- ===== src/Ipc/Handshake/Dialogue.antt =====
-- The two sides of the handshake against one another, and each side against any peer.
use tere.Prelude.{
  ◌≡◌, ap, ◌∙◌, ◌↔◌, bytes_eq_iff, ok, arith, map_err_outcome, try-ok, bind-ok, map_err-ok, subst,
}
use tere.Ipc.{Ipc}
use tere.Ipc.Bincode.{Bytes}
use tere.Ipc.Handshake.{
  Identity, Handshake, send, receive, identify, new, check, handshake_as_client,
  handshake_as_server,
}

module _ {S : Type 0} (id : Identity) where
  -- The message passes both tests exactly when it is the one that a peer of this build sends.
  check-ok :
      (intent : Bytes) (msg : Handshake) (s : S)
      → (check id intent msg s).0 ≡ ok tt
      → msg ≡ new id intent
  unfolding new
  check-ok intent msg s h =
      ground (arith, bytes_eq_iff (identify id intent) msg.build_id, bytes_eq_iff msg.intent intent)

  -- The tests leave the state alone.
  pub check-state : (intent : Bytes) (msg : Handshake) (s : S) → (check id intent msg s).1 ≡ s
  check-state intent msg s = ground arith

  check-new : (intent : Bytes) (s : S) → check id intent (new id intent) s ≡ (ok tt, s)
  unfolding new
  check-new intent s =
      ground
        (arith, bytes_eq_iff intent intent, bytes_eq_iff (identify id intent) (identify id intent))

module _ {S : Type 0} (id : Identity) (conn : Ipc S Handshake Handshake) (ci si : Bytes) where
  -- A client's handshake succeeds exactly when its message could be sent and the message that it
  -- then received is the one that a server of the same build and of the expected intent sends.
  pub handshake_as_client-ok :
      (s : S)
      → ((handshake_as_client id conn ci si s).0 ≡ ok tt) ↔ (
          ((conn.send_with_fds (new id ci) s).0 ≡ ok tt)
          × ((conn.receive_with_fds (conn.send_with_fds (new id ci) s).1).0 ≡ ok (new id si)))
  unfolding handshake_as_client
  handshake_as_client-ok s = (
    λ h.
        let (u, sent, h1) = try-ok send (conn.send_with_fds (new id ci) s).0 _ _ h in
        let (msg, came, h2) =
          try-ok receive (conn.receive_with_fds (conn.send_with_fds (new id ci) s).1).0 _ _ h1 in
        (sent, came ∙ ap ok (check-ok id si msg _ h2)),
    λ (sent, came). rw (sent, came, check-new id si _),
  )

  -- A server's handshake succeeds exactly when the message that it received is the one that a
  -- client of the same build and of the expected intent sends, and its answer could be sent.
  pub handshake_as_server-ok :
      (s : S)
      → ((handshake_as_server id conn ci si s).0 ≡ ok tt) ↔ (
          ((conn.receive_with_fds s).0 ≡ ok (new id ci))
          × ((conn.send_with_fds (new id si) (conn.receive_with_fds s).1).0 ≡ ok tt))
  unfolding handshake_as_server
  handshake_as_server-ok s = (
    λ h.
        let (msg, came, h1) = try-ok receive (conn.receive_with_fds s).0 _ _ h in
        let (u, passes, h2) = bind-ok (check id ci msg _).0 _ _ h1 in
        (
          came ∙ ap ok (check-ok id ci msg _ passes),
          map_err-ok send _ (
              subst (λ t. map_err_outcome send (conn.send_with_fds (new id si) t).0 ≡ ok tt)
                (check-state id ci msg (conn.receive_with_fds s).1) h2),
        ),
    λ (came, sent). rw (came, check-new id ci (conn.receive_with_fds s).1, sent),
  )
