-- ===== src/Ipc/Handshake/Sockets/Agreement.antt =====
-- A handshake of server/src/ipc/handshake.rs over a connection of server/src/ipc/seqpacket.rs.
use tere.Prelude.{ℕ, ◌≡◌, ◌≤◌, refl, sym, ap, [], ◌∷◌, Outcome, ok, err, panic, Act, Build}
use tere.Ipc.Bincode.{Bytes, Bincode, IsLawful}
use tere.Ipc.SeqPacket.Link.{Kernel, View, IsSeqPacketSocket, receive}
use tere.Ipc.SeqPacket.Fifo.{Fits}
use tere.Ipc.SeqPacket.Fifo.Receiving.{receive-Received}
use tere.Ipc.Handshake.{
  Identity, Error, message, message_fields, new, identify, handshake_as_client, handshake_as_server,
}
use tere.Ipc.Handshake.Dialogue.{handshake_as_client-ok, handshake_as_server-ok}
use tere.Ipc.Handshake.Sockets.{
  Duplex, upwards, downwards, send_up, receive_down, server_socket, client_socket, contents, Joined,
}
use tere.Ipc.Handshake.Sockets.Steps.{
  send_up-Joined, Answered, server-Answered, got-contents, got-none,
}

module _ {K F : Type 0} (kernel : Kernel K) (up_view down_view : View K F) (c : Bincode)
    (cmsg_space : ℕ → ℕ) (b : Build) (up_law : IsSeqPacketSocket kernel up_view cmsg_space)
    (down_law : IsSeqPacketSocket kernel down_view cmsg_space) (lawful : IsLawful c)
    (monotone : (x y : ℕ) → x ≤ y → cmsg_space x ≤ cmsg_space y)
    (derive_key : Bytes → Bytes → Bytes) (client_build server_build : Bytes) where
  abbrev client_id : Identity
  client_id = record { derive_key = derive_key; protocol_identity = client_build }

  abbrev server_id : Identity
  server_id = record { derive_key = derive_key; protocol_identity = server_build }

  -- The client expects the intents `ci` and `si`, the server `ci'` and `si'`.
  abbrev pub socket_dialogue : (ci si ci' si' : Bytes) → Act (Duplex K) Error (Unit {0})
  socket_dialogue ci si ci' si' =
      handshake_as_client client_id
        (client_socket kernel c cmsg_space b
          (handshake_as_server server_id (server_socket kernel c cmsg_space b) ci' si'))
        ci si

  -- The two messages that have passed the tests say that the two sides agree.
  agreed :
      (ci si ci' si' : Bytes)
      → ((x y a e : Bytes) → derive_key x a ≡ derive_key y e → (x ≡ y) × (a ≡ e))
      → contents (new client_id ci) ≡ contents (new server_id ci')
      → contents (new server_id si') ≡ contents (new client_id si)
      → (ci ≡ ci') × (si ≡ si') × (client_build ≡ server_build)
  unfolding new identify
  agreed ci si ci' si' apart ups downs =
      let keys : derive_key ci client_build ≡ derive_key ci' server_build = ap (λ y. y.1.0) ups in
      (
        ap (λ y. y.0) ups,
        sym (ap (λ y. y.0) downs),
        (apart ci ci' client_build server_build keys).1,
      )

  -- If the handshake over the sockets succeeds on the client's side, both sides expect the same two
  -- intents and were built with the same protocol identity. Any call of the kernel may fail. This
  -- supposes that the kernel and bincode keep their laws, that nothing is on its way before, that
  -- the two messages fit, and that the key derivation tells any two inputs apart.
  pub socket_dialogue-ok :
      (ci si ci' si' : Bytes) (d : Duplex K)
      → ((x y a e : Bytes) → derive_key x a ≡ derive_key y e → (x ≡ y) × (a ≡ e))
      → Joined up_view down_view c [] [] d
      → Fits c message (message_fields (new client_id ci))
      → Fits c message (message_fields (new server_id si'))
      → (socket_dialogue ci si ci' si' d).0 ≡ ok tt
      → (ci ≡ ci') × (si ≡ si') × (client_build ≡ server_build)
  socket_dialogue-ok ci si ci' si' d apart j client_fits server_fits h =
      at (server d1) refl
        (server-Answered kernel up_view down_view c cmsg_space b up_law down_law lawful monotone
          server_id ci' si' d1 j1.down_link server_fits)
        shook.1
    where
      server : Act (Duplex K) Error (Unit {0})
      server = handshake_as_server server_id (server_socket kernel c cmsg_space b) ci' si'

      d1 : Duplex K
      d1 = (send_up kernel c cmsg_space b (new client_id ci) d).1

      shook :
          ((send_up kernel c cmsg_space b (new client_id ci) d).0 ≡ ok tt)
          × ((receive_down kernel c cmsg_space b (server d1).1).0 ≡ ok (new client_id si))
      shook =
          (handshake_as_client-ok client_id (client_socket kernel c cmsg_space b server) ci si d).0
            h

      j1 : Joined up_view down_view c (contents (new client_id ci) ∷ []) [] d1
      j1 =
          send_up-Joined kernel up_view down_view c cmsg_space b up_law down_law lawful monotone
            (new client_id ci) d j client_fits shook.0

      at :
          (r : Outcome Error (Unit {0}) × Duplex K)
          → server d1 ≡ r
          → Answered kernel up_view down_view c cmsg_space b up_law down_law lawful monotone
              (contents (new server_id si'))
              r
          → (receive_down kernel c cmsg_space b r.1).0 ≡ ok (new client_id si)
          → (ci ≡ ci') × (si ≡ si') × (client_build ≡ server_build)
      at (err e, d2) p l came = absurd (
          got-none down_view c (receive kernel c cmsg_space b message (downwards d2))
            (new client_id si)
            (receive-Received kernel down_view c cmsg_space b message down_law lawful monotone []
              (downwards d2) l)
            came)
      at (panic e, d2) p l came = absurd (
          got-none down_view c (receive kernel c cmsg_space b message (downwards d2))
            (new client_id si)
            (receive-Received kernel down_view c cmsg_space b message down_law lawful monotone []
              (downwards d2) l)
            came)
      at (ok u, d2) p l came =
          let served : (server d1).0 ≡ ok tt = ap (λ x. x.0) p in
          let (heard, replied) =
            (handshake_as_server-ok server_id (server_socket kernel c cmsg_space b) ci' si' d1).0
              served in
          agreed ci si ci' si' apart
            (got-contents up_view c (contents (new client_id ci)) []
              (receive kernel c cmsg_space b message (upwards d1)) (new server_id ci')
              (receive-Received kernel up_view c cmsg_space b message up_law lawful monotone
                (contents (new client_id ci) ∷ []) (upwards d1) j1.up_link)
              heard)
            (got-contents down_view c (contents (new server_id si')) []
              (receive kernel c cmsg_space b message (downwards d2)) (new client_id si)
              (receive-Received kernel down_view c cmsg_space b message down_law lawful monotone
                (contents (new server_id si') ∷ []) (downwards d2) l)
              came)
