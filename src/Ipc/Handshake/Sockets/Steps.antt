-- ===== src/Ipc/Handshake/Sockets/Steps.antt =====
-- What the calls of a handshake over a connection of server/src/ipc/seqpacket.rs leave on their way.
use tere.Prelude.{
  ℕ, ◌*◌, ◌≡◌, ◌≤◌, sym, ap, ◌∙◌, List, [], ◌∷◌, ◌++◌, Outcome, ok, err, panic, Act, Build,
  map_err_outcome, continue, subst,
}
use tere.Ipc.{SendError, ReceiveError}
use tere.Ipc.Bincode.{Bytes, Bincode, IsLawful}
use tere.Ipc.Message.{Fields}
use tere.Ipc.SeqPacket.Link.{Kernel, View, IsSeqPacketSocket, Peers, send, receive}
use tere.Ipc.SeqPacket.Fifo.{Held, Fits, Linked, Sent, Received}
use tere.Ipc.SeqPacket.Fifo.Sending.{send-Sent}
use tere.Ipc.SeqPacket.ThreadLocals.{send_with_fds-oob_de, receive_with_fds-oob_ser}
use tere.Ipc.Handshake
use tere.Ipc.Handshake.{
  of_fields, Identity, Handshake, Error, message, message_fields, new, identify, check,
  handshake_as_client, handshake_as_server,
}
use tere.Ipc.Handshake.Dialogue.{check-state}
use tere.Ipc.Handshake.Sockets.{
  Duplex, received_handshake, upwards, downwards, after_down, send_up, receive_up, server_socket,
  contents, Joined,
}

Sent-Linked :
    {K F : Type 0} (v : View K F) (c : Bincode) (queue : List (Held F message.slots))
    (x : Held F message.slots) (r : Outcome SendError (Unit {0}) × Peers K)
    → r.0 ≡ ok tt
    → Sent v c message queue x r
    → Linked v c message (queue ++ x ∷ []) r.1
Sent-Linked v c queue x (ok u, p) e l = l
Sent-Linked v c queue x (err n, p) e l = cc
Sent-Linked v c queue x (panic n, p) e l = cc

module _ {K F : Type 0} (kernel : Kernel K) (up_view down_view : View K F) (c : Bincode)
    (cmsg_space : ℕ → ℕ) (b : Build) where
  module _ (up_law : IsSeqPacketSocket kernel up_view cmsg_space)
      (down_law : IsSeqPacketSocket kernel down_view cmsg_space) (lawful : IsLawful c)
      (monotone : (x y : ℕ) → x ≤ y → cmsg_space x ≤ cmsg_space y) where
    pub send_up-Joined :
        (m : Handshake) (d : Duplex K)
        → Joined up_view down_view c [] [] d
        → Fits c message (message_fields m)
        → ((send_up kernel c cmsg_space b m d).0 ≡ ok tt)
        → Joined up_view down_view c (contents m ∷ []) [] (send_up kernel c cmsg_space b m d).1
    unfolding send
    send_up-Joined m d j fits went = record {
      up_link =
          Sent-Linked up_view c [] (contents m)
            (send kernel c cmsg_space b message (message_fields m) (upwards d)) went
            (send-Sent kernel up_view c cmsg_space b message up_law lawful [] (message_fields m)
              (upwards d) j.up_link fits);
      down_link = record {
        represents = j.down_link.represents;
        no_ser = j.down_link.no_ser;
        no_de =
            send_with_fds-oob_de c cmsg_space b message (λ p. (kernel.sendmsg p d.up).0)
              (message_fields m) d.client
            ∙ j.down_link.no_de;
      };
    }

    -- A receive of the server leaves the other direction.
    pub received_up-Linked :
        (downs : List (Held F message.slots)) (d : Duplex K)
        → Linked down_view c message downs (downwards d)
        → Linked down_view c message downs (downwards (receive_up kernel c cmsg_space b d).1)
    unfolding receive
    received_up-Linked downs d l =
        let r =
          kernel.recvmsg message.max_size (cmsg_space (4 * message.max_fds)) d.up d.server.table in
        record {
          represents = l.represents;
          no_ser =
              receive_with_fds-oob_ser c cmsg_space b message r.0
                (record d.server { table = r.1.0 })
              ∙ l.no_ser;
          no_de = l.no_de;
        }

    -- What the server leaves on its way to the client: its message if it has succeeded.
    abbrev pub Answered : Held F message.slots → Outcome Error (Unit {0}) × Duplex K → Type 0
    Answered y (ok u, d) = Linked down_view c message (y ∷ []) (downwards d)
    Answered y (err e, d) = Linked down_view c message [] (downwards d)
    Answered y (panic p, d) = Linked down_view c message [] (downwards d)

    continue-Answered :
        {A : Type 0} (y : Held F message.slots) (r : Outcome Error A × Duplex K)
        (k : A → Act (Duplex K) Error (Unit {0}))
        → Linked down_view c message [] (downwards r.1)
        → ((a : A) (d : Duplex K)
            → Linked down_view c message [] (downwards d)
            → Answered y (k a d))
        → Answered y (continue r.0 k r.1)
    continue-Answered y (ok a, d) k l f = f a d l
    continue-Answered y (err e, d) k l f = l
    continue-Answered y (panic p, d) k l f = l

    Sent-Answered :
        (y : Held F message.slots) (d : Duplex K) (r : Outcome SendError (Unit {0}) × Peers K)
        → Sent down_view c message [] y r
        → Answered y (map_err_outcome Handshake.send r.0, after_down r.1 d)
    Sent-Answered y d (ok u, p) l = l
    Sent-Answered y d (err n, p) l = l
    Sent-Answered y d (panic n, p) l = absurd l

    pub server-Answered :
        (id : Identity) (ci si : Bytes) (d : Duplex K)
        → Linked down_view c message [] (downwards d)
        → Fits c message (message_fields (new id si))
        → Answered
            (contents (new id si))
            (handshake_as_server id (server_socket kernel c cmsg_space b) ci si d)
    unfolding handshake_as_server
    server-Answered id ci si d l fits =
        let y : Held F message.slots = contents (new id si) in
        let got = receive_up kernel c cmsg_space b d in
        continue-Answered y (map_err_outcome Handshake.receive got.0, got.1) _
          (received_up-Linked [] d l)
          (λ msg d1 l1.
            continue-Answered y (check id ci msg d1) _
              (subst (λ x. Linked down_view c message [] (downwards x))
                (sym (check-state id ci msg d1)) l1)
              (λ u d2 l2.
                Sent-Answered y d2
                  (send kernel c cmsg_space b message (message_fields (new id si)) (downwards d2))
                  (send-Sent kernel down_view c cmsg_space b message down_law lawful []
                    (message_fields (new id si)) (downwards d2) l2 fits)))

-- What a receive that has returned a handshake has taken from the queue.
pub got-contents :
    {K F : Type 0} (v : View K F) (c : Bincode) (x : Held F message.slots)
    (q : List (Held F message.slots)) (r : Outcome ReceiveError (Fields message.slots) × Peers K)
    (h : Handshake)
    → Received v c message (x ∷ q) r
    → received_handshake r.0 ≡ ok h
    → x ≡ contents h
got-contents v c x q (ok m, p) h g e = let same : of_fields m ≡ h = cc in sym g.0 ∙ ap contents same
got-contents v c x q (err n, p) h g e = cc
got-contents v c x q (panic n, p) h g e = cc

pub got-none :
    {K F : Type 0} (v : View K F) (c : Bincode)
    (r : Outcome ReceiveError (Fields message.slots) × Peers K) (h : Handshake)
    → Received v c message [] r
    → received_handshake r.0 ≡ ok h
    → ⊥
got-none v c (ok m, p) h g e = g
got-none v c (err n, p) h g e = cc
got-none v c (panic n, p) h g e = cc
