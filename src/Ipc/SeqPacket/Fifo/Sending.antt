-- ===== src/Ipc/SeqPacket/Fifo/Sending.antt =====
-- A send of server/src/ipc/seqpacket.rs puts its message at the end of the queue.
use tere.Prelude.{ℕ, ◌≡◌, refl, ap, ◌⊎◌, inl, inr, none, some, List, [], map, ok, err, Build}
use tere.Ipc.{SendError}
use tere.Ipc.Bincode.{Bytes, Bincode, BincodeError, IsLawful}
use tere.Ipc.PassFd.{Thread, ungather, gather_fds_to_vec_lem}
use tere.Ipc.Message.{Message, Fields, serialize_fields}
use tere.Ipc.SeqPacket.{Packet, sent, pack, prepare, send_with_fds}
use tere.Ipc.SeqPacket.Link.{Kernel, Flight, View, IsSeqPacketSocket, Peers, send}
use tere.Ipc.SeqPacket.RoundTrip.{prepare-Codes}
use tere.Ipc.SeqPacket.Fifo.{Represents-snoc, Held, resolve, Fits, Linked, Sent}

io_cases : {E : Type 0} (r : E ⊎ Unit {0}) → ((e : E) × (r ≡ inl e)) ⊎ (r ≡ inr tt)
io_cases (inl e) = inl (e, refl)
io_cases (inr u) = inr refl

module _ {K F : Type 0} (kernel : Kernel K) (v : View K F) (c : Bincode) (cmsg_space : ℕ → ℕ)
    (b : Build) (m : Message) where
  prepare-cases :
      (message : Fields m.slots) (t : Thread)
      → t.oob_ser ≡ none
      → (((p : Packet) × (t' : Thread) × (prepare c cmsg_space b m message t ≡ (ok p, t'))
          × (t'.oob_ser ≡ none)))
        ⊎ ((e : SendError) × (t' : Thread) × (prepare c cmsg_space b m message t ≡ (err e, t'))
            × (t'.oob_ser ≡ none))
  unfolding prepare
  prepare-cases message t q =
      rw (gather_fds_to_vec_lem b t [] _ q)
        (at (serialize_fields c m.slots message [] (record t { oob_ser = some [] })))
    where
      at :
          (x : (BincodeError ⊎ Bytes) × Thread)
          → (((p : Packet) × (t' : Thread) × (pack cmsg_space (ungather x) ≡ (ok p, t'))
              × (t'.oob_ser ≡ none)))
            ⊎ ((e : SendError) × (t' : Thread) × (pack cmsg_space (ungather x) ≡ (err e, t'))
                × (t'.oob_ser ≡ none))
      at (inl e, t1) = inr (SendError.serialize e, record t1 { oob_ser = none }, refl, refl)
      at (inr bs, t1) = inl (_, record t1 { oob_ser = none }, refl, refl)

  module _ (law : IsSeqPacketSocket kernel v cmsg_space) (lawful : IsLawful c) where
    pub send-Sent :
        (queue : List (Held F m.slots)) (message : Fields m.slots) (s : Peers K)
        → Linked v c m queue s
        → Fits c m message
        → Sent v c m queue
            (resolve (v.sender_file s.socket) m.slots message)
            (send kernel c cmsg_space b m message s)
    unfolding send send_with_fds
    send-Sent queue message s l fits = elim (prepare-cases message s.sender l.no_ser) [
      | inl (p, t', prepared, q) ↦
          let (codes, fds) =
            prepare-Codes c cmsg_space b m message s.sender t' p lawful l.no_ser prepared in
          let x = resolve (v.sender_file s.socket) m.slots message in
          let f : Flight F = record {
            bytes = p.encoded;
            files = map (v.sender_file s.socket) p.fds;
          } in
          elim (io_cases (kernel.sendmsg p s.socket).0) [
            | inl (e, failed) ↦
                rw (prepared, sent, failed)
                  (record {
                    represents = rw (law.not_sent p s.socket e failed) l.represents;
                    no_ser = q;
                    no_de = l.no_de;
                  })
            | inr went ↦
                rw (prepared, sent, went)
                  (record {
                    represents = rw (law.sent p s.socket went) (
                        Represents-snoc c m queue (v.in_flight s.socket) x f l.represents (record {
                          message = message;
                          file = v.sender_file s.socket;
                          codes = codes;
                          files = ap (map (v.sender_file s.socket)) fds;
                          held = refl;
                          fits = fits;
                        }));
                    no_ser = q;
                    no_de = l.no_de;
                  })
          ]
      | inr (e, t', prepared, q) ↦
          rw prepared (record { represents = l.represents; no_ser = q; no_de = l.no_de })
    ]
