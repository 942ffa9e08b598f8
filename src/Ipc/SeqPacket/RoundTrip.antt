-- ===== src/Ipc/SeqPacket/RoundTrip.antt =====
-- A message that server/src/ipc/seqpacket.rs sends is the message that it receives, with the
-- descriptors that the kernel made for the receiver.
use tere.Prelude.{
  ℕ, ◌≡◌, ◌≢◌, refl, sym, ap, subst, ◌∙◌, ◌⊎◌, inl, inr, false, none, some, List, [], ◌∷◌, ◌++◌,
  ◌==◌, length, arith, ok, Build, All, append-nil, append_assoc, length-ne,
}
use tere.Std.Fd.{RawFd, is_negative}
use tere.Ipc.Bincode.{Bytes, Bincode, BincodeError, IsLawful, Kind}
use tere.Ipc.OwnedFd.{OwnedFd, owners, own_all-owners}
use tere.Ipc.PassFd.{
  Thread, ungather, unscatter, or_default, push_fd, gather_fds_to_vec_lem,
  scatter_fds_from_vec_deque_lem,
}
use tere.Ipc.Message.{
  Slot, plain, passed, Message, Fields, fds_of, refill, fds_of-refill, serialize_fields,
  deserialize_fields, deserialize_message, finish,
}
use tere.Ipc.SeqPacket.{
  Packet, Delivery, delivered_fds, pack, prepare, check_left, receive_with_fds,
}

module _ (c : Bincode) where
  -- The code of a message: those of its plain fields, one after another.
  abbrev pub Codes : (ss : List Slot) → Fields ss → Bytes → Type 0
  Codes [] m code = code ≡ []
  Codes (plain k ∷ ss) m code =
      (bs : Bytes) × (rest : Bytes) × (c.encode k m.0 ≡ inr bs)
      × (code ≡ bs ++ rest)
      × Codes ss m.1 rest
  Codes (passed ∷ ss) m code = Codes ss m.1 code

  -- What a serialization that succeeds has written and collected.
  Written :
      (ss : List Slot)
      → Fields ss
      → Bytes
      → List RawFd
      → Thread
      → (BincodeError ⊎ Bytes) × Thread
      → Type 0
  Written ss m out fds t (inl e, t') = Unit
  Written ss m out fds t (inr bs, t') =
      (code : Bytes) × (bs ≡ out ++ code)
      × (t' ≡ record t { oob_ser = some (fds ++ fds_of ss m) })
      × Codes ss m code

  Written-plain :
      (k : Kind) (ss : List Slot) (m : Fields (plain k ∷ ss)) (out bs : Bytes) (fds : List RawFd)
      (t : Thread) (r : (BincodeError ⊎ Bytes) × Thread)
      → c.encode k m.0 ≡ inr bs
      → Written ss m.1 (out ++ bs) fds t r
      → Written (plain k ∷ ss) m out fds t r
  unfolding Written
  Written-plain k ss m out bs fds t (inl e, t') p w = tt
  Written-plain k ss m out bs fds t (inr b, t') p (code, e, s, h) =
      (bs ++ code, e ∙ append_assoc out bs code, s, (bs, code, p, refl, h))

  Written-passed :
      (ss : List Slot) (m : Fields (passed ∷ ss)) (out : Bytes) (fds : List RawFd) (t : Thread)
      (r : (BincodeError ⊎ Bytes) × Thread)
      → Written ss m.1
          (out ++ [])
          (fds ++ m.0 ∷ [])
          (record t { oob_ser = some (fds ++ m.0 ∷ []) })
          r
      → Written (passed ∷ ss) m out fds t r
  unfolding Written
  Written-passed ss m out fds t (inl e, t') w = tt
  Written-passed ss m out fds t (inr b, t') (code, e, s, h) = (
    code,
    e ∙ ap (λ o. o ++ code) (append-nil out),
    s ∙ (λ i. record t { oob_ser = some (append_assoc fds (m.0 ∷ []) (fds_of ss m.1) i) }),
    h,
  )

  Codes-refill :
      (ss : List Slot) (gs : List RawFd) (m : Fields ss) (code : Bytes)
      → Codes ss m code
      → Codes ss (refill ss gs m) code
  Codes-refill [] gs m code h = h
  Codes-refill (plain k ∷ ss) gs m code (bs, rest, e, p, h) =
      (bs, rest, e, p, Codes-refill ss gs m.1 rest h)
  Codes-refill (passed ∷ ss) [] m code h = h
  Codes-refill (passed ∷ ss) (g ∷ gs) m code h = Codes-refill ss gs m.1 code h

  module _ (lawful : IsLawful c) where
    serialize_fields-Written :
        (ss : List Slot) (m : Fields ss) (out : Bytes) (fds : List RawFd) (t : Thread)
        → t.oob_ser ≡ some fds
        → Written ss m out fds t (serialize_fields c ss m out t)
    unfolding Written serialize_fields
    serialize_fields-Written [] m out fds t q = (
      [],
      sym (append-nil out),
      λ i. record t { oob_ser = (q ∙ ap some (sym (append-nil fds))) i },
      refl,
    )
    serialize_fields-Written (plain k ∷ ss) m out fds t q =
        at (c.encode k m.0) refl (λ bs. serialize_fields-Written ss m.1 (out ++ bs) fds t q)
      where
        at :
            (d : BincodeError ⊎ Bytes)
            → c.encode k m.0 ≡ d
            → ((bs : Bytes)
                → Written ss m.1 (out ++ bs) fds t (serialize_fields c ss m.1 (out ++ bs) t))
            → Written (plain k ∷ ss) m out fds t (serialize_fields c (plain k ∷ ss) m out t)
        at (inl e) p ih = rw (p, serialize_fields) tt
        at (inr bs) p ih =
            rw (p, serialize_fields)
              (Written-plain k ss m out bs fds t (serialize_fields c ss m.1 (out ++ bs) t) p
                (ih bs))
    serialize_fields-Written (passed ∷ ss) m out fds t q = Written-passed ss m out fds t _ (
        rw (q, push_fd, lawful.unit_empty)
          (serialize_fields-Written ss m.1 (out ++ []) (fds ++ m.0 ∷ [])
            (record t { oob_ser = some (fds ++ m.0 ∷ []) }) refl))

    decodes :
        (ss : List Slot) (m : Fields ss) (code rest : Bytes) (queue : List OwnedFd) (t : Thread)
        → Codes ss m code
        → t.oob_de ≡ some (owners (fds_of ss m) ++ queue)
        → deserialize_fields c ss (code ++ rest) t
          ≡ (inr (m, rest), record t { oob_de = some queue })
    unfolding deserialize_fields
    decodes [] m code rest queue t h q = λ i. (inr (tt, h i ++ rest), record t { oob_de = q i })
    decodes (plain k ∷ ss) m code rest queue t (bs, more, e, p, h) q = rw (
      p,
      append_assoc bs more rest,
      lawful.decode-encode k m.0 bs (more ++ rest) e,
      decodes ss m.1 more rest queue t h q,
      deserialize_fields,
    )
    decodes (passed ∷ ss) m code rest queue t h q = rw (
      lawful.unit_read (code ++ rest),
      q,
      decodes ss m.1 code rest queue (record t { oob_de = some (owners (fds_of ss m.1) ++ queue) })
          h refl,
    )

  packed :
      (cmsg_space : ℕ → ℕ) (ss : List Slot) (m : Fields ss) (t t' : Thread) (p : Packet)
      (r : (BincodeError ⊎ Bytes) × Thread)
      → Written ss m [] [] t r
      → pack cmsg_space (ungather r) ≡ (ok p, t')
      → Codes ss m p.encoded × (p.fds ≡ fds_of ss m)
  unfolding Written
  packed cmsg_space ss m t t' p (inl e, t1) w h = cc
  packed cmsg_space ss m t t' p (inr bs, t1) (code, e, s, codes) h =
      let same : bs ≡ p.encoded = ground arith in
      let fds : or_default t1.oob_ser ≡ p.fds = ground arith in
      (
        subst (Codes ss m) (sym e ∙ same) codes,
        sym fds ∙ ap (λ (u : Thread). or_default u.oob_ser) s,
      )

module _ (c : Bincode) (cmsg_space : ℕ → ℕ) (b : Build) (m : Message) where
  pub prepare-Codes :
      (message : Fields m.slots) (t t' : Thread) (p : Packet)
      → IsLawful c
      → t.oob_ser ≡ none
      → prepare c cmsg_space b m message t ≡ (ok p, t')
      → Codes c m.slots message p.encoded × (p.fds ≡ fds_of m.slots message)
  unfolding prepare
  prepare-Codes message t t' p lawful q h =
      packed c cmsg_space m.slots message (record t { oob_ser = some [] }) t' p
        (serialize_fields c m.slots message [] (record t { oob_ser = some [] }))
        (serialize_fields-Written c lawful m.slots message [] [] (record t { oob_ser = some [] })
          refl)
        (rw (gather_fds_to_vec_lem b t [] _ q) at h)

  whole_message :
      (message : Fields m.slots) (u : Thread) (encoded : Bytes)
      → Codes c m.slots message encoded
      → IsLawful c
      → deserialize_message c m.slots encoded
          (record u { oob_de = some (owners (fds_of m.slots message)) })
        ≡ (inr message, record u { oob_de = some [] })
  unfolding deserialize_message
  whole_message message u encoded codes lawful =
      let t : Thread = record u { oob_de = some (owners (fds_of m.slots message)) } in
      let read =
        decodes c lawful m.slots message encoded [] [] t codes (ap some (sym (append-nil _))) in
      subst
        (λ bs.
          finish c m.slots (deserialize_fields c m.slots bs t)
          ≡ (inr message, record u { oob_de = some [] }))
        (append-nil encoded) (rw (read, lawful.end_empty))

  -- The receiving half, of any code of the message.
  pub receive-Codes :
      (gs : List RawFd) (message : Fields m.slots) (u : Thread) (d : Delivery)
      → IsLawful c
      → Codes c m.slots message d.data_read
      → d.data_read ≢ []
      → d.truncated ≡ false
      → d.ancillary_truncated ≡ false
      → delivered_fds d.messages ≡ gs
      → length gs ≡ length (fds_of m.slots message)
      → All (λ fd. is_negative fd ≡ false) gs
      → u.oob_de ≡ none
      → receive_with_fds c cmsg_space b m (inr d) u
        ≡ (ok (refill m.slots gs message), record u { oob_de = none })
  unfolding receive_with_fds
  receive-Codes gs message u d lawful codes coded whole rights came many valid qr =
      let some_read : (length d.data_read == 0) ≡ false = length-ne d.data_read coded in
      let new = refill m.slots gs message in
      let back : gs ≡ fds_of m.slots new = sym (fds_of-refill m.slots gs message many) in
      let read =
        whole_message new u d.data_read (Codes-refill c m.slots gs message d.data_read codes)
          lawful in
      rw
        (
          whole,
          some_read,
          came,
          own_all-owners b gs valid,
          rights,
          scatter_fds_from_vec_deque_lem b u (owners gs) _ qr,
        )
        (subst
          (λ l.
            check_left c cmsg_space b m (length (owners gs)) (
              unscatter
                (deserialize_message c m.slots d.data_read (record u { oob_de = some (owners l) })))
            ≡ (ok new, record u { oob_de = none }))
          (sym back) (rw read refl))

  -- A receive that is handed the bytes that a send of `message` handed to `sendmsg`, and as many
  -- descriptors `gs`, returns `message` with those in place of its own, in order, and leaves the
  -- table as it was. This supposes bincode's laws, that the code is not empty, that the kernel
  -- truncated nothing and made no negative descriptor, and that neither call comes from within
  -- another.
  pub send-receive :
      (gs : List RawFd) (message : Fields m.slots) (t t' u : Thread) (p : Packet) (d : Delivery)
      → IsLawful c
      → t.oob_ser ≡ none
      → prepare c cmsg_space b m message t ≡ (ok p, t')
      → p.encoded ≢ []
      → d.data_read ≡ p.encoded
      → d.truncated ≡ false
      → d.ancillary_truncated ≡ false
      → delivered_fds d.messages ≡ gs
      → length gs ≡ length p.fds
      → All (λ fd. is_negative fd ≡ false) gs
      → u.oob_de ≡ none
      → receive_with_fds c cmsg_space b m (inr d) u
        ≡ (ok (refill m.slots gs message), record u { oob_de = none })
  send-receive gs message t t' u p d lawful qs sent coded same whole rights came many valid qr =
      let (codes, fds) = prepare-Codes message t t' p lawful qs sent in
      receive-Codes gs message u d lawful (subst (Codes c m.slots message) (sym same) codes)
        (λ e. coded (sym same ∙ e)) whole rights came (many ∙ ap length fds) valid qr
