-- ===== src/Ipc/SeqPacket/Fifo/Receiving.antt =====
-- A receive of server/src/ipc/seqpacket.rs takes the first message of the queue.
use tere.Prelude.{
  ℕ, zero, suc, ◌*◌, ◌≡◌, ◌≤◌, refl, sym, ap, subst, ◌∙◌, ◌⊎◌, inl, inr, false, List, [], ◌∷◌, map,
  length, length-map, take, ltb, err, Build, arith,
}
use tere.Std.Fd.{RawFd, Table}
use tere.Ipc.{IoError, ReceiveError}
use tere.Ipc.Bincode.{Bincode, IsLawful}
use tere.Ipc.Message.{Slot, plain, passed, Message, Fields, fds_of, refill}
use tere.Ipc.SeqPacket.{Delivery, delivered_fds, receive_with_fds}
use tere.Ipc.SeqPacket.Link.{Kernel, Flight, View, IsSeqPacketSocket, Peers, receive}
use tere.Ipc.SeqPacket.RoundTrip.{Codes, receive-Codes}
use tere.Ipc.SeqPacket.Fifo.{Held, resolve, Carries, Represents, Linked, Received}

-- A message that is received with other descriptors for the same files is the same.
resolve-refill :
    {F : Type 0} (theirs ours : RawFd → F) (ss : List Slot) (gs : List RawFd) (m : Fields ss)
    → map ours gs ≡ map theirs (fds_of ss m)
    → resolve ours ss (refill ss gs m) ≡ resolve theirs ss m
resolve-refill theirs ours [] gs m e = refl
resolve-refill theirs ours (plain k ∷ ss) gs m e =
    ap (λ h. (m.0, h)) (resolve-refill theirs ours ss gs m.1 e)
resolve-refill theirs ours (passed ∷ ss) [] m e = cc
resolve-refill theirs ours (passed ∷ ss) (g ∷ gs) m e =
    let heads : ours g ≡ theirs m.0 = cc in
    let tails : map ours gs ≡ map theirs (fds_of ss m.1) = cc in
    let more = resolve-refill theirs ours ss gs m.1 tails in cc

take_all : {A : Type 0} (n : ℕ) (xs : List A) → length xs ≤ n → take n xs ≡ xs
take_all zero [] h = refl
take_all zero (x ∷ xs) h = absurd (omega arith)
take_all (suc n) [] h = refl
take_all (suc n) (x ∷ xs) h = ap (λ l. x ∷ l) (take_all n xs (omega arith))

fits_ltb : (n k : ℕ) → k ≤ n → ltb n k ≡ false
fits_ltb n k h = ground arith

module _ {K F : Type 0} (kernel : Kernel K) (v : View K F) (c : Bincode) (cmsg_space : ℕ → ℕ)
    (b : Build) (m : Message) where
  module _ (law : IsSeqPacketSocket kernel v cmsg_space) (lawful : IsLawful c)
      (monotone : (x y : ℕ) → x ≤ y → cmsg_space x ≤ cmsg_space y) where
    abbrev call : Peers K → (IoError ⊎ Delivery) × (Table × K)
    call s = kernel.recvmsg m.max_size (cmsg_space (4 * m.max_fds)) s.socket s.receiver.table

    Received-socket :
        (queue : List (Held F m.slots)) (e : IoError) (s : Peers K)
        → Linked v c m queue s
        → Received v c m queue (err (ReceiveError.socket e), s)
    Received-socket [] e s h = h
    Received-socket (x ∷ queue) e s h = h

    Represents-nil : (fs : List (Flight F)) → Represents c m [] fs → fs ≡ []
    Represents-nil [] h = refl
    Represents-nil (f ∷ fs) h = absurd h

    receive-failed :
        (queue : List (Held F m.slots)) (s : Peers K) (e : IoError)
        → Linked v c m queue s
        → (call s).0 ≡ inl e
        → Received v c m queue (receive kernel c cmsg_space b m s)
    unfolding receive receive_with_fds
    receive-failed queue s e l q =
        let (same, table) =
          law.not_received m.max_size (cmsg_space (4 * m.max_fds)) s.socket s.receiver.table e q in
        let kept : Linked v c m queue (record s {
          receiver = record s.receiver { table = (call s).1.0 };
          socket = (call s).1.1;
        }) =
          record { represents = rw same l.represents; no_ser = l.no_ser; no_de = l.no_de } in
        rw q (Received-socket queue e _ kept)

    receive-none :
        (s : Peers K) (d : Delivery)
        → Linked v c m [] s
        → (call s).0 ≡ inr d
        → Received v c m [] (receive kernel c cmsg_space b m s)
    unfolding receive receive_with_fds
    receive-none s d l q =
        let empty = Represents-nil (v.in_flight s.socket) l.represents in
        let (left, read, cut) =
          law.ended m.max_size (cmsg_space (4 * m.max_fds)) s.socket s.receiver.table d empty q in
        rw (q, cut, read) (record { represents = rw left tt; no_ser = l.no_ser; no_de = l.no_de })

    receive-some :
        (x : Held F m.slots) (queue : List (Held F m.slots)) (f : Flight F) (fs : List (Flight F))
        (s : Peers K) (d : Delivery)
        → Linked v c m (x ∷ queue) s
        → v.in_flight s.socket ≡ f ∷ fs
        → Carries c m x f
        → Represents c m queue fs
        → (call s).0 ≡ inr d
        → Received v c m (x ∷ queue) (receive kernel c cmsg_space b m s)
    unfolding receive
    receive-some x queue f fs s d l flight carries others q =
        let (left, read, cut) =
          law.received m.max_size (cmsg_space (4 * m.max_fds)) s.socket s.receiver.table f fs d
            flight q in
        let few : length f.files ≤ m.max_fds =
          rw (carries.files, length-map carries.file (fds_of m.slots carries.message))
            carries.fits.few in
        let (rights, valid, same, opens) =
          law.received_files m.max_size (cmsg_space (4 * m.max_fds)) s.socket s.receiver.table f fs
            d flight q (monotone (4 * length f.files) (4 * m.max_fds) (omega arith)) in
        let small = carries.fits.small f.bytes carries.codes in
        let whole : d.data_read ≡ f.bytes = read ∙ take_all m.max_size f.bytes small in
        let gs = delivered_fds d.messages in
        let now = v.receiver_file (call s).1.1 in
        let again : map now gs ≡ map carries.file (fds_of m.slots carries.message) =
          same ∙ carries.files in
        let many : length gs ≡ length (fds_of m.slots carries.message) = omega (
          arith,
          length-map now gs,
          length-map carries.file (fds_of m.slots carries.message),
          ap length again,
        ) in
        let got =
          receive-Codes c cmsg_space b m gs carries.message
            (record s.receiver { table = (call s).1.0 }) d lawful
            (subst (Codes c m.slots carries.message) (sym whole) carries.codes)
            (λ e. carries.fits.coded f.bytes carries.codes (sym whole ∙ e))
            (cut ∙ fits_ltb m.max_size (length f.bytes) small) rights refl many valid l.no_de in
        rw (q, got)
          (
            resolve-refill carries.file now m.slots gs carries.message again ∙ carries.held,
            record { represents = rw left others; no_ser = l.no_ser; no_de = refl },
          )

    -- From a queue of messages, a receive returns the first: the plain values that were sent, and
    -- for each descriptor one of the receiver for the same open file. Otherwise `recvmsg` has failed
    -- and the queue is as it was, or the queue was empty and the result is `End`. No other error
    -- comes, and no panic. This supposes a kernel, and a bincode, that keep their laws.
    pub receive-Received :
        (queue : List (Held F m.slots)) (s : Peers K)
        → Linked v c m queue s
        → Received v c m queue (receive kernel c cmsg_space b m s)
    receive-Received queue s l = at queue (v.in_flight s.socket) (call s).0 l refl l.represents refl
      where
        at :
            (q : List (Held F m.slots)) (flights : List (Flight F)) (r : IoError ⊎ Delivery)
            → Linked v c m q s
            → v.in_flight s.socket ≡ flights
            → Represents c m q flights
            → (call s).0 ≡ r
            → Received v c m q (receive kernel c cmsg_space b m s)
        at q fs (inl e) l p h r = receive-failed q s e l r
        at [] fs (inr d) l p h r = receive-none s d l r
        at (x ∷ q) [] (inr d) l p h r = absurd h
        at (x ∷ q) (f ∷ fs) (inr d) l p h r = receive-some x q f fs s d l p h.0 h.1 r
