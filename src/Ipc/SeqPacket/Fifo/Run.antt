-- ===== src/Ipc/SeqPacket/Fifo/Run.antt =====
-- Any sends and receives of server/src/ipc/seqpacket.rs over one connection.
use tere.Prelude.{
  ℕ, ◌≡◌, ◌≤◌, refl, sym, ap, ◌∙◌, List, [], ◌∷◌, ◌++◌, Outcome, ok, err, panic, Panic, Build,
  append-nil, append_assoc,
}
use tere.Ipc.{SendError, ReceiveError}
use tere.Ipc.Bincode.{Bincode, IsLawful}
use tere.Ipc.Message.{Message, Fields}
use tere.Ipc.SeqPacket.Link.{Kernel, View, IsSeqPacketSocket, Peers, send, receive}
use tere.Ipc.SeqPacket.Fifo.Sending.{send-Sent}
use tere.Ipc.SeqPacket.Fifo.Receiving.{receive-Received}
use tere.Ipc.SeqPacket.Fifo.{Held, resolve, Fits, Linked, Sent, Received}

-- What a call adds to the messages that have been sent, or received.
abbrev pub sent_by : {A : Type 0} → Outcome SendError (Unit {0}) → A → List A
sent_by (ok u) x = x ∷ []
sent_by (err e) x = []
sent_by (panic p) x = []

module _ {K F : Type 0} (kernel : Kernel K) (v : View K F) (c : Bincode) (cmsg_space : ℕ → ℕ)
    (b : Build) (m : Message) where
  abbrev pub received_by : Outcome ReceiveError (Fields m.slots) × Peers K → List (Held F m.slots)
  received_by (ok message, s) = resolve (v.receiver_file s.socket) m.slots message ∷ []
  received_by (err e, s) = []
  received_by (panic p, s) = []

  -- From `s₀`, after any calls in any order: the messages sent and the messages received so far.
  pub data Calls (s₀ : Peers K) : Peers K → (sent received : List (Held F m.slots)) → Type 0 where
    none_yet : Calls s₀ s₀ [] []
    sends :
        {s : Peers K} {xs ys : List (Held F m.slots)}
        → Calls s₀ s xs ys
        → (message : Fields m.slots) → Fits c m message
        → Calls s₀
            (send kernel c cmsg_space b m message s).1
            (xs
              ++ sent_by
                  (send kernel c cmsg_space b m message s).0
                  (resolve (v.sender_file s.socket) m.slots message))
            ys
    receives :
        {s : Peers K} {xs ys : List (Held F m.slots)}
        → Calls s₀ s xs ys
        → Calls s₀
            (receive kernel c cmsg_space b m s).1
            xs
            (ys ++ received_by (receive kernel c cmsg_space b m s))

  -- What has been sent and not received is the queue.
  abbrev pub InOrder : Peers K → (sent received : List (Held F m.slots)) → Type 0
  InOrder s xs ys = (queue : List (Held F m.slots)) × (xs ≡ ys ++ queue) × Linked v c m queue s

  InOrder-send :
      (xs ys queue : List (Held F m.slots)) (x : Held F m.slots)
      (r : Outcome SendError (Unit {0}) × Peers K)
      → xs ≡ ys ++ queue
      → Sent v c m queue x r
      → InOrder r.1 (xs ++ sent_by r.0 x) ys
  InOrder-send xs ys queue x (ok u, s) e l =
      (queue ++ x ∷ [], ap (λ l. l ++ x ∷ []) e ∙ append_assoc ys queue (x ∷ []), l)
  InOrder-send xs ys queue x (err n, s) e l = (queue, append-nil xs ∙ e, l)
  InOrder-send xs ys queue x (panic p, s) e l = absurd l

  Received-Linked :
      (queue : List (Held F m.slots)) (n : ReceiveError) (s : Peers K)
      → Received v c m queue (err n, s)
      → Linked v c m queue s
  Received-Linked [] ReceiveError.end s h = h
  Received-Linked [] (ReceiveError.socket e) s h = h
  Received-Linked [] ReceiveError.too_large s h = absurd h
  Received-Linked [] (ReceiveError.deserialize e) s h = absurd h
  Received-Linked [] (ReceiveError.ancillary e) s h = absurd h
  Received-Linked [] (ReceiveError.ancillary_truncated a z) s h = absurd h
  Received-Linked [] (ReceiveError.too_many_fds a z) s h = absurd h
  Received-Linked (x ∷ queue) ReceiveError.end s h = absurd h
  Received-Linked (x ∷ queue) (ReceiveError.socket e) s h = h
  Received-Linked (x ∷ queue) ReceiveError.too_large s h = absurd h
  Received-Linked (x ∷ queue) (ReceiveError.deserialize e) s h = absurd h
  Received-Linked (x ∷ queue) (ReceiveError.ancillary e) s h = absurd h
  Received-Linked (x ∷ queue) (ReceiveError.ancillary_truncated a z) s h = absurd h
  Received-Linked (x ∷ queue) (ReceiveError.too_many_fds a z) s h = absurd h

  Received-panic :
      (queue : List (Held F m.slots)) (p : Panic) (s : Peers K)
      → ¬ Received v c m queue (panic p, s)
  Received-panic [] p s h = h
  Received-panic (x ∷ queue) p s h = h

  InOrder-receive :
      (xs ys queue : List (Held F m.slots)) (r : Outcome ReceiveError (Fields m.slots) × Peers K)
      → xs ≡ ys ++ queue
      → Received v c m queue r
      → InOrder r.1 xs (ys ++ received_by r)
  InOrder-receive xs ys [] (ok message, s) e l = absurd l
  InOrder-receive xs ys (x ∷ queue) (ok message, s) e (same, l) =
      let now = resolve (v.receiver_file s.socket) m.slots message in
      (queue, e ∙ ap (λ h. ys ++ h ∷ queue) (sym same) ∙ sym (append_assoc ys (now ∷ []) queue), l)
  InOrder-receive xs ys queue (err n, s) e l =
      (queue, e ∙ ap (λ z. z ++ queue) (sym (append-nil ys)), Received-Linked queue n s l)
  InOrder-receive xs ys queue (panic p, s) e l = absurd (Received-panic queue p s l)

  module _ (law : IsSeqPacketSocket kernel v cmsg_space) (lawful : IsLawful c)
      (monotone : (x y : ℕ) → x ≤ y → cmsg_space x ≤ cmsg_space y) where
    -- Over a connection that starts with nothing on its way, after any sends and receives in any
    -- order, failed ones included: the messages received are the first of those that were sent, in
    -- that order, each with the same plain values and the same open files, and the others are still
    -- on their way. This supposes that the messages fit their types, and a kernel and a bincode that
    -- keep their laws.
    pub Calls-InOrder :
        (s₀ s : Peers K) (xs ys : List (Held F m.slots))
        → Linked v c m [] s₀
        → Calls s₀ s xs ys
        → InOrder s xs ys
    Calls-InOrder s₀ s xs ys start none_yet = ([], refl, start)
    Calls-InOrder s₀ s xs ys start (sends {s = s'} {xs = xs'} before message fits) =
        let (queue, e, l) = Calls-InOrder s₀ s' xs' ys start before in
        InOrder-send xs' ys queue _ _ e
          (send-Sent kernel v c cmsg_space b m law lawful queue message s' l fits)
    Calls-InOrder s₀ s xs ys start (receives {s = s'} {ys = ys'} before) =
        let (queue, e, l) = Calls-InOrder s₀ s' xs ys' start before in
        InOrder-receive xs ys' queue _ e
          (receive-Received kernel v c cmsg_space b m law lawful monotone queue s' l)
