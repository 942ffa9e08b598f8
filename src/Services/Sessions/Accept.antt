-- ===== src/Services/Sessions/Accept.antt =====
-- `serve` of server/src/services/sessions/mod.rs: the loop over the connections that are accepted.
-- The results of `accept(2)` enter as a list, of which the loop takes one after the other.
use tere.Prelude.{
  ℕ, ◌≡◌, refl, ap, sym, true, false, ◌∙◌, ◌⊎◌, inl, inr, List, [], ◌∷◌, ◌++◌, map, append-nil,
  append_assoc, Outcome, ok, err, panic, expect, expect_outcome, arith, All, Bool-cases,
}
use tere.Std.Fd.{RawFd, Table, Owns, close-Owns, Owns-perm, count-append, opened, opened-Owns}
use tere.Ipc.{IoError}
use tere.Ipc.SeqPacket.Sockets.{SeqPacket, SocketConversionError, is_seq_packet, try_from}

-- The threads that were spawned, each with the connection that it serves.
pub record Accepting : Type 0 where
  pub table : Table
  pub spawned : List SeqPacket

module _ (so_type : RawFd → IoError ⊎ ℕ) where
  abbrev pub spawn : Outcome ⊥ SeqPacket → Accepting → Outcome ⊥ (Unit {0}) × Accepting
  spawn (ok conn) s = (ok tt, record s { spawned = s.spawned ++ conn ∷ [] })
  spawn (err e) s = absurd e
  spawn (panic p) s = (panic p, s)

  -- `SeqPacket::try_from(socket).expect(…)`, and a new thread.
  abbrev pub converted :
      Outcome SocketConversionError SeqPacket × Table → Accepting → Outcome ⊥ (Unit {0}) × Accepting
  converted r s = spawn (expect_outcome r.0) (record s { table = r.1 })

  -- One result of `incoming()`. An error is only printed.
  unfoldable pub accept_one : IoError ⊎ RawFd → Accepting → Outcome ⊥ (Unit {0}) × Accepting
  unfolding try_from opened
  accept_one (inl e) s = (ok tt, s)
  accept_one (inr fd) s = converted (try_from so_type (record { raw = fd }) (opened fd s.table)) s

  abbrev pub go_on :
      Outcome ⊥ (Unit {0}) × Accepting
      → (Accepting → Outcome ⊥ (Unit {0}) × Accepting)
      → Outcome ⊥ (Unit {0}) × Accepting
  go_on (ok u, s) k = k s
  go_on (err e, s) k = absurd e
  go_on (panic p, s) k = (panic p, s)

  -- `ok` means that all results of the list have been taken; the loop itself never ends.
  unfoldable pub serve : List (IoError ⊎ RawFd) → Accepting → Outcome ⊥ (Unit {0}) × Accepting
  unfolding accept_one
  serve [] s = (ok tt, s)
  serve (r ∷ rs) s = go_on (accept_one r s) (λ s'. serve rs s')

abbrev pub accepted : List (IoError ⊎ RawFd) → List RawFd
accepted [] = []
accepted (inl e ∷ rs) = accepted rs
accepted (inr fd ∷ rs) = fd ∷ accepted rs

abbrev pub conn_for : RawFd → SeqPacket
conn_for fd = record { socket = record { raw = fd } }

abbrev pub conn_fds : List SeqPacket → List RawFd
conn_fds [] = []
conn_fds (c ∷ cs) = c.socket.raw ∷ conn_fds cs

module _ (so_type : RawFd → IoError ⊎ ℕ) where
  abbrev pub IsSeqPacket : RawFd → Type 0
  IsSeqPacket fd = is_seq_packet (so_type fd) ≡ true

  -- The loop waits for more, and has spawned a thread for each connection of `fds`; or it has
  -- panicked at the first one that is not a `SOCK_SEQPACKET` one.
  pub data Served (fds : List RawFd) (s : Accepting) (r : Outcome ⊥ (Unit {0}) × Accepting)
      : Type 0 where
    waiting :
        r.0 ≡ ok tt
        → All IsSeqPacket fds
        → r.1.spawned ≡ s.spawned ++ map conn_for fds
        → Served fds s r
    stopped :
        (good : List RawFd) (fd : RawFd) (others : List RawFd)
        → fds ≡ good ++ fd ∷ others
        → is_seq_packet (so_type fd) ≡ false
        → r.0 ≡ panic expect
        → r.1.spawned ≡ s.spawned ++ map conn_for good
        → Served fds s r

  Served-cons :
      (fd : RawFd) (fds : List RawFd) (s s' : Accepting) (r : Outcome ⊥ (Unit {0}) × Accepting)
      → IsSeqPacket fd
      → s'.spawned ≡ s.spawned ++ conn_for fd ∷ []
      → Served fds s' r
      → Served (fd ∷ fds) s r
  Served-cons fd fds s s' r h e (waiting q all p) =
      waiting q (h, all)
        (p
          ∙ ap (λ l. l ++ map conn_for fds) e
          ∙ append_assoc s.spawned (conn_for fd ∷ []) (map conn_for fds))
  Served-cons fd fds s s' r h e (stopped good bad others q odd w p) =
      stopped (fd ∷ good) bad others (ap (λ l. fd ∷ l) q) odd w (
        p
        ∙ ap (λ l. l ++ map conn_for good) e
        ∙ append_assoc s.spawned (conn_for fd ∷ []) (map conn_for good))

  conn_fds-append :
      (cs : List SeqPacket) (c : SeqPacket)
      → conn_fds (cs ++ c ∷ []) ≡ conn_fds cs ++ c.socket.raw ∷ []
  conn_fds-append [] c = refl
  conn_fds-append (x ∷ cs) c = ap (λ l. x.socket.raw ∷ l) (conn_fds-append cs c)

  -- Of the connections that are accepted, a thread is spawned for each, in order, and errors of
  -- `accept` are passed over, until one is not a `SOCK_SEQPACKET` one: there the process panics.
  -- At every point the descriptors that are open, beside those from before, are those of the
  -- spawned threads.
  pub serve-Served :
      (before : List RawFd) (bad : ℕ) (rs : List (IoError ⊎ RawFd)) (s : Accepting)
      → Owns (conn_fds s.spawned) before bad s.table
      → Served (accepted rs) s (serve so_type rs s)
        × Owns (conn_fds (serve so_type rs s).1.spawned) before bad (serve so_type rs s).1.table
  unfolding serve
  serve-Served before bad [] s o = (waiting refl tt (sym (append-nil s.spawned)), o)
  serve-Served before bad (inl e ∷ rs) s o = serve-Served before bad rs s o
  serve-Served before bad (inr fd ∷ rs) s o =
      let o' = opened-Owns before bad fd (conn_fds s.spawned) s.table o in
      let s' : Accepting = record {
        table = opened fd s.table;
        spawned = s.spawned ++ conn_for fd ∷ [];
      } in
      elim (Bool-cases (is_seq_packet (so_type fd))) [
        | inl seq ↦
            let back = conn_fds-append s.spawned (conn_for fd) in
            let o'' : Owns (conn_fds s'.spawned) before bad s'.table =
              Owns-perm (fd ∷ conn_fds s.spawned) (conn_fds s'.spawned) s'.table
                (λ x. rw back (ground (arith, count-append x (conn_fds s.spawned) (fd ∷ [])))) o' in
            let rest = serve-Served before bad rs s' o'' in
            rw seq (Served-cons fd (accepted rs) s s' _ seq refl rest.0, rest.1)
        | inr other ↦ rw other (
          stopped [] fd (accepted rs) refl other refl (sym (append-nil s.spawned)),
          close-Owns fd (conn_fds s.spawned) (opened fd s.table) o',
        )
      ]
