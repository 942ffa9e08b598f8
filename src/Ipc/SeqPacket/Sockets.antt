-- ===== src/Ipc/SeqPacket/Sockets.antt =====
-- server/src/ipc/seqpacket.rs: making sockets and taking them over. A system call enters by its
-- result, or by the errno with which it failed.
use tere.Prelude.{
  ℕ, ◌≡◌, ◌≢◌, refl, ap, ◌⊎◌, inl, inr, Bool, true, false, List, [], ◌∷◌, ◌==◌, if◌then◌else◌,
  Outcome, ok, err, panic, Bool-cases, subst, arith,
}
use tere.Std.Fd.{RawFd, Table, close, Owns, close-Owns, opened, opened-Owns}
use tere.Ipc.{IoError}
use tere.Ipc.OwnedFd.{OwnedFd}

-- `UnixDatagram` and `SeqPacket` each own one descriptor.
pub record UnixDatagram : Type 0 where
  pub raw : RawFd

-- `From<UnixDatagram>` for `OwnedFd`
unfoldable of_datagram : UnixDatagram → OwnedFd
of_datagram f = record { raw = f.raw }

pub record SeqPacket : Type 0 where
  pub socket : UnixDatagram

pub data SocketConversionError : Type 0 where
  not_seq_packet : SocketConversionError

abbrev pub sock_dgram : ℕ
sock_dgram = 2

abbrev pub sock_seqpacket : ℕ
sock_seqpacket = 5

-- `socketpair(2)` returns two new descriptors.
unfoldable pub pair : IoError ⊎ (RawFd × RawFd) → Outcome IoError (UnixDatagram × UnixDatagram)
pair (inl e) = err e
pair (inr (a, b)) = ok (record { raw = a }, record { raw = b })

unfoldable pub seq_packet_pair :
    IoError ⊎ (RawFd × RawFd) → Outcome IoError (SeqPacket × UnixDatagram)
unfolding pair
seq_packet_pair fds = elim (pair fds) [
  | ok (a, b) ↦ ok (record { socket = a }, b)
  | err e ↦ err e
  | panic p ↦ panic p
]

-- `socket(2)`, and then `connect(2)` on the new descriptor; a failure of that drops the socket.
unfoldable pub connect :
    IoError ⊎ RawFd → (RawFd → IoError ⊎ Unit {0}) → Table → Outcome IoError SeqPacket × Table
connect (inl e) connect_to t = (err e, t)
connect (inr fd) connect_to t = elim (connect_to fd) [
  | inl e ↦ (err e, close fd t)
  | inr u ↦ (ok (record { socket = record { raw = fd } }), t)
]

-- `getsockopt(2)` of `SO_TYPE`, which may fail for a reason that the code does not look at.
unfoldable pub is_seq_packet : IoError ⊎ ℕ → Bool
is_seq_packet (inl e) = false
is_seq_packet (inr socket_type) = socket_type == sock_seqpacket

-- `TryFrom<UnixDatagram>`: a socket that is refused is dropped.
unfoldable pub try_from :
    (RawFd → IoError ⊎ ℕ) → UnixDatagram → Table → Outcome SocketConversionError SeqPacket × Table
unfolding is_seq_packet
try_from so_type socket t =
    if is_seq_packet (so_type socket.raw)
    then (ok (record { socket = socket }), t)
    else (err not_seq_packet, close socket.raw t)

not_seq : {r : IoError ⊎ ℕ} → is_seq_packet r ≡ false → r ≢ inr sock_seqpacket
unfolding is_seq_packet
not_seq e q = let odd : true ≡ false = subst (λ r. is_seq_packet r ≡ false) q e in cc

pub is_seq : (r : IoError ⊎ ℕ) → is_seq_packet r ≡ true → r ≡ inr sock_seqpacket
unfolding is_seq_packet
is_seq (inl e) h = cc
is_seq (inr n) h = let same : n ≡ sock_seqpacket = ground arith in ap inr same

-- The table of descriptors after socket(2).
abbrev pub after_socket : IoError ⊎ RawFd → Table → Table
after_socket (inl e) t = t
after_socket (inr fd) t = opened fd t

module _ (before : List RawFd) (bad : ℕ) where
  -- The result of a conversion by what `SO_TYPE` is.
  pub data Converted (so_type : IoError ⊎ ℕ) (socket : UnixDatagram)
      : Outcome SocketConversionError SeqPacket × Table → Type 0 where
    kept :
        {t : Table}
        → so_type ≡ inr sock_seqpacket
        → Owns (socket.raw ∷ []) before bad t
        → Converted so_type socket (ok (record { socket = socket }), t)
    refused :
        {t : Table}
        → so_type ≢ inr sock_seqpacket
        → Owns [] before bad t
        → Converted so_type socket (err not_seq_packet, t)

  -- A conversion succeeds exactly if `SO_TYPE` could be read and is `SOCK_SEQPACKET`, and then the
  -- same socket owns its descriptor; otherwise it fails with `NotSeqPacket` and has closed it, once.
  pub try_from-Converted :
      (so_type : RawFd → IoError ⊎ ℕ) (socket : UnixDatagram) (t : Table)
      → Owns (socket.raw ∷ []) before bad t
      → Converted (so_type socket.raw) socket (try_from so_type socket t)
  unfolding try_from
  try_from-Converted so_type socket t o = elim (Bool-cases (is_seq_packet (so_type socket.raw))) [
    | inl e ↦ rw e (kept (is_seq (so_type socket.raw) e) o)
    | inr e ↦ rw e (refused (not_seq e) (close-Owns socket.raw [] t o))
  ]

  -- The result of a connect by those of socket(2) and connect(2).
  pub data Connected (made : IoError ⊎ RawFd) (connect_to : RawFd → IoError ⊎ Unit {0})
      : Outcome IoError SeqPacket × Table → Type 0 where
    no_socket :
        {e : IoError} {t : Table}
        → made ≡ inl e
        → Owns [] before bad t
        → Connected made connect_to (err e, t)
    no_peer :
        {fd : RawFd} {e : IoError} {t : Table}
        → made ≡ inr fd
        → connect_to fd ≡ inl e
        → Owns [] before bad t
        → Connected made connect_to (err e, t)
    connected :
        {fd : RawFd} {t : Table}
        → made ≡ inr fd
        → connect_to fd ≡ inr tt
        → Owns (fd ∷ []) before bad t
        → Connected made connect_to (ok (record { socket = record { raw = fd } }), t)

  -- A connect returns a socket exactly if socket(2) and connect(2) both succeed, and the socket is
  -- the new descriptor, which it owns. If one of the calls fails, the connect returns the error of
  -- that call, and has closed a descriptor that it had made: the table is as it was before.
  pub connect-Connected :
      (made : IoError ⊎ RawFd) (connect_to : RawFd → IoError ⊎ Unit {0}) (t : Table)
      → Owns [] before bad t
      → Connected made connect_to (connect made connect_to (after_socket made t))
  unfolding connect
  connect-Connected (inl e) connect_to t o = no_socket refl o
  connect-Connected (inr fd) connect_to t o =
      at (connect_to fd) refl (opened-Owns before bad fd [] t o)
    where
      at :
          (r : IoError ⊎ Unit {0})
          → connect_to fd ≡ r
          → Owns (fd ∷ []) before bad (opened fd t)
          → Connected (inr fd) connect_to (connect (inr fd) connect_to (opened fd t))
      at (inl e) p o1 = rw (p, connect) (no_peer refl p (close-Owns fd [] (opened fd t) o1))
      at (inr u) p o1 = rw (p, connect) (connected refl p o1)
