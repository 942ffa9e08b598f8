-- ===== src/Ipc/SeqPacket.antt =====
-- server/src/ipc/seqpacket.rs: messages over a `SOCK_SEQPACKET` socket. Each system call enters by
-- its result; the table of descriptors is that after the call.
pub mod Ownership
pub mod Receive
pub mod RoundTrip
pub mod Ancillary
pub mod ThreadLocals
pub mod SmallKernel
mod UnitTests
pub mod Sockets
pub mod Link
pub mod Fifo
use tere.Prelude.{
  ℕ, zero, suc, ◌+◌, ◌*◌, ◌≡◌, refl, ◌⊎◌, inl, inr, Bool, true, false, not, List, [], ◌∷◌, ◌++◌,
  map, leb, ◌==◌, if◌then◌else◌, length, Outcome, ok, err, panic, Build,
}
use tere.Std.Fd.{RawFd, Table, close}
use tere.Ipc.{AncillaryError, IoError, SendError, ReceiveError, Shutdown, ShutdownError}
use tere.Ipc.Bincode.{Bytes, Bincode, BincodeError}
use tere.Ipc.OwnedFd.{OwnedFd, own_all, drop_fds}
use tere.Ipc.PassFd.{Thread, gather_fds_to_vec, scatter_fds_from_vec_deque}
use tere.Ipc.Message.{Message, Fields, serialize_fields, deserialize_message, drop_message}

-- What `sendmsg` is given: the bytes, the descriptors, and the size of the ancillary buffer.
pub record Packet : Type 0 where
  pub encoded : Bytes
  pub fds : List RawFd
  pub ancillary_size : ℕ

-- `SocketAncillary::add_fds` on a fresh buffer of `len` bytes, for `n` descriptors of four bytes.
abbrev pub add_fds : (ℕ → ℕ) → (len n : ℕ) → Bool
add_fds cmsg_space len n = leb (cmsg_space (4 * n)) len

-- The loop that grows the ancillary buffer, 128 bytes a round; it returns the size. `cmsg_space` is
-- `libc::CMSG_SPACE`. The fuel bounds the rounds.
unfoldable pub grow : (ℕ → ℕ) → (fuel len n : ℕ) → ℕ
grow cmsg_space zero len n = len
grow cmsg_space (suc fuel) len n =
    let rest = grow cmsg_space fuel (len + 128) n in
    if add_fds cmsg_space (len + 128) n then len + 128 else rest

abbrev pub grow_fuel : (ℕ → ℕ) → ℕ → ℕ
grow_fuel cmsg_space n = suc (cmsg_space (4 * n))

-- `?` on the result of the closure, and the ancillary buffer.
abbrev pub pack :
    (ℕ → ℕ)
    → Outcome ⊥ ((BincodeError ⊎ Bytes) × List RawFd) × Thread
    → Outcome SendError Packet × Thread
pack cmsg_space (ok (inl e, fds), t) = (err (SendError.serialize e), t)
pack cmsg_space (ok (inr encoded, fds), t) = (
  ok (record {
    encoded = encoded;
    fds = fds;
    ancillary_size = grow cmsg_space (grow_fuel cmsg_space (length fds)) 0 (length fds);
  }),
  t,
)
pack cmsg_space (err e, t) = absurd e
pack cmsg_space (panic p, t) = (panic p, t)

-- `.map_err(ipc::SendError::Socket)`
abbrev pub sent :
    (Packet → IoError ⊎ Unit {0})
    → Outcome SendError Packet × Thread
    → Outcome SendError (Unit {0}) × Thread
sent sendmsg (ok p, t) = elim (sendmsg p) [
  | inl e ↦ (err (SendError.socket e), t)
  | inr u ↦ (ok tt, t)
]
sent sendmsg (err e, t) = (err e, t)
sent sendmsg (panic p, t) = (panic p, t)

-- What `recvmsg` hands over. `data` is the part of the buffer that it filled, `truncated` its flag
-- for more data than the buffer holds.
pub data AncillaryData : Type 0 where
  scm_rights : List RawFd → AncillaryData
  scm_credentials : AncillaryData

pub record Delivery : Type 0 where
  pub data_read : Bytes
  pub truncated : Bool
  pub messages : List (AncillaryError ⊎ AncillaryData)
  pub ancillary_truncated : Bool

-- The `filter_map` and `flatten` over the ancillary messages.
abbrev pub rights_of : AncillaryError ⊎ AncillaryData → List RawFd
rights_of (inl e) = []
rights_of (inr (scm_rights rights)) = rights
rights_of (inr scm_credentials) = []

unfoldable pub delivered_fds : List (AncillaryError ⊎ AncillaryData) → List RawFd
delivered_fds [] = []
delivered_fds (m ∷ ms) = rights_of m ++ delivered_fds ms

-- An error return drops the queue of received descriptors.
abbrev pub dropping : List OwnedFd → Thread → Thread
dropping fds t = record t { table = drop_fds fds t.table }

module _ (c : Bincode) (cmsg_space : ℕ → ℕ) (b : Build) (m : Message) where
  unfoldable pub prepare : Fields m.slots → Thread → Outcome SendError Packet × Thread
  unfolding gather_fds_to_vec
  prepare message t =
      pack cmsg_space (gather_fds_to_vec b [] (λ t'. serialize_fields c m.slots message [] t') t)

  unfoldable pub send_with_fds :
      (Packet → IoError ⊎ Unit {0})
      → Fields m.slots
      → Thread
      → Outcome SendError (Unit {0}) × Thread
  unfolding prepare
  send_with_fds sendmsg message t = sent sendmsg (prepare message t)

  -- The end of `receive_with_fds`: `orig` descriptors came, and the second part of the result of
  -- the scatter call is left. A message that is refused is dropped, and so is what is left.
  abbrev pub check_left :
      ℕ
      → Outcome ⊥ ((BincodeError ⊎ Fields m.slots) × List OwnedFd) × Thread
      → Outcome ReceiveError (Fields m.slots) × Thread
  check_left orig (ok (inl e, left), t) = (err (ReceiveError.deserialize e), dropping left t)
  check_left orig (ok (inr message, []), t) = (ok message, t)
  check_left orig (ok (inr message, f ∷ left), t) = (
    err (ReceiveError.too_many_fds orig (length (f ∷ left))),
    dropping (f ∷ left) (record t { table = drop_message m.slots message t.table }),
  )
  check_left orig (err e, t) = absurd e
  check_left orig (panic p, t) = (panic p, t)

  abbrev pub read_message :
      Delivery → Outcome ⊥ (List OwnedFd) → Thread → Outcome ReceiveError (Fields m.slots) × Thread
  read_message d (ok fds) t =
      if d.ancillary_truncated
      then (
        err (ReceiveError.ancillary_truncated m.max_fds (cmsg_space (4 * m.max_fds))),
        dropping fds t,
      )
      else check_left (length fds)
          (scatter_fds_from_vec_deque b fds (λ t'. deserialize_message c m.slots d.data_read t') t)
  read_message d (err e) t = absurd e
  read_message d (panic p) t = (panic p, t)

  unfoldable pub receive_with_fds :
      IoError ⊎ Delivery → Thread → Outcome ReceiveError (Fields m.slots) × Thread
  unfolding scatter_fds_from_vec_deque
  receive_with_fds (inl e) t = (err (ReceiveError.socket e), t)
  receive_with_fds (inr d) t =
      if d.truncated
      then (err ReceiveError.too_large, t)
      else if length d.data_read == 0
      then (err ReceiveError.end, t)
      else read_message d (own_all b (delivered_fds d.messages)) t

unfoldable pub shutdown :
    (Shutdown → IoError ⊎ Unit {0}) → Shutdown → Outcome ShutdownError (Unit {0})
shutdown syscall how = elim (syscall how) [
  | inl source ↦ err (ShutdownError.io how source)
  | inr u ↦ ok tt
]
