-- ===== src/Ipc/Examples.antt =====
-- The theorems of server/src/ipc at messages of the pty service.
use tere.Prelude.{
  ℕ, ◌+◌, ◌≡◌, refl, ◌⊎◌, inl, inr, true, false, none, ◌≤◌, ◌*◌, List, [], ◌∷◌, arith, ok, Build,
}
use tere.Prelude.Int.{pos}
use tere.Std.Fd.{RawFd, Owns}
use tere.Ipc.{IoError}
use tere.Ipc.Message
use tere.Ipc.SeqPacket
use tere.Ipc.SeqPacket.Sockets
use tere.Ipc.SmallCodec.{small, small-IsLawful}
use tere.Ipc.PassFd.{Thread}
use tere.Ipc.Message.{Message, Fields, fds_of}
use tere.Ipc.SeqPacket.{
  Packet, Delivery, AncillaryData, scm_rights, delivered_fds, prepare, receive_with_fds,
}
use tere.Ipc.SeqPacket.Receive.{Accounts, receive_with_fds-Accounts, receive_with_fds-leaks}
use tere.Ipc.SeqPacket.RoundTrip.{send-receive}
use tere.Ipc.SeqPacket.Ancillary.{grow_bounds}
use tere.Ipc.SeqPacket.Sockets.{
  UnixDatagram, Converted, Connected, after_socket, sock_seqpacket, try_from, connect,
  try_from-Converted, connect-Connected,
}
use tere.Proto.Pty.{init}

abbrev debug : Build
debug = record { overflow_checks = true; debug_assertions = true }

-- `CMSG_SPACE` on a 64-bit machine.
abbrev cmsg_space : ℕ → ℕ
cmsg_space n = 16 + n

grow_bounds_example :
    (cmsg_space (4 * 50) ≤ SeqPacket.grow cmsg_space (SeqPacket.grow_fuel cmsg_space 50) 0 50)
    × (SeqPacket.grow cmsg_space (SeqPacket.grow_fuel cmsg_space 50) 0 50
        ≤ cmsg_space (4 * 50) + 128)
grow_bounds_example = grow_bounds cmsg_space 50

abbrev idle : List RawFd → Thread
idle fds = record {
  table = record { open_fds = fds; bad_closes = 0 };
  oob_ser = none;
  oob_de = none;
}

abbrev init_packet : Packet
init_packet = record { encoded = 7 ∷ []; fds = pos 5 ∷ []; ancillary_size = 128 }

prepare-init :
    prepare small cmsg_space debug init (7, (pos 5, tt)) (idle []) ≡ (ok init_packet, idle [])
unfolding prepare SeqPacket.grow Message.serialize_fields
prepare-init = refl

-- The kernel made descriptor 9 of the sender's 5.
abbrev init_delivery : Delivery
init_delivery = record {
  data_read = 7 ∷ [];
  truncated = false;
  messages = inr (scm_rights (pos 9 ∷ [])) ∷ [];
  ancillary_truncated = false;
}

send-receive_example :
    receive_with_fds small cmsg_space debug init (inr init_delivery) (idle (pos 9 ∷ []))
    ≡ (ok (7, (pos 9, tt)), idle (pos 9 ∷ []))
unfolding delivered_fds
send-receive_example =
    send-receive small cmsg_space debug init (pos 9 ∷ []) (7, (pos 5, tt)) (idle []) (idle [])
      (idle (pos 9 ∷ [])) init_packet init_delivery small-IsLawful refl prepare-init (λ e. cc) refl
      refl refl refl refl (refl, tt) refl

-- Two descriptors came, and the message takes one.
abbrev extra_delivery : Delivery
extra_delivery = record {
  data_read = 7 ∷ [];
  truncated = false;
  messages = inr (scm_rights (pos 8 ∷ pos 9 ∷ [])) ∷ [];
  ancillary_truncated = false;
}

extra_owned : Owns (pos 8 ∷ pos 9 ∷ []) (pos 3 ∷ []) 0 (idle (pos 8 ∷ pos 9 ∷ pos 3 ∷ [])).table
extra_owned = record { counts = λ x. ground arith; clean = refl }

receive_with_fds-Accounts_example : Accounts init (pos 8 ∷ pos 9 ∷ []) (pos 3 ∷ []) 0 (
    receive_with_fds small cmsg_space debug init
      (inr extra_delivery)
      (idle (pos 8 ∷ pos 9 ∷ pos 3 ∷ [])))
unfolding delivered_fds
receive_with_fds-Accounts_example =
    receive_with_fds-Accounts small cmsg_space debug init (pos 3 ∷ []) 0 extra_delivery
      (idle (pos 8 ∷ pos 9 ∷ pos 3 ∷ [])) refl (λ e. cc) (refl, (refl, tt)) refl extra_owned

abbrev cut_delivery : Delivery
cut_delivery = record extra_delivery { truncated = true }

receive_with_fds-leaks_example :
    ¬ Owns []
      (pos 3 ∷ [])
      0
      (receive_with_fds small cmsg_space debug init
        (inr cut_delivery)
        (idle (pos 8 ∷ pos 9 ∷ pos 3 ∷ []))).1.table
unfolding delivered_fds
receive_with_fds-leaks_example =
    receive_with_fds-leaks small cmsg_space debug init (pos 3 ∷ []) 0 cut_delivery
      (idle (pos 8 ∷ pos 9 ∷ pos 3 ∷ [])) (inl refl) (λ e. cc) extra_owned

abbrev dgram : RawFd → IoError ⊎ ℕ
dgram fd = inr Sockets.sock_dgram

one_owned : Owns (pos 4 ∷ []) [] 0 (idle (pos 4 ∷ [])).table
one_owned = record { counts = λ x. ground arith; clean = refl }

try_from-Converted_example :
    Converted [] 0
      (dgram (pos 4))
      (record { raw = pos 4 })
      (try_from dgram (record { raw = pos 4 }) (idle (pos 4 ∷ [])).table)
try_from-Converted_example =
    try_from-Converted [] 0 dgram (record { raw = pos 4 }) (idle (pos 4 ∷ [])).table one_owned

none_owned : Owns [] [] 0 (idle []).table
none_owned = record { counts = λ x. ground arith; clean = refl }

abbrev refusing : RawFd → IoError ⊎ Unit {0}
refusing fd = inl (record { errno = 111 })

connect-Connected_example :
    Connected [] 0
      (inr (pos 4))
      refusing
      (connect (inr (pos 4)) refusing (after_socket (inr (pos 4)) (idle []).table))
connect-Connected_example = connect-Connected [] 0 (inr (pos 4)) refusing (idle []).table none_owned
