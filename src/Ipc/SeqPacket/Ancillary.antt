-- ===== src/Ipc/SeqPacket/Ancillary.antt =====
-- The loop of server/src/ipc/seqpacket.rs that grows the ancillary buffer ends with one that fits.
use tere.Prelude.{ℕ, zero, suc, ◌+◌, ◌*◌, ◌≤◌, arith}
use tere.Ipc.SeqPacket.{grow, grow_fuel}

module _ (cmsg_space : ℕ → ℕ) (n : ℕ) where
  grow_fits :
      (fuel len : ℕ)
      → cmsg_space (4 * n) ≤ len + fuel
      → len ≤ cmsg_space (4 * n)
      → (cmsg_space (4 * n) ≤ grow cmsg_space fuel len n)
        × (grow cmsg_space fuel len n ≤ cmsg_space (4 * n) + 128)
  unfolding grow
  grow_fits zero len enough low = omega arith
  grow_fits (suc fuel) len enough low = ground (arith, grow_fits fuel (len + 128))

-- The loop ends within its fuel: it yields a buffer that has room for the space of `n`
-- descriptors, and at most 128 bytes more than that.
pub grow_bounds :
    (cmsg_space : ℕ → ℕ) (n : ℕ)
    → (cmsg_space (4 * n) ≤ grow cmsg_space (grow_fuel cmsg_space n) 0 n)
      × (grow cmsg_space (grow_fuel cmsg_space n) 0 n ≤ cmsg_space (4 * n) + 128)
grow_bounds cmsg_space n =
    grow_fits cmsg_space n (suc (cmsg_space (4 * n))) 0 (omega arith) (omega arith)
