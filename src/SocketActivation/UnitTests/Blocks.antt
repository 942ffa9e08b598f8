-- ===== src/SocketActivation/UnitTests/Blocks.antt =====
-- server/src/socket_activation.rs, the unit tests' `dup_pack_fds`: duplicates of descriptors with
-- consecutive numbers.
pub mod Packing
use tere.Prelude.{
  ℕ, zero, suc, ◌+◌, ◌%◌, ◌≡◌, ◌≢◌, ◌≤◌, ◌<◌, ◌⊎◌, Bool, true, false, Option, none, some, List, [],
  ◌∷◌, ◌++◌, if◌then◌else◌, ◌==◌, ltb, Outcome, ok, err, panic, slice_index, arithmetic_overflow,
  Build, length,
}
use tere.Prelude.Int.{pos, int_eq}
use tere.Std.Number.{usize_limit}
use tere.Std.Fd.{RawFd, is_negative, Table, opened, count}
use tere.Ipc.OwnedFd.{OwnedFd, from_raw_fd, drop_fd, drop_fds}

-- `libc::fcntl(fd, libc::F_DUPFD_CLOEXEC, offset)` and the `errno` that it leaves.
abbrev pub Fcntl : Type 0
Fcntl = RawFd → ℕ → Table → RawFd × ℕ

-- The documented result: an error, or the lowest unused number from `offset` on.
pub data Lowest (offset : ℕ) (t : Table) : RawFd → Type 0 where
  failed : {ret : RawFd} → is_negative ret ≡ true → Lowest offset t ret
  lowest :
      (m : ℕ)
      → offset ≤ m
      → count (pos m) t.open_fds ≡ 0
      → ((j : ℕ) → offset ≤ j → j < m → count (pos j) t.open_fds ≢ 0)
      → Lowest offset t (pos m)

-- The counter OFFSET and the table of descriptors.
pub record Process : Type 0 where
  pub offset : ℕ
  pub table : Table

-- `offset + idx` on `usize`
unfoldable pub usize_add : Build → ℕ → ℕ → Outcome ⊥ ℕ
usize_add b m n =
    if ltb (m + n) usize_limit
    then ok (m + n)
    else if b.overflow_checks
    then panic arithmetic_overflow
    else ok ((m + n) % usize_limit)

abbrev pub Packed : Type 0
Packed = Outcome ℕ (Option (List OwnedFd)) × Table

module _ (b : Build) (fcntl : Fcntl) where
  abbrev pub duplicated : RawFd × ℕ → Table → Outcome ℕ OwnedFd × Table
  duplicated (ret, errno) t = if is_negative ret then (err errno, t) else elim (from_raw_fd b ret) [
    | ok new ↦ (ok new, opened ret t)
    | err e ↦ absurd e
    | panic p ↦ (panic p, opened ret t)
  ]

  unfoldable pub dupfd_at : RawFd → ℕ → Table → Outcome ℕ OwnedFd × Table
  unfolding from_raw_fd
  dupfd_at fd offset t = duplicated (fcntl fd offset t) t

  -- The `?` and the test that follow the call of `dupfd_at`. An early end drops `packed`.
  abbrev pub placed :
      ℕ → List OwnedFd → Outcome ℕ OwnedFd × Table → (OwnedFd → Table → Packed) → Packed
  placed fd_num packed (ok new, t) rest =
      if int_eq new.raw (pos fd_num) then rest new t else (ok none, drop_fds packed (drop_fd new t))
  placed fd_num packed (err e, t) rest = (err e, drop_fds packed t)
  placed fd_num packed (panic p, t) rest = (panic p, drop_fds packed t)

  -- The round for one descriptor, given the later ones.
  unfoldable pub pack_one :
      Outcome ⊥ ℕ → RawFd → List OwnedFd → Table → (OwnedFd → Table → Packed) → Packed
  unfolding dupfd_at
  pack_one (ok fd_num) fd packed t rest = placed fd_num packed (dupfd_at fd fd_num t) rest
  pack_one (err e) fd packed t rest = absurd e
  pack_one (panic p) fd packed t rest = (panic p, drop_fds packed t)

  -- The inner loop: `ok none` is `continue 'top`.
  unfoldable pub pack : ℕ → ℕ → List RawFd → List OwnedFd → Table → Packed
  unfolding pack_one usize_add
  pack offset idx [] packed t = (ok (some packed), t)
  pack offset idx (fd ∷ fds) packed t =
      pack_one (usize_add b offset idx) fd packed t
        (λ new t'. pack offset (idx + 1) fds (packed ++ new ∷ []) t')

  abbrev pub tried :
      ℕ
      → Packed
      → (Process → Option (Outcome ℕ (List OwnedFd)) × Process)
      → Option (Outcome ℕ (List OwnedFd)) × Process
  tried next (ok none, t) rest = rest (record { offset = next; table = t })
  tried next (ok (some packed), t) rest = (some (ok packed), record { offset = next; table = t })
  tried next (err e, t) rest = (some (err e), record { offset = next; table = t })
  tried next (panic p, t) rest = (some (panic p), record { offset = next; table = t })

  -- `none` means that the fuel ran out.
  unfoldable pub dup_pack_fds :
      ℕ → List RawFd → Process → Option (Outcome ℕ (List OwnedFd)) × Process
  unfolding pack
  dup_pack_fds zero fds s = (none, s)
  dup_pack_fds (suc fuel) fds s =
      tried ((s.offset + length fds) % usize_limit) (pack s.offset 0 fds [] s.table)
        (λ s'. dup_pack_fds fuel fds s')

-- `FdBlock::start`
unfoldable pub start : List OwnedFd → Outcome ⊥ RawFd
start [] = panic slice_index
start (f ∷ fs) = ok f.raw
