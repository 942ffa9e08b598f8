-- ===== src/PtyMaster.antt =====
-- server/src/pty_master.rs: reading from and writing to the master side of a terminal. A system
-- call enters by what it returns and by the errno that it leaves.
use tere.Prelude.{ℕ, if◌then◌else◌, ◌&&◌, Outcome, ok, err, panic, debug_assert, Build}
use tere.Prelude.Int.{ℤ, pos, negsuc}
use tere.Std.Fd.{RawFd, is_negative, Table, close}
use tere.Ipc.{IoError}

pub record PtyMaster : Type 0 where
  pub raw : RawFd

unfoldable pub from_raw_fd : Build → RawFd → Outcome ⊥ PtyMaster
from_raw_fd b fd =
    if b.debug_assertions && is_negative fd then panic debug_assert else ok (record { raw = fd })

abbrev pub as_raw_fd : PtyMaster → RawFd
as_raw_fd self = self.raw

-- `mem::forget` keeps the destructor from running.
unfoldable pub into_raw_fd : PtyMaster → Table → RawFd × Table
into_raw_fd self t = (self.raw, t)

-- `Drop`: the result of `libc::close` is not looked at.
unfoldable pub drop : PtyMaster → Table → Table
drop self t = close self.raw t

-- What `libc::read` or `libc::write` returned, and `errno`.
pub record Returned : Type 0 where
  pub ret : ℤ
  pub errno : ℕ

abbrev as_usize : ℤ → ℕ
as_usize (pos n) = n
as_usize (negsuc n) = 0

-- The end that `read` and `write` share.
unfoldable pub io_result : Returned → Outcome IoError ℕ
io_result r = if is_negative r.ret then err (record { errno = r.errno }) else ok (as_usize r.ret)

-- `Read::read`: the kernel has filled the start of the buffer.
unfoldable pub read : Returned → Outcome IoError ℕ
unfolding io_result
read r = io_result r

unfoldable pub write : Returned → Outcome IoError ℕ
unfolding io_result
write r = io_result r

abbrev pub flush : Outcome IoError (Unit {0})
flush = ok tt

abbrev pub eio : ℕ
eio = 5

abbrev pub eintr : ℕ
eintr = 4

-- `std::io::ErrorKind::WriteZero`, which has no errno of its own.
pub data WriteError : Type 0 where
  write_zero : WriteError
  os : IoError → WriteError
