-- ===== src/Ipc/OwnedFd.antt =====
-- server/src/ipc/ownedfd.rs, and server/src/pty_master.rs as far as it is the same: a descriptor
-- with an owner, which is closed when the owner is dropped.
pub mod UnitTests
use tere.Prelude.{
  ◌≡◌, refl, false, List, [], ◌∷◌, if◌then◌else◌, ◌&&◌, arith, Outcome, ok, err, panic,
  debug_assert, Build, All,
}
use tere.Std.Fd.{RawFd, is_negative, Table, close, close_all}

pub record OwnedFd : Type 0 where
  pub raw : RawFd

-- `std::fs::File`, `UnixStream` and `UnixDatagram` each own a descriptor too.
pub record File : Type 0 where
  pub raw : RawFd

pub record UnixStream : Type 0 where
  pub raw : RawFd

unfoldable pub from_raw_fd : Build → RawFd → Outcome ⊥ OwnedFd
from_raw_fd b fd =
    if b.debug_assertions && is_negative fd then panic debug_assert else ok (record { raw = fd })

abbrev pub as_raw_fd : OwnedFd → RawFd
as_raw_fd self = self.raw

-- `mem::forget` keeps the destructor from running, so the table stays as it is.
unfoldable pub into_raw_fd : OwnedFd → Table → RawFd × Table
into_raw_fd self t = (self.raw, t)

-- `Drop`: the result of `libc::close` is not looked at.
unfoldable pub drop_fd : OwnedFd → Table → Table
drop_fd self t = close self.raw t

unfoldable pub of_file : File → OwnedFd
of_file f = record { raw = f.raw }

unfoldable pub to_file : OwnedFd → Table → File × Table
unfolding into_raw_fd
to_file f t = let (fd, t') = into_raw_fd f t in (record { raw = fd }, t')

-- A file that becomes an owned descriptor and then a file again is the same file, and nothing is
-- closed on the way.
pub to_file-of_file : (f : File) (t : Table) → to_file (of_file f) t ≡ (f, t)
unfolding to_file of_file
to_file-of_file f t = refl

unfoldable of_stream : UnixStream → OwnedFd
of_stream f = record { raw = f.raw }

unfoldable to_stream : OwnedFd → Table → UnixStream × Table
unfolding into_raw_fd
to_stream f t = let (fd, t') = into_raw_fd f t in (record { raw = fd }, t')

-- The same for a stream.
to_stream-of_stream : (f : UnixStream) (t : Table) → to_stream (of_stream f) t ≡ (f, t)
unfolding to_stream of_stream
to_stream-of_stream f t = refl

abbrev pub raws : List OwnedFd → List RawFd
raws [] = []
raws (f ∷ fs) = f.raw ∷ raws fs

-- Dropping a queue drops each of its descriptors, from the front.
unfoldable pub drop_fds : List OwnedFd → Table → Table
drop_fds [] t = t
drop_fds (f ∷ fs) t = drop_fds fs (drop_fd f t)

pub drop_fds-close_all : (fs : List OwnedFd) (t : Table) → drop_fds fs t ≡ close_all (raws fs) t
unfolding drop_fds drop_fd close_all
drop_fds-close_all [] t = refl
drop_fds-close_all (f ∷ fs) t = drop_fds-close_all fs (close f.raw t)

abbrev pub own_first : Outcome ⊥ OwnedFd → Outcome ⊥ (List OwnedFd) → Outcome ⊥ (List OwnedFd)
own_first (ok f) (ok fs) = ok (f ∷ fs)
own_first (ok f) (err e) = absurd e
own_first (ok f) (panic p) = panic p
own_first (err e) r = absurd e
own_first (panic p) r = panic p

-- `.map(|fd| unsafe { OwnedFd::from_raw_fd(fd) }).collect()`
unfoldable pub own_all : Build → List RawFd → Outcome ⊥ (List OwnedFd)
unfolding from_raw_fd
own_all b [] = ok []
own_all b (fd ∷ fds) = own_first (from_raw_fd b fd) (own_all b fds)

abbrev pub owners : List RawFd → List OwnedFd
owners [] = []
owners (fd ∷ fds) = record { raw = fd } ∷ owners fds

pub own_all-owners :
    (b : Build) (fds : List RawFd)
    → All (λ fd. is_negative fd ≡ false) fds
    → own_all b fds ≡ ok (owners fds)
unfolding own_all
own_all-owners b [] h = refl
own_all-owners b (fd ∷ fds) h = ground (arith, own_all-owners b fds h.1)

pub raws-owners : (fds : List RawFd) → raws (owners fds) ≡ fds
raws-owners [] = refl
raws-owners (fd ∷ fds) = rw (raws-owners fds)
