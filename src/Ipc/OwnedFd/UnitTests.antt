-- ===== src/Ipc/OwnedFd/UnitTests.antt =====
-- The unit tests in server/src/ipc/ownedfd.rs. The crate memfd and the files of the kernel are an
-- interface.
use tere.Prelude.{
  ℕ, ◌≡◌, refl, false, Option, some, List, [], ◌==◌, codes, bytes_eq, if◌then◌else◌, Outcome, ok,
  err, panic, explicit, expect_outcome, Build, arith, Bool-cases, inl, inr,
}
use tere.Std.Fd.{
  RawFd, is_negative, Table, count, opened, close, Owns, count_self, opened-Owns, close-Owns,
}
use tere.Ipc.{IoError}
use tere.Ipc.Bincode.{Bytes}
use tere.Ipc.OwnedFd.{OwnedFd, from_raw_fd, into_raw_fd, of_file, to_file}

-- Over the kernel's files `M`. A read needs an open descriptor, and starts where the last one ended.
pub record Files (M : Type 0) : Type 0 where
  pub create : M → RawFd × M
  pub write_all_at : RawFd → Bytes → ℕ → M → Outcome IoError (Unit {0}) × M
  pub read_to_end : RawFd → Table → M → Outcome IoError Bytes × M

-- `contents` are those of a file that has not been read from.
pub record IsLawfulFiles {M : Type 0} (f : Files M) (contents : M → RawFd → Option Bytes)
    : Type 0 where
  pub created : (m : M) → contents (f.create m).1 (f.create m).0 ≡ some []
  pub nonnegative : (m : M) → is_negative (f.create m).0 ≡ false
  pub written :
      (m : M) (fd : RawFd) (bs : Bytes)
      → contents m fd ≡ some []
      → ((f.write_all_at fd bs 0 m).0 ≡ ok tt)
        × (contents (f.write_all_at fd bs 0 m).1 fd ≡ some bs)
  pub read :
      (m : M) (t : Table) (fd : RawFd) (bs : Bytes)
      → contents m fd ≡ some bs
      → (count fd t.open_fds == 0) ≡ false
      → (f.read_to_end fd t m).0 ≡ ok bs

abbrev pub hello : Bytes
hello = codes "hello, world"

abbrev pub compared : Outcome ⊥ Bytes → RawFd → Table → Outcome ⊥ (Unit {0}) × Table
compared (ok bs) fd t = (if bytes_eq bs hello then ok tt else panic explicit, close fd t)
compared (err e) fd t = absurd e
compared (panic p) fd t = (panic p, close fd t)

-- A file that owns its descriptor is read to its end and dropped.
abbrev pub read_back :
    {M : Type 0} → Files M → M → Outcome ⊥ (RawFd × Table) → Table → Outcome ⊥ (Unit {0}) × Table
read_back f m (ok (fd, t)) _ = compared (expect_outcome (f.read_to_end fd t m).0) fd t
read_back f m (err e) t = absurd e
read_back f m (panic p) t = (panic p, t)

abbrev pub written_then :
    {M : Type 0}
    → Outcome ⊥ (Unit {0}) × M
    → RawFd
    → Table
    → (M → Outcome ⊥ (Unit {0}) × Table)
    → Outcome ⊥ (Unit {0}) × Table
written_then (ok u, m) fd t k = k m
written_then (err e, m) fd t k = absurd e
written_then (panic p, m) fd t k = (panic p, close fd t)

module _ {M : Type 0} (b : Build) (f : Files M) where
  -- `tempfile` and the write to it, and then what a test does with the descriptor.
  unfoldable pub with_tempfile :
      (RawFd → Table → Outcome ⊥ (RawFd × Table)) → M → Table → Outcome ⊥ (Unit {0}) × Table
  with_tempfile convert m t =
      let (fd, m1) = f.create m in
      let t1 = opened fd t in
      let r = f.write_all_at fd hello 0 m1 in
      written_then (expect_outcome r.0, r.1) fd t1 (λ m2. read_back f m2 (convert fd t1) t1)

  abbrev pub unwrapped : Outcome ⊥ OwnedFd → Table → Outcome ⊥ (RawFd × Table)
  unwrapped (ok owned) t = ok (into_raw_fd owned t)
  unwrapped (err e) t = absurd e
  unwrapped (panic p) t = panic p

  unfoldable pub into_raw_fd_does_not_close : M → Table → Outcome ⊥ (Unit {0}) × Table
  unfolding with_tempfile from_raw_fd into_raw_fd
  into_raw_fd_does_not_close = with_tempfile (λ fd t. unwrapped (from_raw_fd b fd) t)

  unfoldable pub roundtrip_file : M → Table → Outcome ⊥ (Unit {0}) × Table
  unfolding with_tempfile of_file to_file
  roundtrip_file =
      with_tempfile
        (λ fd t. let (three, t') = to_file (of_file (record { raw = fd })) t in ok (three.raw, t'))

  module _ (contents : M → RawFd → Option Bytes) (law : IsLawfulFiles f contents) where
    with_tempfile-ok :
        (convert : RawFd → Table → Outcome ⊥ (RawFd × Table)) (before : List RawFd) (bad : ℕ)
        (m : M) (t : Table)
        → ((fd : RawFd) (t' : Table) → is_negative fd ≡ false → convert fd t' ≡ ok (fd, t'))
        → Owns [] before bad t
        → ((with_tempfile convert m t).0 ≡ ok tt) × Owns [] before bad (with_tempfile convert m t).1
    unfolding with_tempfile
    with_tempfile-ok convert before bad m t same o =
        let fd = (f.create m).0 in
        let (wrote, holds) = law.written (f.create m).1 fd hello (law.created m) in
        let o1 = opened-Owns before bad fd [] t o in
        let open_ : (count fd (opened fd t).open_fds == 0) ≡ false =
          ground (arith, o1.counts fd, count_self fd []) in
        let here =
          law.read (f.write_all_at fd hello 0 (f.create m).1).1 (opened fd t) fd hello holds
            open_ in
        rw (wrote, same fd (opened fd t) (law.nonnegative m), here)
          (refl, close-Owns fd [] (opened fd t) o1)

    own_and_release :
        (fd : RawFd) (t : Table)
        → is_negative fd ≡ false
        → unwrapped (from_raw_fd b fd) t ≡ ok (fd, t)
    unfolding from_raw_fd into_raw_fd
    own_and_release fd t nonneg = elim (Bool-cases b.debug_assertions) [
      | inl e ↦ rw (e, nonneg) refl
      | inr e ↦ rw (e) refl
    ]

    -- Both tests pass, and leave the descriptors as they were before: the conversions keep the
    -- descriptor open and the file at its end closes it, once. This supposes what is documented of
    -- files: a descriptor that is not negative for a new file, and a read of what was written.
    pub tests_pass :
        (before : List RawFd) (bad : ℕ) (m : M) (t : Table)
        → Owns [] before bad t
        → ((into_raw_fd_does_not_close m t).0 ≡ ok tt)
          × Owns [] before bad (into_raw_fd_does_not_close m t).1
          × ((roundtrip_file m t).0 ≡ ok tt)
          × Owns [] before bad (roundtrip_file m t).1
    unfolding into_raw_fd_does_not_close roundtrip_file from_raw_fd into_raw_fd of_file to_file
    tests_pass before bad m t o =
        let (raw, closed) =
          with_tempfile-ok (λ fd t'. unwrapped (from_raw_fd b fd) t') before bad m t
            (λ fd t' nonneg. own_and_release fd t' nonneg) o in
        let (round, closed') =
          with_tempfile-ok
            (λ fd t'.
              let (three, t'') = to_file (of_file (record { raw = fd })) t' in ok (three.raw, t''))
            before bad m t (λ fd t' nonneg. refl) o in
        (raw, closed, round, closed')
