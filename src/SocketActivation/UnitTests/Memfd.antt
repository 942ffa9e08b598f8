-- ===== src/SocketActivation/UnitTests/Memfd.antt =====
-- The unit tests in server/src/socket_activation.rs of one descriptor, with the file behind it. The
-- crate memfd and the metadata of a file are an interface.

use tere.Prelude.{
  ℕ, ◌+◌, ◌^◌, ◌<◌, ◌≡◌, refl, Bool, true, ◌&&◌, ◌==◌, none, List, [], ◌∷◌, ◌++◌, Outcome, ok, err,
  panic, explicit, expect_outcome, if◌then◌else◌, Build, arith, false,
}
use tere.Prelude.Int.{pos}
use tere.Std.Fd.{RawFd, Table, count, opened, close, Owns, count_self, opened-Owns, close-Owns}
use tere.Std.Number.{u32_limit}
use tere.Std.Env
use tere.Std.Env.{var_os}
use tere.Ipc.{IoError}
use tere.SocketActivation.{listen_fdnames}
use tere.SocketActivation.UnitTests.{env_prefix, simple, not_our_pid, empty_name, unset_name}
use tere.SocketActivation.UnitTests.Passing.{tests_ok}

-- `dev()` and `ino()` of a file's metadata.
pub record FileId : Type 0 where
  pub dev : ℕ
  pub ino : ℕ

-- Over the kernel's files `M`: a new file, and the metadata of the one behind a descriptor.
pub record Memfds (M : Type 0) : Type 0 where
  pub create : M → Outcome IoError RawFd × M
  pub metadata : RawFd → Table → M → Outcome IoError FileId

abbrev pub same_file : FileId → FileId → Bool
same_file a b = (a.dev == b.dev) && (a.ino == b.ino)

module _ {M : Type 0} (f : Memfds M) (m : M) (want : FileId) where
  -- The last steps: the metadata of the file that was received, which is dropped.
  abbrev pub compared : Outcome ⊥ FileId → RawFd → Table → Outcome ⊥ (Unit {0}) × Table
  compared (ok got) fd t = (if same_file want got then ok tt else panic explicit, close fd t)
  compared (err e) fd t = absurd e
  compared (panic p) fd t = (panic p, close fd t)

  -- `take_fd` makes a file of each descriptor that was received.
  abbrev pub received : Outcome ⊥ (List RawFd) → Table → Outcome ⊥ (Unit {0}) × Table
  received (ok []) t = (ok tt, t)
  received (ok (fd ∷ fds)) t = compared (expect_outcome (f.metadata fd t m)) fd t
  received (err e) t = absurd e
  received (panic p) t = (panic p, t)

module _ {M : Type 0} (f : Memfds M) where
  abbrev pub with_metadata :
      Outcome ⊥ FileId
      → RawFd
      → (RawFd → Outcome ⊥ (List RawFd))
      → M
      → Table
      → Outcome ⊥ (Unit {0}) × Table
  with_metadata (ok want) fd run m t = received f m want (run fd) t
  with_metadata (err e) fd run m t = absurd e
  with_metadata (panic p) fd run m t = (panic p, close fd t)

  abbrev pub with_created :
      Outcome ⊥ RawFd → (RawFd → Outcome ⊥ (List RawFd)) → M → Table → Outcome ⊥ (Unit {0}) × Table
  with_created (ok fd) run m t =
      with_metadata (expect_outcome (f.metadata fd (opened fd t) m)) fd run m (opened fd t)
  with_created (err e) run m t = absurd e
  with_created (panic p) run m t = (panic p, t)

  -- A test that takes the metadata of a new file, gives its descriptor away and receives it again.
  unfoldable pub with_memfd :
      (RawFd → Outcome ⊥ (List RawFd)) → M → Table → Outcome ⊥ (Unit {0}) × Table
  with_memfd run m t = with_created (expect_outcome (f.create m).0) run (f.create m).1 t

  abbrev pub given_away :
      Outcome ⊥ RawFd → (RawFd → Outcome ⊥ (List RawFd)) → Table → Outcome ⊥ (List RawFd) × Table
  given_away (ok fd) run t = (run fd, opened fd t)
  given_away (err e) run t = absurd e
  given_away (panic p) run t = (panic p, t)

  module _ (b : Build) (process_id seq : ℕ) (e : Env.Env) where
    unfoldable pub simple_file : M → Table → Outcome ⊥ (Unit {0}) × Table
    unfolding with_memfd
    simple_file = with_memfd (λ fd. simple b process_id seq fd e)

    unfoldable pub empty_name_file : M → Table → Outcome ⊥ (Unit {0}) × Table
    unfolding with_memfd
    empty_name_file = with_memfd (λ fd. empty_name b process_id seq fd e)

    unfoldable pub unset_name_file : M → Table → Outcome ⊥ (Unit {0}) × Table
    unfolding with_memfd
    unset_name_file = with_memfd (λ fd. unset_name b process_id seq fd e)

    -- The new file's descriptor is given away, and nothing takes it.
    unfoldable pub not_our_pid_file : M → Table → Outcome ⊥ (List RawFd) × Table
    not_our_pid_file m t =
        given_away (expect_outcome (f.create m).0) (λ fd. not_our_pid b process_id seq fd e) t

-- A descriptor for a new file, and metadata for every descriptor that is open.
pub record IsLawfulMemfds {M : Type 0} (f : Memfds M) (m : M) (s : ℕ) (id : RawFd → FileId)
    : Type 0 where
  pub created : (f.create m).0 ≡ ok (pos s)
  pub known :
      (fd : RawFd) (t : Table)
      → (count fd t.open_fds == 0) ≡ false
      → f.metadata fd t (f.create m).1 ≡ ok (id fd)

module _ {M : Type 0} (f : Memfds M) (m : M) (s : ℕ) (id : RawFd → FileId)
    (law : IsLawfulMemfds f m s id) (before : List RawFd) (bad : ℕ) (t : Table)
    (o : Owns [] before bad t) where
  with_memfd-ok :
      (run : RawFd → Outcome ⊥ (List RawFd))
      → run (pos s) ≡ ok (pos s ∷ [])
      → ((with_memfd f run m t).0 ≡ ok tt) × Owns [] before bad (with_memfd f run m t).1
  unfolding with_memfd
  with_memfd-ok run passes =
      let o1 = opened-Owns before bad (pos s) [] t o in
      let is_open : (count (pos s) (opened (pos s) t).open_fds == 0) ≡ false =
        ground (arith, o1.counts (pos s), count_self (pos s) []) in
      let here = law.known (pos s) (opened (pos s) t) is_open in
      let same : same_file (id (pos s)) (id (pos s)) ≡ true = ground arith in
      rw (law.created, here, passes, here, same) (refl, close-Owns (pos s) [] (opened (pos s) t) o1)

  -- The tests of one descriptor pass with their files, under the conditions of the tests alone and
  -- with metadata for every open descriptor: those that receive the descriptor find the file that
  -- they gave away, and leave the table of descriptors as it was before; the test of another
  -- process's id leaves its descriptor open.
  pub tests_of_one :
      (b : Build) (process_id seq : ℕ) (e : Env.Env)
      → process_id + 1 < u32_limit
      → s + 2 < 2 ^ 31
      → var_os e (env_prefix seq ++ listen_fdnames) ≡ none
      → ((simple_file f b process_id seq e m t).0 ≡ ok tt)
        × Owns [] before bad (simple_file f b process_id seq e m t).1
        × ((empty_name_file f b process_id seq e m t).0 ≡ ok tt)
        × Owns [] before bad (empty_name_file f b process_id seq e m t).1
        × ((unset_name_file f b process_id seq e m t).0 ≡ ok tt)
        × Owns [] before bad (unset_name_file f b process_id seq e m t).1
        × ((not_our_pid_file f b process_id seq e m t).0 ≡ ok [])
        × Owns (pos s ∷ []) before bad (not_our_pid_file f b process_id seq e m t).1
  unfolding simple_file empty_name_file unset_name_file not_our_pid_file
  tests_of_one b process_id seq e in_u32 small unset =
      let (one, two, other, empty, none_, short) =
        tests_ok b process_id seq s e in_u32 small unset in
      let (one_ok, one_owns) = with_memfd-ok (λ fd. simple b process_id seq fd e) one in
      let (empty_ok, empty_owns) = with_memfd-ok (λ fd. empty_name b process_id seq fd e) empty in
      let (none_ok, none_owns) = with_memfd-ok (λ fd. unset_name b process_id seq fd e) none_ in
      (
        one_ok,
        one_owns,
        empty_ok,
        empty_owns,
        none_ok,
        none_owns,
        rw (law.created, other) refl,
        rw (law.created) (opened-Owns before bad (pos s) [] t o),
      )
