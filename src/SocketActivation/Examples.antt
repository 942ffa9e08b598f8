-- ===== src/SocketActivation/Examples.antt =====
-- Environments as systemd sets them, and the theorems of server/src/socket_activation.rs at them.
use tere.Prelude.{
  ℕ, ◌≡◌, refl, ◌⊎◌, inr, true, none, some, List, [], ◌∷◌, arith, ok, err, panic, slice_index,
  Build, codes, if◌then◌else◌,
}
use tere.Prelude.Int.{pos}
use tere.Std.Number.{parse_uint, u32_limit, usize_limit}
use tere.Std.Env
use tere.Std.Env.{OsString, var_os}
use tere.SocketActivation
use tere.SocketActivation.{
  EnvError, Error, FdIter, FileDescriptor, new, listen_pid, listen_fds, listen_fdnames, parse,
  collect,
}
use tere.SocketActivation.Names.{split, descriptors}
use tere.SocketActivation.Iteration.{at}
use tere.SocketActivation.Descriptors.{collect-descriptors, collect-panics}
use tere.SocketActivation.Parsing.{
  Decimal, parse-collect, parse-other_process, parse-without_pid, parse-ok, parse-unsets,
  is_listen_key,
}
use tere.SocketActivation.UnitTests
use tere.SocketActivation.UnitTests.Blocks.{
  Fcntl, Lowest, lowest, failed, Process, dup_pack_fds, pack, pack_one, usize_add, dupfd_at,
}
use tere.SocketActivation.UnitTests.Blocks.Packing.{IsBlock, dup_pack_fds-IsBlock}
use tere.Std.Fd.{RawFd, Table, count, close, opened}
use tere.Ipc.OwnedFd.{from_raw_fd, drop_fds, drop_fd}
use tere.Prelude.{◌+◌, ◌==◌, ◌≤◌, Bool-cases, inl}
use tere.Prelude.Int.{negsuc}
use tere.SocketActivation.UnitTests.{env_prefix}
use tere.SocketActivation.UnitTests.Passing.{tests_ok}

abbrev debug : Build
debug = record { overflow_checks = true; debug_assertions = true }

abbrev two_sockets : Env.Env
two_sockets =
    (codes "HOME", codes "/")
    ∷ (listen_pid, codes "42")
    ∷ (listen_fds, codes "2")
    ∷ (listen_fdnames, codes "xyzzy:thud")
    ∷ []

pid_is_42 : Decimal u32_limit two_sockets listen_pid 42
unfolding var_os
pid_is_42 = record {
  head = b'4';
  tail = b'2' ∷ [];
  present = refl;
  digits = (refl, (refl, tt));
  worth = refl;
  below = omega arith;
}

fds_are_2 : Decimal usize_limit two_sockets listen_fds 2
unfolding var_os
fds_are_2 = record {
  head = b'2';
  tail = [];
  present = refl;
  digits = (refl, tt);
  worth = refl;
  below = omega arith;
}

abbrev two_names : List ℕ
two_names = codes "xyzzy:thud"

-- The test `two` of the source.
two :
    descriptors 3 (split two_names) 2
    ≡ record { name_ = some (codes "xyzzy"); fd = pos 3 }
      ∷ record { name_ = some (codes "thud"); fd = pos 4 }
      ∷ []
unfolding descriptors split
two = refl

collect-descriptors_example :
    collect debug 3 (at new 3 2 two_names 0) ≡ some (ok (descriptors 3 (split two_names) 2))
unfolding split
collect-descriptors_example =
    collect-descriptors debug new 3 2 3 two_names (omega arith) (omega arith) (inr (omega arith))

collect-panics_example : collect debug 4 (at new 3 3 two_names 0) ≡ some (panic slice_index)
unfolding split
collect-panics_example =
    collect-panics debug new 4 3 3 two_names (omega arith) (omega arith) (λ e. cc) (omega arith)

parse-collect_example :
    (it : FdIter) × ((parse new 42 two_sockets).0 ≡ ok it)
    × (collect debug 3 it ≡ some (ok (descriptors 3 (split two_names) 2)))
unfolding var_os split
parse-collect_example =
    parse-collect debug 42 2 two_sockets two_names pid_is_42 fds_are_2 refl (omega arith)
      (inr (omega arith))

other_process_ends :
    (it : FdIter) × ((parse new 43 two_sockets).0 ≡ ok it) × (collect debug 1 it ≡ some (ok []))
other_process_ends = parse-other_process debug 43 42 two_sockets pid_is_42 (omega arith)

abbrev no_pid : Env.Env
no_pid = (listen_fds, codes "1") ∷ []

parse-without_pid_example :
    (parse new 42 no_pid).0 ≡ err (Error.env listen_pid (EnvError.var Env.not_present))
unfolding var_os
parse-without_pid_example = parse-without_pid 42 no_pid refl

abbrev two_iter : FdIter
two_iter = at new 3 2 two_names 0

two_parses : (parse new 42 two_sockets).0 ≡ ok two_iter
unfolding parse SocketActivation.for_us var_os Env.var parse_uint
two_parses = refl

parse-ok_example :
    (s : OsString) × (p : ℕ) × (var_os two_sockets listen_pid ≡ some s)
    × (parse_uint u32_limit s ≡ ok p)
    × ((p ≡ 42) ⊎ (two_iter.count ≡ 0))
parse-ok_example = parse-ok 42 two_sockets two_iter two_parses

parse-unsets_example :
    var_os (parse new 42 two_sockets).1 (codes "HOME")
    ≡ (if is_listen_key (codes "HOME") then none else var_os two_sockets (codes "HOME"))
parse-unsets_example = parse-unsets 42 two_sockets (codes "HOME")

abbrev no_sockets : Env.Env
no_sockets = (codes "PATH", codes "/bin") ∷ []

tests_ok_example :
    (UnitTests.simple debug 42 7 (pos 100) no_sockets ≡ ok (pos 100 ∷ []))
    × (UnitTests.two debug 42 7 (pos 100) no_sockets ≡ ok (pos 100 ∷ pos 101 ∷ []))
    × (UnitTests.not_our_pid debug 42 7 (pos 100) no_sockets ≡ ok [])
    × (UnitTests.empty_name debug 42 7 (pos 100) no_sockets ≡ ok (pos 100 ∷ []))
    × (UnitTests.unset_name debug 42 7 (pos 100) no_sockets ≡ ok (pos 100 ∷ []))
    × (UnitTests.names_short debug 42 7 (pos 100) no_sockets ≡ ok (pos 100 ∷ pos 101 ∷ []))
unfolding env_prefix var_os
tests_ok_example = tests_ok debug 42 7 100 no_sockets (omega arith) (omega arith) refl

-- A kernel that finds the number asked for or the next one, and else reports EMFILE.
abbrev near_fcntl : Fcntl
near_fcntl fd n t =
    if count (pos n) t.open_fds == 0
    then (pos n, 0)
    else if count (pos (n + 1)) t.open_fds == 0
    then (pos (n + 1), 0)
    else (negsuc 0, 24)

near_fcntl-Lowest : (fd : RawFd) (n : ℕ) (t : Table) → Lowest n t (near_fcntl fd n t).0
near_fcntl-Lowest fd n t = elim (Bool-cases (count (pos n) t.open_fds == 0)) [
  | inl free ↦ rw (free) (lowest n (omega arith) (ground arith) (λ j le lt. absurd (omega arith)))
  | inr used ↦ elim (Bool-cases (count (pos (n + 1)) t.open_fds == 0)) [
    | inl free ↦
        rw (used, free)
          (lowest (n + 1) (omega arith) (ground arith)
            (λ j le lt. let e : j ≡ n = omega arith in rw (e) (ground arith)))
    | inr taken ↦ rw (used, taken) (failed refl)
  ]
]

-- The descriptor 100 is in use, so the first round is given up.
abbrev before_pack : Process
before_pack = record {
  offset = 100;
  table = record { open_fds = pos 3 ∷ pos 4 ∷ pos 100 ∷ []; bad_closes = 0 };
}

below_101 : (m : ℕ) → 101 ≤ m → count (pos m) before_pack.table.open_fds ≡ 0
below_101 m h = ground arith

dup_pack_fds-IsBlock_example :
    IsBlock before_pack.table.open_fds 0 100 2
      (dup_pack_fds debug near_fcntl 2 (pos 3 ∷ pos 4 ∷ []) before_pack)
dup_pack_fds-IsBlock_example =
    dup_pack_fds-IsBlock debug near_fcntl near_fcntl-Lowest before_pack.table.open_fds 0 101
      below_101 1 (pos 3 ∷ pos 4 ∷ []) 100 before_pack
      (record { counts = λ x. omega arith; clean = refl }) (omega arith) (omega arith) (omega arith)

dup_pack_fds_runs :
    (dup_pack_fds debug near_fcntl 2 (pos 3 ∷ pos 4 ∷ []) before_pack).0
    ≡ some (ok (record { raw = pos 102 } ∷ record { raw = pos 103 } ∷ []))
unfolding dup_pack_fds pack pack_one usize_add dupfd_at from_raw_fd drop_fds drop_fd close opened
dup_pack_fds_runs = refl
