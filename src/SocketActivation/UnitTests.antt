-- ===== src/SocketActivation/UnitTests.antt =====
-- The unit tests in server/src/socket_activation.rs, less what they ask of the files behind the
-- descriptors.
pub mod Variables
pub mod Passing
pub mod Blocks
pub mod Memfd
use tere.Prelude.{
  ℕ, zero, suc, ◌+◌, ◌^◌, ◌≡◌, ◌≢◌, ◌<◌, ◌≤◌, max, refl, sym, ap, ◌∙◌, ◌⊎◌, inl, inr, Bool, true,
  false, ◌&&◌, Option, none, some, List, [], ◌∷◌, ◌++◌, map, codes, bytes_eq, bytes_eq_iff,
  if◌then◌else◌, ◌==◌, Outcome, ok, err, panic, expect, expect_outcome, explicit, and_then, arith,
  Build, length,
}
use tere.Prelude.Int.{pos}
use tere.Std.Fd.{RawFd}
use tere.Std.Number.{show, show-digits, AreDigits, value_from, u32_limit, usize_limit}
use tere.Std.Env
use tere.Std.Env.{OsString, var_os, set_var, var_os-set_var}
use tere.SocketActivation.{
  SocketActivation, key_for, env_var, for_us, empty, new, parse, next, collect, yielded, FdIter,
  FileDescriptor, name, listen_pid, listen_fds, listen_fdnames, or_no_names, get_start, Error,
}
use tere.SocketActivation.Names.{split, descriptors}
use tere.SocketActivation.Parsing.{Decimal, read_number-Decimal, parse-collect_for}

-- `EnvPrefix::new`, with the next value of its counter.
unfoldable pub env_prefix : ℕ → OsString
env_prefix seq = codes "TEST_" ++ show seq ++ codes "_"

-- `EnvPrefix::set_var`
unfoldable pub prefix_var : OsString → OsString → OsString → Env.Env → Env.Env
prefix_var prefix k v e = set_var (prefix ++ k) v e

-- `SocketActivation::test`
unfoldable pub test : SocketActivation → RawFd → OsString → Outcome ⊥ SocketActivation
test self start prefix = elim self.test [
  | none ↦ ok (record self { test = some (record { start = start; prefix = prefix }) })
  | some config ↦ panic explicit
]

abbrev pub same_name : Option OsString → Option OsString → Bool
same_name none none = true
same_name none (some t) = false
same_name (some s) none = false
same_name (some s) (some t) = bytes_eq s t

abbrev pub checked :
    Outcome ⊥ (Option FileDescriptor)
    → Option OsString
    → Outcome ⊥ (List RawFd)
    → Outcome ⊥ (List RawFd)
checked (ok none) want rest = panic expect
checked (ok (some d)) want rest =
    if same_name (name d) want then and_then rest (λ fds. ok (d.fd ∷ fds)) else panic explicit
checked (err e) want rest = absurd e
checked (panic p) want rest = panic p

abbrev pub no_more : Outcome ⊥ (Option FileDescriptor) → Outcome ⊥ (List RawFd)
no_more (ok none) = ok []
no_more (ok (some d)) = panic explicit
no_more (err e) = absurd e
no_more (panic p) = panic p

-- The iterator must yield descriptors of these names, and then no more. The descriptors are the
-- result.
unfoldable pub must_receive : Build → List (Option OsString) → FdIter → Outcome ⊥ (List RawFd)
unfolding next name
must_receive b [] it = no_more (next b it).0
must_receive b (want ∷ wants) it =
    let rest = must_receive b wants (next b it).1 in checked (next b it).0 want rest

abbrev pub set_names : OsString → Option OsString → Env.Env → Env.Env
set_names prefix none e = e
set_names prefix (some v) e = prefix_var prefix listen_fdnames v e

-- The shape of all the tests: `process_id` is that of the process, `pid` is what LISTEN_PID says,
-- and the first descriptor has the number `start`.
unfoldable pub listen_test :
    Build
    → (process_id pid seq : ℕ) → RawFd
    → OsString
    → Option OsString
    → List (Option OsString)
    → Env.Env
    → Outcome ⊥ (List RawFd)
unfolding env_prefix prefix_var test must_receive parse
listen_test b process_id pid seq start fds names wants e =
    let prefix = env_prefix seq in
    let e' =
      set_names prefix names
        (prefix_var prefix listen_fds fds (prefix_var prefix listen_pid (show pid) e)) in
    and_then (test new start prefix) (λ activation.
      and_then (expect_outcome (parse activation process_id e').0) (λ it. must_receive b wants it))

abbrev pub xyzzy : OsString
xyzzy = codes "xyzzy"

module _ (b : Build) (process_id seq : ℕ) (start : RawFd) (e : Env.Env) where
  abbrev pub simple : Outcome ⊥ (List RawFd)
  simple =
      listen_test b process_id process_id seq start (codes "1") (some xyzzy) (some xyzzy ∷ []) e

  abbrev pub two : Outcome ⊥ (List RawFd)
  two =
      listen_test b process_id process_id seq start (codes "2") (some (codes "xyzzy:thud"))
        (some xyzzy ∷ some (codes "thud") ∷ []) e

  abbrev pub not_our_pid : Outcome ⊥ (List RawFd)
  not_our_pid = listen_test b process_id (process_id + 1) seq start (codes "1") (some xyzzy) [] e

  abbrev pub empty_name : Outcome ⊥ (List RawFd)
  empty_name = listen_test b process_id process_id seq start (codes "1") (some []) (none ∷ []) e

  abbrev pub unset_name : Outcome ⊥ (List RawFd)
  unset_name = listen_test b process_id process_id seq start (codes "1") none (none ∷ []) e

  abbrev pub names_short : Outcome ⊥ (List RawFd)
  names_short =
      listen_test b process_id process_id seq start (codes "2") (some xyzzy)
        (some xyzzy ∷ none ∷ []) e
