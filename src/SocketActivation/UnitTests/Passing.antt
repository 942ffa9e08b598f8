-- ===== src/SocketActivation/UnitTests/Passing.antt =====
-- The unit tests in server/src/socket_activation.rs: their results.
use tere.Prelude.{
  ℕ, zero, suc, ◌+◌, ◌^◌, ◌≡◌, ◌<◌, ◌≤◌, max, refl, ◌⊎◌, inl, inr, true, false, Option, none, some,
  List, [], ◌∷◌, ◌++◌, map, codes, bytes_eq_iff, ◌==◌, Outcome, ok, err, panic, arith, Build,
  length,
}
use tere.Prelude.Int.{pos}
use tere.Std.Fd.{RawFd}
use tere.Std.Number.{show, u32_limit, usize_limit}
use tere.Std.Env
use tere.Std.Env.{OsString, var_os, set_var, var_os-set_var}
use tere.SocketActivation.{
  env_var, for_us, empty, new, parse, next, collect, yielded, FdIter, FileDescriptor, name,
  listen_pid, listen_fds, listen_fdnames, or_no_names, get_start,
}
use tere.SocketActivation.Names.{split, descriptors}
use tere.SocketActivation.Parsing.{read_number-Decimal, parse-collect_for}
use tere.SocketActivation.UnitTests.{
  env_prefix, test, same_name, must_receive, listen_test, xyzzy, simple, two, not_our_pid,
  empty_name, unset_name, names_short,
}
use tere.SocketActivation.UnitTests.Variables.{
  Writes, Decimal-Writes, show-Writes, one_digit, test_env, test_env_pid, test_env_fds,
  test_env_names,
}

same_name_refl : (o : Option OsString) → same_name o o ≡ true
same_name_refl none = refl
same_name_refl (some s) = (bytes_eq_iff s s).1 refl

must_receive-collect :
    (b : Build) (fuel : ℕ) (it : FdIter) (ds : List FileDescriptor)
    → collect b fuel it ≡ some (ok ds)
    → must_receive b (map (λ (d : FileDescriptor). d.name_) ds) it
      ≡ ok (map (λ (d : FileDescriptor). d.fd) ds)
unfolding must_receive collect name
must_receive-collect b zero it ds h = cc
must_receive-collect b (suc fuel) it ds h =
    at (next b it).0 refl (collect b fuel (next b it).1) refl h
      (λ es q. must_receive-collect b fuel (next b it).1 es q)
  where
    at :
        (r : Outcome ⊥ (Option FileDescriptor))
        → (next b it).0 ≡ r
        → (rest : Option (Outcome ⊥ (List FileDescriptor))) → collect b fuel (next b it).1 ≡ rest
        → yielded r rest ≡ some (ok ds)
        → ((es : List FileDescriptor)
            → collect b fuel (next b it).1 ≡ some (ok es)
            → must_receive b (map (λ (d : FileDescriptor). d.name_) es) (next b it).1
              ≡ ok (map (λ (d : FileDescriptor). d.fd) es))
        → must_receive b (map (λ (d : FileDescriptor). d.name_) ds) it
          ≡ ok (map (λ (d : FileDescriptor). d.fd) ds)
    at (ok none) p rest q g k = let e : [] ≡ ds = cc in rw (← e, must_receive, p) refl
    at (ok (some d)) p none q g k = cc
    at (ok (some d)) p (some (ok es)) q g k =
        let e : d ∷ es ≡ ds = cc in rw (← e, must_receive, p, k es q, same_name_refl d.name_) refl
    at (ok (some d)) p (some (err x)) q g k = absurd x
    at (ok (some d)) p (some (panic x)) q g k = cc
    at (err x) p rest q g k = absurd x
    at (panic x) p rest q g k = cc

-- A test for this process receives the descriptors that the names say, and no more.
listen_test-ok :
    (b : Build)
    → (process_id seq n s : ℕ) → (fds : OsString) → (names : Option OsString) → (e : Env.Env)
    → process_id < u32_limit
    → Writes fds n
    → s + n < 2 ^ 31
    → (or_no_names names ≡ []) ⊎ (n ≤ max 2 (length (split (or_no_names names))))
    → var_os e (env_prefix seq ++ listen_fdnames) ≡ none
    → let ds = descriptors s (split (or_no_names names)) n in
      listen_test b process_id process_id seq
        (pos s)
        fds
        names
        (map (λ (d : FileDescriptor). d.name_) ds)
        e
      ≡ ok (map (λ (d : FileDescriptor). d.fd) ds)
unfolding listen_test test get_start
listen_test-ok b process_id seq n s fds names e in_u32 w small few fresh =
    let prefix = env_prefix seq in
    let act = record new { test = some (record { start = pos s; prefix = prefix }) } in
    let e' = test_env prefix (show process_id) fds e names in
    let (it, parsed, got) =
      parse-collect_for act b process_id n s e' (or_no_names names)
        (Decimal-Writes u32_limit e' (prefix ++ listen_pid) (show process_id) process_id
          (test_env_pid prefix (show process_id) fds e names) (show-Writes process_id) in_u32)
        (Decimal-Writes usize_limit e' (prefix ++ listen_fds) fds n
          (test_env_fds prefix (show process_id) fds e names) w (omega arith))
        (test_env_names prefix (show process_id) fds e names fresh) refl small few in
    rw (parsed)
      (must_receive-collect b (suc n) it (descriptors s (split (or_no_names names)) n) got)

not_our_pid-ok :
    (b : Build) (process_id seq : ℕ) (start : RawFd) (e : Env.Env)
    → process_id + 1 < u32_limit
    → not_our_pid b process_id seq start e ≡ ok []
unfolding listen_test test parse env_var for_us empty must_receive next
not_our_pid-ok b process_id seq start e in_u32 =
    let prefix = env_prefix seq in
    let e' = test_env prefix (show (process_id + 1)) (codes "1") e (some xyzzy) in
    let d =
      Decimal-Writes u32_limit e' (prefix ++ listen_pid) (show (process_id + 1)) (process_id + 1)
        (test_env_pid prefix (show (process_id + 1)) (codes "1") e (some xyzzy))
        (show-Writes (process_id + 1)) in_u32 in
    let differs : (((process_id + 1) == process_id) ≡ false) = ground arith in
    rw (read_number-Decimal d, differs) refl

-- The tests of one descriptor and of two pass, whatever the process id is, the value of the
-- counter behind the prefixes, the build and the number of the first descriptor, and they receive
-- consecutive descriptors from that number on. The test of another process's id passes with no
-- descriptor. This holds if the ids fit into 32 bits, the descriptors fit into an `i32`, and the
-- environment has no variable LISTEN_FDNAMES with the test's prefix.
pub tests_ok :
    (b : Build) (process_id seq s : ℕ) (e : Env.Env)
    → process_id + 1 < u32_limit
    → s + 2 < 2 ^ 31
    → var_os e (env_prefix seq ++ listen_fdnames) ≡ none
    → (simple b process_id seq (pos s) e ≡ ok (pos s ∷ []))
      × (two b process_id seq (pos s) e ≡ ok (pos s ∷ pos (s + 1) ∷ []))
      × (not_our_pid b process_id seq (pos s) e ≡ ok [])
      × (empty_name b process_id seq (pos s) e ≡ ok (pos s ∷ []))
      × (unset_name b process_id seq (pos s) e ≡ ok (pos s ∷ []))
      × (names_short b process_id seq (pos s) e ≡ ok (pos s ∷ pos (s + 1) ∷ []))
unfolding split descriptors
tests_ok b process_id seq s e in_u32 small fresh =
    let one = one_digit 1 (omega arith) in
    let two_ = one_digit 2 (omega arith) in
    let run =
      λ (n : ℕ) (fds : OsString) (names : Option OsString) (w : Writes fds n) (lt : s + n < 2 ^ 31)
          (few : (or_no_names names ≡ []) ⊎ (n ≤ max 2 (length (split (or_no_names names))))).
        listen_test-ok b process_id seq n s fds names e (omega arith) w lt few fresh in
    (
      run 1 (codes "1") (some xyzzy) one (omega arith) (inr (omega arith)),
      run 2 (codes "2") (some (codes "xyzzy:thud")) two_ (omega arith) (inr (omega arith)),
      not_our_pid-ok b process_id seq (pos s) e in_u32,
      run 1 (codes "1") (some []) one (omega arith) (inl refl),
      run 1 (codes "1") none one (omega arith) (inl refl),
      run 2 (codes "2") (some xyzzy) two_ (omega arith) (inr (omega arith)),
    )
