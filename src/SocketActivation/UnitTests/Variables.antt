-- ===== src/SocketActivation/UnitTests/Variables.antt =====
-- What the environment of the unit tests in server/src/socket_activation.rs holds.
use tere.Prelude.{
  ℕ, ◌+◌, ◌≡◌, ◌<◌, refl, ap, ◌∙◌, true, Option, none, some, List, [], ◌∷◌, ◌++◌, bytes_eq, ◌==◌,
  arith,
}
use tere.Std.Number.{show, show-digits, AreDigits, value_from}
use tere.Std.Env
use tere.Std.Env.{OsString, var_os, set_var, var_os-set_var}
use tere.SocketActivation.{listen_pid, listen_fds, listen_fdnames, or_no_names}
use tere.SocketActivation.Parsing.{Decimal}
use tere.SocketActivation.UnitTests.{prefix_var, set_names}

bytes_eq-append : (p a c : List ℕ) → bytes_eq (p ++ a) (p ++ c) ≡ bytes_eq a c
bytes_eq-append [] a c = refl
bytes_eq-append (x ∷ p) a c =
    let self : ((x == x) ≡ true) = ground arith in rw self (bytes_eq-append p a c)

-- A text of digits that writes `n`.
pub record Writes (text : OsString) (n : ℕ) : Type 0 where
  pub head : ℕ
  pub tail : List ℕ
  pub same : text ≡ head ∷ tail
  pub digits : AreDigits (head ∷ tail)
  pub worth : value_from 0 (head ∷ tail) ≡ n

pub Decimal-Writes :
    (limit : ℕ) (e : Env.Env) (k text : OsString) (n : ℕ)
    → var_os e k ≡ some text
    → Writes text n
    → n < limit
    → Decimal limit e k n
Decimal-Writes limit e k text n h w lt = record {
  head = w.head;
  tail = w.tail;
  present = h ∙ ap some w.same;
  digits = w.digits;
  worth = w.worth;
  below = lt;
}

pub show-Writes : (n : ℕ) → Writes (show n) n
show-Writes n =
    let (c, cs, e, ds, worth) = show-digits n in
    record { head = c; tail = cs; same = e; digits = ds; worth = worth }

-- What the tests' environment holds.
module _ (prefix pid_text fds : OsString) (e : Env.Env) where
  abbrev pub test_env : Option OsString → Env.Env
  test_env names =
      set_names prefix names
        (prefix_var prefix listen_fds fds (prefix_var prefix listen_pid pid_text e))

  abbrev key : OsString → OsString
  key k = prefix ++ k

  plain_env_pid : var_os (test_env none) (key listen_pid) ≡ some pid_text
  unfolding prefix_var
  plain_env_pid =
      rw
        (
          var_os-set_var (key listen_fds) fds (key listen_pid) _,
          bytes_eq-append prefix listen_fds listen_pid,
          var_os-set_var (key listen_pid) pid_text (key listen_pid) e,
          bytes_eq-append prefix listen_pid listen_pid,
        )
        refl

  plain_env_fds : var_os (test_env none) (key listen_fds) ≡ some fds
  unfolding prefix_var
  plain_env_fds =
      rw
        (
          var_os-set_var (key listen_fds) fds (key listen_fds) _,
          bytes_eq-append prefix listen_fds listen_fds,
        )
        refl

  pub test_env_pid :
      (names : Option OsString) → var_os (test_env names) (key listen_pid) ≡ some pid_text
  unfolding prefix_var
  test_env_pid none = plain_env_pid
  test_env_pid (some v) =
      rw
        (
          var_os-set_var (key listen_fdnames) v (key listen_pid) _,
          bytes_eq-append prefix listen_fdnames listen_pid,
        )
        plain_env_pid

  pub test_env_fds : (names : Option OsString) → var_os (test_env names) (key listen_fds) ≡ some fds
  unfolding prefix_var
  test_env_fds none = plain_env_fds
  test_env_fds (some v) =
      rw
        (
          var_os-set_var (key listen_fdnames) v (key listen_fds) _,
          bytes_eq-append prefix listen_fdnames listen_fds,
        )
        plain_env_fds

  pub test_env_names :
      (names : Option OsString)
      → var_os e (key listen_fdnames) ≡ none
      → or_no_names (var_os (test_env names) (key listen_fdnames)) ≡ or_no_names names
  unfolding prefix_var
  test_env_names none fresh =
      rw
        (
          var_os-set_var (key listen_fds) fds (key listen_fdnames) _,
          bytes_eq-append prefix listen_fds listen_fdnames,
          var_os-set_var (key listen_pid) pid_text (key listen_fdnames) e,
          bytes_eq-append prefix listen_pid listen_fdnames,
          fresh,
        )
        refl
  test_env_names (some v) fresh =
      rw
        (
          var_os-set_var (key listen_fdnames) v (key listen_fdnames) _,
          bytes_eq-append prefix listen_fdnames listen_fdnames,
        )
        refl

pub one_digit : (n : ℕ) → n < 10 → Writes ((48 + n) ∷ []) n
one_digit n h = record {
  head = 48 + n;
  tail = [];
  same = refl;
  digits = (ground arith, tt);
  worth = ground arith;
}
