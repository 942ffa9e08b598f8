-- ===== src/SocketActivation/Parsing.antt =====
-- What `parse` returns for each environment, and what it leaves of the environment.
use tere.Prelude.{
  ℕ, suc, ◌+◌, ◌^◌, ◌≤◌, ◌<◌, max, ◌≡◌, ◌≢◌, refl, sym, subst, ◌⊎◌, Bool, true, false, ◌||◌, none,
  some, List, [], ◌∷◌, ◌==◌, if◌then◌else◌, length, arith, Outcome, ok, err, panic, Build, bytes_eq,
}
use tere.Std.Utf8.{IsAscii, is_utf8-IsAscii}
use tere.Std.Number.{parse_uint, parse_uint-value, value_from, AreDigits, u32_limit, usize_limit}
use tere.Std.Env
use tere.Std.Env.{OsString, VarError, var_os, var_os-remove_var, var-present, var-missing, var-ok}
use tere.Prelude.Int.{pos}
use tere.SocketActivation.{
  SocketActivation, key_for, EnvError, Error, FdIter, new, listen_pid, listen_fds, listen_fdnames,
  read_number, for_us, unset, env_var, env_var_os, env_remove_var, or_no_names, ready, empty, parse,
  next, collect, get_start,
}
use tere.SocketActivation.Names.{split, descriptors}
use tere.SocketActivation.Iteration.{at}
use tere.SocketActivation.Descriptors.{collect-descriptors}

AreDigits-IsAscii : (cs : List ℕ) → AreDigits cs → IsAscii cs
AreDigits-IsAscii [] h = tt
AreDigits-IsAscii (c ∷ cs) h = (ground arith, AreDigits-IsAscii cs h.1)

-- A variable that holds a number in decimal digits, below the limit of its type.
pub record Decimal (limit : ℕ) (e : Env.Env) (k : OsString) (n : ℕ) : Type 0 where
  pub head : ℕ
  pub tail : List ℕ
  pub present : var_os e k ≡ some (head ∷ tail)
  pub digits : AreDigits (head ∷ tail)
  pub worth : value_from 0 (head ∷ tail) ≡ n
  pub below : n < limit

pub read_number-Decimal :
    {limit : ℕ} {e : Env.Env} {k : OsString} {n : ℕ}
    → Decimal limit e k n
    → read_number limit (Env.var e k) ≡ ok n
unfolding read_number
read_number-Decimal {limit} {e} {k} d = rw (
  var-present e k (d.head ∷ d.tail) d.present
      (is_utf8-IsAscii (d.head ∷ d.tail) (AreDigits-IsAscii (d.head ∷ d.tail) d.digits)),
  parse_uint-value limit d.head d.tail d.digits (subst (λ m. m < limit) (sym d.worth) d.below),
  d.worth,
)

-- The same for any activation, with the keys and the first descriptor that a test may give.
pub parse-collect_for :
    (act : SocketActivation) (b : Build) (process_id n s : ℕ) (e : Env.Env) (names : List ℕ)
    → Decimal u32_limit e (key_for act listen_pid) process_id
    → Decimal usize_limit e (key_for act listen_fds) n
    → or_no_names (var_os e (key_for act listen_fdnames)) ≡ names
    → get_start act ≡ pos s
    → s + n < 2 ^ 31
    → (names ≡ []) ⊎ (n ≤ max 2 (length (split names)))
    → (it : FdIter) × ((parse act process_id e).0 ≡ ok it)
      × (collect b (suc n) it ≡ some (ok (descriptors s (split names) n)))
unfolding parse env_var env_var_os for_us ready
parse-collect_for act b process_id n s e names p d named first small few =
    let self : ((process_id == process_id) ≡ true) = ground arith in
    (
      at act s n names 0,
      rw (read_number-Decimal p, self, read_number-Decimal d, named, first),
      collect-descriptors b act (suc n) n s names (omega arith) small few,
    )

-- With LISTEN_PID naming this process and LISTEN_FDS a number of sockets, both in decimal, the
-- parse succeeds, and a loop over its result yields the descriptors 3, 4 and so on, named by the
-- fields of LISTEN_FDNAMES. This holds if the names are missing or empty, if there are as many
-- fields as sockets, or if there are at most two sockets.
pub parse-collect :
    (b : Build) (process_id n : ℕ) (e : Env.Env) (names : List ℕ)
    → Decimal u32_limit e listen_pid process_id
    → Decimal usize_limit e listen_fds n
    → or_no_names (var_os e listen_fdnames) ≡ names
    → 3 + n < 2 ^ 31
    → (names ≡ []) ⊎ (n ≤ max 2 (length (split names)))
    → (it : FdIter) × ((parse new process_id e).0 ≡ ok it)
      × (collect b (suc n) it ≡ some (ok (descriptors 3 (split names) n)))
unfolding get_start
parse-collect b process_id n e names p d named small few =
    parse-collect_for new b process_id n 3 e names p d named refl small few

-- With LISTEN_PID naming another process the parse succeeds without looking at the other
-- variables, and a loop over its result yields no descriptor.
pub parse-other_process :
    (b : Build) (process_id p : ℕ) (e : Env.Env)
    → Decimal u32_limit e listen_pid p
    → p ≢ process_id
    → (it : FdIter) × ((parse new process_id e).0 ≡ ok it) × (collect b 1 it ≡ some (ok []))
unfolding parse env_var for_us empty collect next
parse-other_process b process_id p e d other =
    let differs : ((p == process_id) ≡ false) = ground arith in
    (empty new, rw (read_number-Decimal d, differs), refl)

-- Without LISTEN_PID in the environment the parse fails with the key LISTEN_PID and the error
-- that `std::env::var` gave, whatever the other variables are.
pub parse-without_pid :
    (process_id : ℕ) (e : Env.Env)
    → var_os e listen_pid ≡ none
    → (parse new process_id e).0 ≡ err (Error.env listen_pid (EnvError.var Env.not_present))
unfolding parse env_var for_us read_number
parse-without_pid process_id e missing = rw (var-missing e listen_pid missing)

read_number-ok :
    (limit : ℕ) (v : Outcome VarError OsString) (n : ℕ)
    → read_number limit v ≡ ok n
    → (s : OsString) × (v ≡ ok s) × (parse_uint limit s ≡ ok n)
unfolding read_number
read_number-ok limit (ok s) n h = (s, refl, ground arith)
read_number-ok limit (err x) n h = cc
read_number-ok limit (panic x) n h = cc

read_number-ne-not_present :
    (limit : ℕ) (v : Outcome VarError OsString) → read_number limit v ≢ err EnvError.not_present
unfolding read_number
read_number-ne-not_present limit (ok s) h = ground arith
read_number-ne-not_present limit (err x) h = cc
read_number-ne-not_present limit (panic x) h = cc

for_us-ok :
    (process_id : ℕ) (v : Outcome VarError OsString) (t : Bool)
    → for_us process_id v ≡ ok t
    → (p : ℕ) × (read_number u32_limit v ≡ ok p) × ((p == process_id) ≡ t)
unfolding for_us
for_us-ok process_id v t h = ground (arith, read_number-ne-not_present u32_limit v)

parse-ok_for_us :
    (process_id : ℕ) (e : Env.Env) (it : FdIter)
    → (parse new process_id e).0 ≡ ok it
    → (t : Bool) × (for_us process_id (Env.var e listen_pid) ≡ ok t) × ((t ≡ true) ⊎ (it.count ≡ 0))
unfolding parse
parse-ok_for_us process_id e it h = ground arith

-- A parse that succeeds has read LISTEN_PID: the variable is set, its value parses as a `u32`, and
-- it is this process's id unless the result counts no sockets.
pub parse-ok :
    (process_id : ℕ) (e : Env.Env) (it : FdIter)
    → (parse new process_id e).0 ≡ ok it
    → (s : OsString) × (p : ℕ) × (var_os e listen_pid ≡ some s)
      × (parse_uint u32_limit s ≡ ok p)
      × ((p ≡ process_id) ⊎ (it.count ≡ 0))
parse-ok process_id e it h =
    let (t, ours, counts) = parse-ok_for_us process_id e it h in
    let (p, number, test) = for_us-ok process_id (Env.var e listen_pid) t ours in
    let (s, found, parsed) = read_number-ok u32_limit (Env.var e listen_pid) p number in
    (s, p, var-ok e listen_pid s found, parsed, ground arith)

abbrev pub is_listen_key : OsString → Bool
is_listen_key k = bytes_eq listen_pid k || bytes_eq listen_fds k || bytes_eq listen_fdnames k

-- Whether the parse succeeds or fails, it removes the three LISTEN_* variables from the
-- environment and leaves every other variable as it was.
pub parse-unsets :
    (process_id : ℕ) (e : Env.Env) (k : OsString)
    → var_os (parse new process_id e).1 k ≡ (if is_listen_key k then none else var_os e k)
unfolding parse unset env_remove_var
parse-unsets process_id e k = simp var_os-remove_var (ground arith)
