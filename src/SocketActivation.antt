-- ===== src/SocketActivation.antt =====
-- server/src/socket_activation.rs: the sockets that systemd hands over. `parse` reads and clears
-- the LISTEN_* variables; the iterator `FdIter` numbers the descriptors and cuts their names.
pub mod Names
pub mod Iteration
pub mod Descriptors
pub mod Parsing
pub mod UnitTests
mod Examples
use tere.Prelude.{
  ℕ, zero, suc, ◌+◌, ◌-◌, ◌^◌, min, Bool, true, Option, none, some, List, [], ◌∷◌, ◌++◌, ltb, ◌==◌,
  codes, if◌then◌else◌, length, take, drop, Outcome, ok, err, panic, slice_index,
  arithmetic_overflow, Act, Build, map_err_outcome, and_then,
}
use tere.Prelude.Int.{pos, negsuc}
use tere.Std.Number.{ParseIntError, parse_uint, u32_limit, usize_limit}
use tere.Std.Fd.{RawFd}
use tere.Std.Env
use tere.Std.Env.{Env, OsString, VarError}

pub data EnvError : Type 0 where
  not_present : EnvError
  not_unicode : OsString → EnvError
  var : VarError → EnvError
  not_int : ParseIntError → EnvError

pub data Error : Type 0 where
  env : (key : OsString) → (source : EnvError) → Error

pub record TestShim : Type 0 where
  pub start : RawFd
  pub prefix : OsString

pub record SocketActivation : Type 0 where
  pub unset_env : Bool
  pub test : Option TestShim

abbrev pub new : SocketActivation
new = record { unset_env = true; test = none }

pub record FdIter : Type 0 where
  pub activation : SocketActivation
  pub next : RawFd
  pub count : ℕ
  pub names : List ℕ
  pub name_offset : ℕ

pub record FileDescriptor : Type 0 where
  pub name_ : Option OsString
  pub fd : RawFd

-- The key that a lookup asks for: a test prefixes it.
abbrev pub key_for : SocketActivation → OsString → OsString
key_for self key = elim self.test [ none ↦ key | some config ↦ config.prefix ++ key ]

unfoldable pub env_var_os : SocketActivation → OsString → Env → Option OsString
env_var_os self key e = Env.var_os e (key_for self key)

unfoldable pub env_var : SocketActivation → OsString → Env → Outcome VarError OsString
env_var self key e = Env.var e (key_for self key)

unfoldable pub env_remove_var : SocketActivation → OsString → Env → Env
env_remove_var self key e = Env.remove_var (key_for self key) e

unfoldable pub empty : SocketActivation → FdIter
empty self = record { activation = self; next = negsuc 0; count = 0; names = []; name_offset = 0 }

unfoldable pub get_start : SocketActivation → RawFd
get_start self = elim self.test [ none ↦ pos 3 | some config ↦ config.start ]

abbrev pub listen_pid : OsString
listen_pid = codes "LISTEN_PID"

abbrev pub listen_fds : OsString
listen_fds = codes "LISTEN_FDS"

abbrev pub listen_fdnames : OsString
listen_fdnames = codes "LISTEN_FDNAMES"

-- `.map_err(EnvError::from).and_then(|s| s.parse().map_err(EnvError::NotInt))`. The conversion is
-- the one that `#[from]` derives for the variant `Var`.
unfoldable pub read_number : ℕ → Outcome VarError OsString → Outcome EnvError ℕ
read_number limit v =
    and_then (map_err_outcome EnvError.var v)
      (λ s. map_err_outcome EnvError.not_int (parse_uint limit s))

-- `.or_else(|error| match error { EnvError::NotPresent => Ok(true), _ => Err(error) })`
abbrev pub present_or_true : Outcome EnvError Bool → Outcome EnvError Bool
present_or_true (err EnvError.not_present) = ok true
present_or_true r = r

unfoldable pub for_us : ℕ → Outcome VarError OsString → Outcome Error Bool
unfolding read_number
for_us process_id v =
    map_err_outcome (Error.env listen_pid)
      (present_or_true (and_then (read_number u32_limit v) (λ pid. ok (pid == process_id))))

unfoldable pub unset : SocketActivation → Env → Env
unfolding env_remove_var
unset self e =
    if self.unset_env
    then env_remove_var self listen_fdnames
        (env_remove_var self listen_fds (env_remove_var self listen_pid e))
    else e

-- `listen_fdnames.map(|s| s.into_vec()).unwrap_or_default()`
abbrev pub or_no_names : Option OsString → List ℕ
or_no_names none = []
or_no_names (some s) = s

unfoldable pub ready : SocketActivation → Option OsString → ℕ → FdIter
unfolding get_start
ready self fdnames num_fds = record {
  activation = self;
  next = get_start self;
  count = num_fds;
  names = or_no_names fdnames;
  name_offset = 0;
}

-- `process_id` is `std::process::id()`.
unfoldable pub parse : SocketActivation → ℕ → Act Env Error FdIter
unfolding env_var env_var_os empty unset ready
parse self process_id e = (
  and_then (for_us process_id (env_var self listen_pid e)) (λ ours.
      if ours
      then and_then
          (map_err_outcome (Error.env listen_fds)
            (read_number usize_limit (env_var self listen_fds e)))
          (λ num_fds. ok (ready self (env_var_os self listen_fdnames e) num_fds))
      else ok (empty self)),
  unset self e,
)

-- The index of the first `:`, or the length if there is none.
unfoldable pub colon_index : List ℕ → ℕ
colon_index [] = 0
colon_index (c ∷ cs) = if c == b':' then 0 else suc (colon_index cs)

-- An empty name is none.
abbrev pub optional_name : List ℕ → Option OsString
optional_name [] = none
optional_name (c ∷ cs) = some (c ∷ cs)

-- `self.next += 1` on an `i32`
unfoldable pub add_one : Build → RawFd → Outcome ⊥ RawFd
add_one b (pos n) =
    if n + 1 == 2 ^ 31
    then (if b.overflow_checks then panic arithmetic_overflow else ok (negsuc (2 ^ 31 - 1)))
    else ok (pos (n + 1))
add_one b (negsuc zero) = ok (pos 0)
add_one b (negsuc (suc n)) = ok (negsuc n)

-- The end of `next`, once the name and the offset are known.
abbrev pub yield_fd :
    Outcome ⊥ RawFd → OsString → FdIter → Outcome ⊥ (Option FileDescriptor) × FdIter
yield_fd (ok n) name self =
    (ok (some (record { name_ = optional_name name; fd = self.next })), record self { next = n })
yield_fd (err e) name self = absurd e
yield_fd (panic p) name self = (panic p, self)

unfoldable pub next : Build → Act FdIter ⊥ (Option FileDescriptor)
unfolding colon_index add_one
next b self =
    let rest = drop self.name_offset self.names in
    let colon = colon_index rest in
    if self.count == 0
    then (ok none, self)
    else if ltb (length self.names) self.name_offset
    then (panic slice_index, self)
    else yield_fd (add_one b self.next) (take colon rest) (record self {
      name_offset = self.name_offset + min (colon + 1) (length self.names);
      count = self.count - 1;
    })

-- What a `for` loop makes of one result of `next`, given the descriptors of the later rounds.
abbrev pub yielded :
    Outcome ⊥ (Option FileDescriptor)
    → Option (Outcome ⊥ (List FileDescriptor))
    → Option (Outcome ⊥ (List FileDescriptor))
yielded (ok none) rest = some (ok [])
yielded (ok (some d)) none = none
yielded (ok (some d)) (some r) = some (and_then r (λ ds. ok (d ∷ ds)))
yielded (err e) rest = absurd e
yielded (panic p) rest = some (panic p)

-- `for filedesc in sockets`: `next` until it returns None. `none` means that the fuel ran out.
unfoldable pub collect : Build → ℕ → FdIter → Option (Outcome ⊥ (List FileDescriptor))
unfolding next
collect b zero self = none
collect b (suc fuel) self =
    let rest = collect b fuel (next b self).1 in yielded (next b self).0 rest

unfoldable pub name : FileDescriptor → Option OsString
name self = self.name_

unfoldable pub take_fd {ℓ} : {T : Type ℓ} → (RawFd → T) → FileDescriptor → T
take_fd from_raw_fd self = from_raw_fd self.fd
