-- ===== src/Services/Sessions/Listener.antt =====
-- `run` of server/src/services/sessions/mod.rs, up to the call of `serve`: which of the sockets
-- that systemd handed over is the listener.
use tere.Prelude.{
  ℕ, zero, suc, ◌+◌, ◌^◌, ◌≡◌, ◌≤◌, ◌<◌, refl, ◌⊎◌, inl, inr, Bool, false, max, Option, none, some,
  List, [], ◌∷◌, ◌++◌, bytes_eq, codes, if◌then◌else◌, length, Outcome, ok, err, panic, Bool-cases,
  Build,
}
use tere.DbusShell.{ConnectError}
use tere.Std.Fd.{RawFd, Table, close, Owns, close-Owns}
use tere.Std.Env.{OsString, Env, var_os}
use tere.Std.Number.{u32_limit, usize_limit}
use tere.SocketActivation
use tere.SocketActivation.{
  FileDescriptor, FdIter, name, take_fd, next, collect, yielded, parse, new, listen_pid, listen_fds,
  listen_fdnames, or_no_names,
}
use tere.SocketActivation.Names.{split, descriptors}
use tere.SocketActivation.Parsing.{Decimal, parse-collect}

pub data RunError : Type 0 where
  dbus : ConnectError → RunError
  socket_activation : SocketActivation.Error → RunError
  no_socket_for_sessions : RunError

abbrev pub socket_name : OsString
socket_name = codes "tere-sessions"

abbrev pub is_sessions : Option OsString → Bool
is_sessions none = false
is_sessions (some n) = bytes_eq n socket_name

-- The listener that was found so far; a `UnixListener` is named by its descriptor, and closes it
-- on drop.
abbrev pub Found : Type 0
Found = Option RawFd × Table

-- `socket_sessions.insert(fd)` drops the listener that stood there.
abbrev pub insert : RawFd → Found → Found
insert fd (none, t) = (some fd, t)
insert fd (some old, t) = (some fd, close old t)

abbrev pub take_one : FileDescriptor → Found → Found
take_one d s = if is_sessions (name d) then insert (take_fd (λ fd. fd) d) s else s

abbrev pub drop_found : Found → Found
drop_found (none, t) = (none, t)
drop_found (some old, t) = (none, close old t)

-- What the loop does with one result of `next`; `k` is the rest of the loop.
abbrev pub on_next :
    Outcome ⊥ (Option FileDescriptor)
    → Found
    → (Found → Option (Outcome ⊥ (Unit {0}) × Found))
    → Option (Outcome ⊥ (Unit {0}) × Found)
on_next (ok none) s k = some (ok tt, s)
on_next (ok (some d)) s k = k (take_one d s)
on_next (err e) s k = absurd e
on_next (panic p) s k = some (panic p, drop_found s)

-- `for filedesc in sockets`. `none` means that the fuel ran out.
unfoldable pub find_listener : Build → ℕ → FdIter → Found → Option (Outcome ⊥ (Unit {0}) × Found)
unfolding next name take_fd
find_listener b zero sockets s = none
find_listener b (suc fuel) sockets s =
    on_next (next b sockets).0 s (λ s'. find_listener b fuel (next b sockets).1 s')

-- `ok_or`, and then `Dbus::new()`.
abbrev pub with_listener : Outcome ConnectError (Unit {0}) → Found → Outcome RunError RawFd × Table
with_listener bus (none, t) = (err no_socket_for_sessions, t)
with_listener (ok u) (some fd, t) = (ok fd, t)
with_listener (err e) (some fd, t) = (err (dbus e), close fd t)
with_listener (panic p) (some fd, t) = (panic p, close fd t)

abbrev pub after_loop :
    Outcome ConnectError (Unit {0})
    → Option (Outcome ⊥ (Unit {0}) × Found)
    → Option (Outcome RunError RawFd × Table)
after_loop bus none = none
after_loop bus (some (ok u, s)) = some (with_listener bus s)
after_loop bus (some (err e, s)) = absurd e
after_loop bus (some (panic p, s)) = some (panic p, s.1)

abbrev pub after_parse :
    Build
    → ℕ
    → Outcome ConnectError (Unit {0})
    → Outcome SocketActivation.Error FdIter
    → Table
    → Option (Outcome RunError RawFd × Table)
after_parse b fuel bus (ok sockets) t = after_loop bus (find_listener b fuel sockets (none, t))
after_parse b fuel bus (err e) t = some (err (socket_activation e), t)
after_parse b fuel bus (panic p) t = some (panic p, t)

-- The result is the listener with which `serve` is called. `bus` is what `Dbus::new()` returns.
unfoldable pub run :
    Build
    → (fuel process_id : ℕ) → Outcome ConnectError (Unit {0})
    → Env
    → Table
    → Option (Outcome RunError RawFd × Table)
unfolding find_listener
run b fuel process_id bus e t = after_parse b fuel bus (parse new process_id e).0 t

-- The same over the list of what the iterator yields.
abbrev take_all : List FileDescriptor → Found → Found
take_all [] s = s
take_all (d ∷ ds) s = take_all ds (take_one d s)

find_listener-collect :
    (b : Build) (fuel : ℕ) (it : FdIter) (ds : List FileDescriptor) (s : Found)
    → collect b fuel it ≡ some (ok ds)
    → find_listener b fuel it s ≡ some (ok tt, take_all ds s)
unfolding find_listener collect
find_listener-collect b zero it ds s h = cc
find_listener-collect b (suc fuel) it ds s h =
    at (next b it).0 (collect b fuel (next b it).1) refl h
      (λ es d q. find_listener-collect b fuel (next b it).1 es (take_one d s) q)
  where
    at :
        (r : Outcome ⊥ (Option FileDescriptor)) (rest : Option (Outcome ⊥ (List FileDescriptor)))
        → collect b fuel (next b it).1 ≡ rest
        → yielded r rest ≡ some (ok ds)
        → ((es : List FileDescriptor) (d : FileDescriptor)
            → collect b fuel (next b it).1 ≡ some (ok es)
            → find_listener b fuel (next b it).1 (take_one d s)
              ≡ some (ok tt, take_all es (take_one d s)))
        → on_next r s (λ s'. find_listener b fuel (next b it).1 s') ≡ some (ok tt, take_all ds s)
    at (ok none) rest q g k = let e : [] ≡ ds = cc in rw (← e)
    at (ok (some d)) none q g k = cc
    at (ok (some d)) (some (ok es)) q g k = let e : d ∷ es ≡ ds = cc in rw (← e) (k es d q)
    at (ok (some d)) (some (err x)) q g k = absurd x
    at (ok (some d)) (some (panic p)) q g k = cc
    at (err x) rest q g k = absurd x
    at (panic p) rest q g k = cc

-- The descriptors that have the name of the sessions socket, in order.
abbrev pub sessions_fds : List FileDescriptor → List RawFd
sessions_fds [] = []
sessions_fds (d ∷ ds) = if is_sessions d.name_ then d.fd ∷ sessions_fds ds else sessions_fds ds

-- The last of a list, or else the value given.
abbrev pub last_or : Option RawFd → List RawFd → Option RawFd
last_or l [] = l
last_or l (x ∷ xs) = last_or (some x) xs

abbrev pub held : Option RawFd → List RawFd
held none = []
held (some fd) = fd ∷ []

take_all-last :
    (ds : List FileDescriptor) (l : Option RawFd) (t : Table)
    → (take_all ds (l, t)).0 ≡ last_or l (sessions_fds ds)
unfolding name take_fd
take_all-last [] l t = refl
take_all-last (d ∷ ds) none t = elim (Bool-cases (is_sessions d.name_)) [
  | inl same ↦ rw (take_all, take_one, same) (take_all-last ds (some d.fd) t)
  | inr other ↦ rw (take_all, take_one, other) (take_all-last ds none t)
]
take_all-last (d ∷ ds) (some old) t = elim (Bool-cases (is_sessions d.name_)) [
  | inl same ↦ rw (take_all, take_one, same) (take_all-last ds (some d.fd) (close old t))
  | inr other ↦ rw (take_all, take_one, other) (take_all-last ds (some old) t)
]

module _ (before : List RawFd) (bad : ℕ) where
  take_all-Owns :
      (ds : List FileDescriptor) (l : Option RawFd) (t : Table)
      → Owns (held l ++ sessions_fds ds) before bad t
      → Owns (held (take_all ds (l, t)).0) before bad (take_all ds (l, t)).1
  unfolding name take_fd
  take_all-Owns [] none t o = o
  take_all-Owns [] (some old) t o = o
  take_all-Owns (d ∷ ds) none t o = elim (Bool-cases (is_sessions d.name_)) [
    | inl same ↦ rw (take_all, take_one, same) (take_all-Owns ds (some d.fd) t (rw same at o))
    | inr other ↦ rw (take_all, take_one, other) (take_all-Owns ds none t (rw other at o))
  ]
  take_all-Owns (d ∷ ds) (some old) t o = elim (Bool-cases (is_sessions d.name_)) [
    | inl same ↦
        rw (take_all, take_one, same)
          (take_all-Owns ds (some d.fd) (close old t)
            (close-Owns old (d.fd ∷ sessions_fds ds) t (rw same at o)))
    | inr other ↦ rw (take_all, take_one, other) (take_all-Owns ds (some old) t (rw other at o))
  ]

  -- How `run` ends, where the last socket with the name of the sessions socket is `l`.
  abbrev pub Chosen :
      Option RawFd
      → Outcome ConnectError (Unit {0})
      → Option (Outcome RunError RawFd × Table)
      → Type 0
  Chosen none bus (some (r, t)) = (r ≡ err no_socket_for_sessions) × Owns [] before bad t
  Chosen (some fd) (ok u) (some (r, t)) = (r ≡ ok fd) × Owns (fd ∷ []) before bad t
  Chosen (some fd) (err e) (some (r, t)) = (r ≡ err (dbus e)) × Owns [] before bad t
  Chosen (some fd) (panic p) (some (r, t)) = (r ≡ panic p) × Owns [] before bad t
  Chosen l bus none = ⊥

  with_listener-Chosen :
      (bus : Outcome ConnectError (Unit {0})) (l : Option RawFd) (t : Table)
      → Owns (held l) before bad t
      → Chosen l bus (some (with_listener bus (l, t)))
  with_listener-Chosen bus none t o = (refl, o)
  with_listener-Chosen (ok u) (some fd) t o = (refl, o)
  with_listener-Chosen (err e) (some fd) t o = (refl, close-Owns fd [] t o)
  with_listener-Chosen (panic p) (some fd) t o = (refl, close-Owns fd [] t o)

  -- With LISTEN_PID naming this process, LISTEN_FDS a number of sockets and a name for each of
  -- them (or at most two, or no names), `run` serves on the last socket named `tere-sessions`, and
  -- has closed the others of that name. If there is none it returns `NoSocketForSessions`, and if
  -- D-Bus does not connect it returns that error and has closed the socket too.
  pub run-Chosen :
      (b : Build) (process_id n : ℕ) (bus : Outcome ConnectError (Unit {0})) (e : Env) (t : Table)
      (names : List ℕ)
      → Decimal u32_limit e listen_pid process_id
      → Decimal usize_limit e listen_fds n
      → or_no_names (var_os e listen_fdnames) ≡ names
      → 3 + n < 2 ^ 31
      → (names ≡ []) ⊎ (n ≤ max 2 (length (split names)))
      → Owns (sessions_fds (descriptors 3 (split names) n)) before bad t
      → Chosen
          (last_or none (sessions_fds (descriptors 3 (split names) n)))
          bus
          (run b (suc n) process_id bus e t)
  unfolding run
  run-Chosen b process_id n bus e t names p d named small few o =
      let ds = descriptors 3 (split names) n in
      let (it, parsed, yields) = parse-collect b process_id n e names p d named small few in
      rw (parsed, find_listener-collect b (suc n) it ds (none, t) yields, ← take_all-last ds none t)
        (with_listener-Chosen bus (take_all ds (none, t)).0 (take_all ds (none, t)).1
          (take_all-Owns ds none t o))
