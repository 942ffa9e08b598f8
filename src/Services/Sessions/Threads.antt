-- ===== src/Services/Sessions/Threads.antt =====
-- Any number of connections of server/src/services/sessions/mod.rs over one map of sessions, with
-- their locked sections interleaved in any order.
use tere.Prelude.{
  ℕ, ◌≡◌, ◌≢◌, some, List, [], bytes_eq_iff, if◌then◌else◌, ◌==◌, Outcome, ok, err, panic, arith,
}
use tere.Std.Fd.{RawFd}
use tere.Services.Sessions.{ConnError, Server, make_ready}
use tere.Services.Sessions.Creation.{make_ready-creating}
use tere.Services.Sessions.Store.{
  SessionId, creating, ready, Sessions, lookup, set, allocate, lookup-set, allocate-fresh,
}

-- Where a connection's thread stands: at `receive_with_fds`, between its two locked sections with
-- an id of its own, at its end, or at the panic for a stolen id.
pub data Pc : Type 0 where
  idle : Pc
  working : SessionId → Pc
  ended : Pc
  stolen : Pc

pub record System : Type 0 where
  pub sessions : Sessions
  pub pc : ℕ → Pc

abbrev pub update : (ℕ → Pc) → ℕ → Pc → ℕ → Pc
update pc i p j = if i == j then p else pc j

abbrev pub alone : Sessions → Server (Unit {0})
alone m = record { world = tt; sessions = m }

-- What the second locked section leaves of the thread.
abbrev pub after_ready : Outcome ConnError (Unit {0}) → Pc
after_ready (ok u) = idle
after_ready (err e) = stolen
after_ready (panic p) = stolen

pub data Step (s : System) : System → Type 0 where
  allocates :
      (i : ℕ) (draws : List SessionId) (id : SessionId) (m : Sessions)
      → s.pc i ≡ idle
      → allocate draws s.sessions ≡ some (id, m)
      → Step s (record { sessions = m; pc = update s.pc i (working id) })
  fails : (i : ℕ) → Step s (record s { pc = update s.pc i ended })
  enters :
      (i : ℕ) (id : SessionId) (pty_master pty_conn : RawFd)
      → s.pc i ≡ working id
      → Step s (record {
        sessions = (make_ready id pty_master pty_conn (alone s.sessions)).1.sessions;
        pc = update s.pc i (after_ready (make_ready id pty_master pty_conn (alone s.sessions)).0);
      })

abbrev pub start : System
start = record { sessions = []; pc = λ i. idle }

pub data Reach : System → Type 0 where
  here : Reach start
  next : {s t : System} → Reach s → Step s t → Reach t

pub record Inv (s : System) : Type 0 where
  pub owned : (i : ℕ) (id : SessionId) → s.pc i ≡ working id → lookup id s.sessions ≡ some creating
  pub unique : (i j : ℕ) (id : SessionId) → s.pc i ≡ working id → s.pc j ≡ working id → i ≡ j
  pub not_stolen : (i : ℕ) → s.pc i ≢ stolen

allocates-Inv :
    (s : System) (i : ℕ) (draws : List SessionId) (id : SessionId) (m : Sessions)
    → Inv s
    → s.pc i ≡ idle
    → allocate draws s.sessions ≡ some (id, m)
    → Inv (record { sessions = m; pc = update s.pc i (working id) })
allocates-Inv s i draws id m v at found =
    let (free, fresh) = allocate-fresh draws s.sessions m id found in
    record {
      owned = λ j x h. ground (arith, v.owned j x, fresh x, bytes_eq_iff id x);
      unique = λ j k x h g. ground (arith, v.unique j k x, v.owned j x, v.owned k x, free);
      not_stolen = λ j h. ground (arith, v.not_stolen j);
    }

fails-Inv : (s : System) (i : ℕ) → Inv s → Inv (record s { pc = update s.pc i ended })
fails-Inv s i v = record {
  owned = λ j x h. ground (arith, v.owned j x);
  unique = λ j k x h g. ground (arith, v.unique j k x);
  not_stolen = λ j h. ground (arith, v.not_stolen j);
}

enters-Inv :
    (s : System) (i : ℕ) (id : SessionId) (p c : RawFd)
    → Inv s
    → s.pc i ≡ working id
    → Inv (record { sessions = set id (ready p c) s.sessions; pc = update s.pc i idle })
enters-Inv s i id p c v at = record {
  owned = λ j x h. ground (
    arith,
    v.owned j x,
    v.unique i j x,
    lookup-set id x (ready p c) s.sessions,
    bytes_eq_iff id x,
  );
  unique = λ j k x h g. ground (arith, v.unique j k x);
  not_stolen = λ j h. ground (arith, v.not_stolen j);
}

Step-Inv : {s t : System} → Step s t → Inv s → Inv t
Step-Inv {s} (allocates i draws id m at found) v = allocates-Inv s i draws id m v at found
Step-Inv {s} (fails i) v = fails-Inv s i v
Step-Inv {s} (enters i id p c at) v =
    rw (make_ready-creating id p c (alone s.sessions) (v.owned i id at))
      (enters-Inv s i id p c v at)

-- In every reachable state of any number of threads, a thread between its locked sections has an
-- id that is its own alone and whose session is still `Creating`; so the panic for a stolen session
-- id is never reached.
pub Reach-Inv : {s : System} → Reach s → Inv s
Reach-Inv here = record { owned = λ i id h. cc; unique = λ i j id h g. cc; not_stolen = λ i h. cc }
Reach-Inv (next r step) = Step-Inv step (Reach-Inv r)
