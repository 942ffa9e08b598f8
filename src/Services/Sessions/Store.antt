-- ===== src/Services/Sessions/Store.antt =====
-- The map of sessions in server/src/services/sessions/mod.rs, and the choice of a session id.
use tere.Prelude.{
  ◌≡◌, ◌≢◌, ◌≤◌, ◌<◌, refl, inl, inr, Bool, true, false, Option, none, some, List, [], ◌∷◌,
  bytes_eq, bytes_eq_iff, if◌then◌else◌, length, arith, Bool-cases, All,
}
use tere.Std.Fd.{RawFd}
use tere.Ipc.Bincode.{Bytes}

-- 24 random bytes.
abbrev pub SessionId : Type 0
SessionId = Bytes

-- `pty_service_conn` is named by its descriptor.
pub data Session : Type 0 where
  creating : Session
  ready : (pty_master pty_service_conn : RawFd) → Session

abbrev pub Sessions : Type 0
Sessions = List (SessionId × Session)

unfoldable pub lookup : SessionId → Sessions → Option Session
lookup id [] = none
lookup id ((j, v) ∷ m) = if bytes_eq j id then some v else lookup id m

-- A write through the `Arc<Mutex<Session>>` that the map holds.
unfoldable pub set : SessionId → Session → Sessions → Sessions
set id v [] = []
set id v ((j, w) ∷ m) = if bytes_eq j id then (j, v) ∷ m else (j, w) ∷ set id v m

abbrev pub is_vacant : Option Session → Bool
is_vacant none = true
is_vacant (some v) = false

-- The loop over `rand::random()`, under the lock of the map. `none` means that all ids of the list
-- were taken.
unfoldable pub allocate : List SessionId → Sessions → Option (SessionId × Sessions)
unfolding lookup
allocate [] m = none
allocate (id ∷ ids) m =
    let rest = allocate ids m in
    if is_vacant (lookup id m) then some (id, (id, creating) ∷ m) else rest

pub lookup-set :
    (id j : SessionId) (v : Session) (m : Sessions)
    → lookup j (set id v m)
      ≡ (if bytes_eq id j then (if is_vacant (lookup j m) then none else some v) else lookup j m)
unfolding lookup set
lookup-set id j v [] = ground arith
lookup-set id j v ((i, w) ∷ m) =
    ground (arith, lookup-set id j v m, bytes_eq_iff i id, bytes_eq_iff i j, bytes_eq_iff id j)

vacant-none : (o : Option Session) → is_vacant o ≡ true → o ≡ none
vacant-none none h = refl
vacant-none (some v) h = cc

pair-of-some :
    {A B : Type 0} {a a' : A} {b b' : B}
    → ◌≡◌ {A = Option (A × B)} (some (a, b)) (some (a', b'))
    → (a ≡ a') × (b ≡ b')
pair-of-some h = (cc, cc)

-- An allocation takes an id that no session had, enters it as `Creating`, and leaves the session of
-- every other id as it was.
pub allocate-fresh :
    (ids : List SessionId) (m m' : Sessions) (id : SessionId)
    → allocate ids m ≡ some (id, m')
    → (lookup id m ≡ none)
      × ((j : SessionId) → lookup j m' ≡ (if bytes_eq id j then some creating else lookup j m))
unfolding allocate
allocate-fresh [] m m' id h = cc
allocate-fresh (x ∷ ids) m m' id h = elim (Bool-cases (is_vacant (lookup x m))) [
  | inl free ↦
      let (same, new) = pair-of-some (rw free at h) in
      (rw (← same) (vacant-none (lookup x m) free), λ j. rw (← same, ← new) refl)
  | inr taken ↦ allocate-fresh ids m m' id (rw taken at h)
]

-- The sessions without those of one id.
without : SessionId → Sessions → Sessions
without id [] = []
without id ((j, v) ∷ m) = let rest = without id m in if bytes_eq j id then rest else (j, v) ∷ rest

length-without-le : (id : SessionId) (m : Sessions) → length (without id m) ≤ length m
unfolding without
length-without-le id [] = omega arith
length-without-le id ((j, v) ∷ m) = ground (arith, length-without-le id m)

length-without :
    (id : SessionId) (m : Sessions)
    → is_vacant (lookup id m) ≡ false
    → length (without id m) < length m
unfolding without lookup
length-without id [] h = cc
length-without id ((j, v) ∷ m) h = ground (arith, length-without id m, length-without-le id m)

lookup-without :
    (id j : SessionId) (m : Sessions) → bytes_eq id j ≡ false → lookup j (without id m) ≡ lookup j m
unfolding without lookup
lookup-without id j [] h = refl
lookup-without id j ((i, v) ∷ m) h =
    ground (arith, lookup-without id j m, bytes_eq_iff i id, bytes_eq_iff i j, bytes_eq_iff id j)

-- No id of a list stands in it twice.
abbrev pub Distinct : List SessionId → Type 0
Distinct [] = Unit
Distinct (id ∷ ids) = All (λ j. bytes_eq id j ≡ false) ids × Distinct ids

abbrev AllTaken : List SessionId → Sessions → Type 0
AllTaken ids m = All (λ j. is_vacant (lookup j m) ≡ false) ids

allocate-none : (ids : List SessionId) (m : Sessions) → allocate ids m ≡ none → AllTaken ids m
unfolding allocate
allocate-none [] m h = tt
allocate-none (x ∷ ids) m h = elim (Bool-cases (is_vacant (lookup x m))) [
  | inl free ↦ let odd = rw free at h in cc
  | inr taken ↦ (taken, allocate-none ids m (rw taken at h))
]

AllTaken-without :
    (id : SessionId) (ids : List SessionId) (m : Sessions)
    → All (λ j. bytes_eq id j ≡ false) ids
    → AllTaken ids m
    → AllTaken ids (without id m)
AllTaken-without id [] m d h = tt
AllTaken-without id (j ∷ ids) m d h =
    (rw (lookup-without id j m d.0) h.0, AllTaken-without id ids m d.1 h.1)

length-AllTaken :
    (ids : List SessionId) (m : Sessions) → Distinct ids → AllTaken ids m → length ids ≤ length m
length-AllTaken [] m d h = omega arith
length-AllTaken (id ∷ ids) m d h = omega (
  arith,
  length-without id m h.0,
  length-AllTaken ids (without id m) d.1 (AllTaken-without id ids m d.0 h.1),
)

-- The loop over random ids ends: among more distinct ids than there are sessions, one is free.
pub allocate-ne-none :
    (ids : List SessionId) (m : Sessions)
    → Distinct ids
    → length m < length ids
    → allocate ids m ≢ none
allocate-ne-none ids m d lt h =
    absurd (omega (arith, length-AllTaken ids m d (allocate-none ids m h)))
