-- ===== src/Services/Sessions/Simulation.antt =====
-- Steps of the machine of Services/Sessions/Threads by one of its threads.
use tere.Prelude.{ℕ, ◌≡◌, refl, subst, ◌∙◌, false, ◌==◌, arith}
use tere.Services.Sessions.Store.{Sessions}
use tere.Services.Sessions.Threads.{Pc, ended, System, update, Step, fails}

-- Any number of steps of any threads.
pub data Steps (s : System) : System → Type 0 where
  done : Steps s s
  further : {t u : System} → Steps s t → Step t u → Steps s u

Steps-append : {s t u : System} → Steps s t → Steps t u → Steps s u
Steps-append p done = p
Steps-append p (further q step) = further (Steps-append p q) step

-- From `sys` the machine can go to a state with the sessions `m` and its thread `i` at `p`, while
-- the other threads stand still.
pub record Simulates (i : ℕ) (sys : System) (m : Sessions) (p : Pc) : Type 0 where
  pub final : System
  pub path : Steps sys final
  pub same_sessions : final.sessions ≡ m
  pub thread : final.pc i ≡ p
  pub others : (j : ℕ) → (i == j) ≡ false → final.pc j ≡ sys.pc j

unfoldable pub Simulates-refl :
    (i : ℕ) (sys : System) (m : Sessions) (p : Pc)
    → sys.sessions ≡ m
    → sys.pc i ≡ p
    → Simulates i sys m p
Simulates-refl i sys m p e h = record {
  final = sys;
  path = done;
  same_sessions = e;
  thread = h;
  others = λ j d. refl;
}

pub Simulates-trans :
    (i : ℕ) (sys : System) (m n : Sessions) (p q : Pc) (a : Simulates i sys m p)
    → Simulates i a.final n q
    → Simulates i sys n q
Simulates-trans i sys m n p q a b = record {
  final = b.final;
  path = Steps-append a.path b.path;
  same_sessions = b.same_sessions;
  thread = b.thread;
  others = λ j d. b.others j d ∙ a.others j d;
}

-- One more step of the thread itself.
pub Simulates-step :
    (i : ℕ) (sys : System) (m n : Sessions) (p q : Pc) (a : Simulates i sys m p)
    → Step a.final (record { sessions = n; pc = update a.final.pc i q })
    → Simulates i sys n q
Simulates-step i sys m n p q a step = record {
  final = record { sessions = n; pc = update a.final.pc i q };
  path = further a.path step;
  same_sessions = refl;
  thread = ground arith;
  others = λ j d. rw d (a.others j d);
}

pub Simulates-fails :
    (i : ℕ) (sys : System) (m : Sessions) (p : Pc) → Simulates i sys m p → Simulates i sys m ended
Simulates-fails i sys m p a =
    subst (λ n. Simulates i sys n ended) a.same_sessions
      (Simulates-step i sys m a.final.sessions p ended a (fails i))
