-- ===== src/Programs/DebugClient/Stages.antt =====
-- The stages of the client in server/src/bin/tere-debug-client-sessions.rs, and what its calls do
-- to them.
use tere.Prelude.{
  ℕ, ◌≡◌, ap, ◌⊎◌, inr, Option, none, some, List, [], ◌∷◌, ◌++◌, map, length, Outcome, ok, err,
  panic, Act, ◌>>=◌, continue, expect_outcome,
}
use tere.Std.Fd.{RawFd}
use tere.Ipc.{IoError}
use tere.Proto.Pty.{Output, Input}
use tere.Proto.Sessions.{Request}
use tere.Programs.DebugClient.{
  Conns, World, date, end_of_file, shell_request, call, note, request_shell, type_input,
  print_output, then_again,
}

-- An end of file for each output, behind the command.
abbrev pub typed_for : List Output → List Input
typed_for outputs = date ∷ map (λ o. end_of_file) outputs

-- The stages of a run: nothing was sent; the shell was asked for, with the second of the two
-- sockets; each output but the last, or each output, has been answered.
pub data Transcript (fds : IoError ⊎ (RawFd × RawFd))
    : List Request → List Input → List Output → Type 0 where
  silent : Transcript fds [] [] []
  asked :
      (ours theirs : RawFd)
      → fds ≡ inr (ours, theirs)
      → Transcript fds (shell_request theirs ∷ []) [] []
  answered :
      (ours theirs : RawFd)
      → fds ≡ inr (ours, theirs)
      → (outputs : List Output)
      → Transcript fds (shell_request theirs ∷ []) (typed_for outputs) outputs
  unanswered :
      (ours theirs : RawFd)
      → fds ≡ inr (ours, theirs)
      → (outputs : List Output) (last : Output)
      → Transcript fds (shell_request theirs ∷ []) (typed_for outputs) (outputs ++ last ∷ [])

module _ {S : Type 0} where
  abbrev pub Told : IoError ⊎ (RawFd × RawFd) → World S → Type 0
  Told fds w = Transcript fds w.requests w.inputs w.printed

  -- Where a run may stand after `fuel` rounds: it is in the next round, and has answered that many
  -- outputs, or it has panicked at one of the stages.
  abbrev pub Ran : IoError ⊎ (RawFd × RawFd) → ℕ → Option (Outcome ⊥ ⊥) × World S → Type 0
  Ran fds fuel (none, w) = (length w.printed ≡ fuel) × (w.inputs ≡ typed_for w.printed) × Told fds w
  Ran fds fuel (some (ok x), w) = ⊥
  Ran fds fuel (some (err e), w) = ⊥
  Ran fds fuel (some (panic p), w) = Told fds w

  -- The transcript of a world.
  pub record Stage (rs : List Request) (is : List Input) (os : List Output) (w : World S)
      : Type 0 where
    pub same_requests : w.requests ≡ rs
    pub same_inputs : w.inputs ≡ is
    pub same_printed : w.printed ≡ os

  pub Stage-Told :
      {fds : IoError ⊎ (RawFd × RawFd)} {rs : List Request} {is : List Input} {os : List Output}
      {w : World S}
      → Stage rs is os w
      → Transcript fds rs is os
      → Told fds w
  Stage-Told st t = rw (st.same_requests, st.same_inputs, st.same_printed) t

  module _ (fds : IoError ⊎ (RawFd × RawFd)) where
    abbrev pub After : {A : Type 0} → (A → World S → Type 0) → Outcome ⊥ A × World S → Type 0
    After Q (ok a, w) = Q a w
    After Q (err e, w) = ⊥
    After Q (panic p, w) = Told fds w

    pub bind-After :
        {A B : Type 0} (Q : A → World S → Type 0) (R : B → World S → Type 0)
        (r : Outcome ⊥ A × World S) (k : A → Act (World S) ⊥ B)
        → After Q r
        → ((a : A) (w : World S) → Q a w → After R (k a w))
        → After R (continue r.0 k r.1)
    bind-After Q R (ok a, w) k q f = f a w q
    bind-After Q R (err e, w) k q f = absurd q
    bind-After Q R (panic p, w) k q f = q

    pub weaken-After :
        {A : Type 0} (Q R : A → World S → Type 0) (r : Outcome ⊥ A × World S)
        → After Q r
        → ((a : A) (w : World S) → Q a w → R a w)
        → After R r
    weaken-After Q R (ok a, w) q f = f a w q
    weaken-After Q R (err e, w) q f = q
    weaken-After Q R (panic p, w) q f = q

    pub then-Ran :
        (c : Conns S) (n : ℕ) (Q : World S → Type 0) (r : Outcome ⊥ (Unit {0}) × World S)
        (again : World S → Option (Outcome ⊥ ⊥) × World S)
        → After (λ u w. Q w) r
        → ((w : World S) → Q w → Ran fds n (again w))
        → Ran fds n (then_again c r again)
    then-Ran c n Q (ok u, w) again q f = f w q
    then-Ran c n Q (err e, w) again q f = absurd q
    then-Ran c n Q (panic p, w) again q f = q

    module _ {rs : List Request} {is : List Input} {os : List Output}
        (t : Transcript fds rs is os) where
      abbrev At : {A : Type 0} → A → World S → Type 0
      At a w = Stage rs is os w

      pub expected-After :
          {E A : Type 0} (r : Outcome E A) (w : World S)
          → Stage rs is os w
          → After (At {A = A}) (expect_outcome r, w)
      expected-After (ok a) w st = st
      expected-After (err e) w st = Stage-Told st t
      expected-After (panic p) w st = Stage-Told st t

      pub call-After :
          {E A : Type 0} (m : Act S E A) (w : World S)
          → Stage rs is os w
          → After (At {A = A}) (call m w)
      call-After m w st =
          let w' : World S = record w { behind = (m w.behind).1 } in
          let st' : Stage rs is os w' = record {
            same_requests = st.same_requests;
            same_inputs = st.same_inputs;
            same_printed = st.same_printed;
          } in
          expected-After (m w.behind).0 w' st'

      -- A call whose result is noted in the transcript.
      noted-After :
          {E A : Type 0} (m : Act S E A) (f : A → World S → World S) (R : World S → Type 0)
          (w : World S)
          → ((a : A) (w' : World S) → Stage rs is os w' → R (f a w'))
          → Stage rs is os w
          → After (λ (u : Unit {0}) w'. R w') ((call m >>= λ a. note (f a)) w)
      noted-After {E} {A} m f R w keeps st =
          bind-After (At {A = A}) (λ (u : Unit {0}) w'. R w') (call m w) (λ a. note (f a))
            (call-After m w st) (λ a w' st'. keeps a w' st')

      module _ (c : Conns S) where
        pub request_shell-After :
            (theirs : RawFd) (w : World S)
            → Stage rs is os w
            → After
                (λ u w'. Stage (rs ++ shell_request theirs ∷ []) is os w')
                (request_shell c theirs w)
        unfolding request_shell
        request_shell-After theirs w st =
            noted-After (c.send_request (shell_request theirs))
              (λ u w'. record w' { requests = w'.requests ++ shell_request theirs ∷ [] })
              (Stage (rs ++ shell_request theirs ∷ []) is os) w
              (λ u w' st'. record {
                same_requests = ap (λ l. l ++ shell_request theirs ∷ []) st'.same_requests;
                same_inputs = st'.same_inputs;
                same_printed = st'.same_printed;
              })
              st

        pub type_input-After :
            (message : Input) (w : World S)
            → Stage rs is os w
            → After (λ u w'. Stage rs (is ++ message ∷ []) os w') (type_input c message w)
        unfolding type_input
        type_input-After message w st =
            noted-After (c.send_input message)
              (λ u w'. record w' { inputs = w'.inputs ++ message ∷ [] })
              (Stage rs (is ++ message ∷ []) os) w
              (λ u w' st'. record {
                same_requests = st'.same_requests;
                same_inputs = ap (λ l. l ++ message ∷ []) st'.same_inputs;
                same_printed = st'.same_printed;
              })
              st

        pub print_output-After :
            (w : World S)
            → Stage rs is os w
            → After (λ u w'. (o : Output) × Stage rs is (os ++ o ∷ []) w') (print_output c w)
        unfolding print_output
        print_output-After w st =
            noted-After c.receive_output (λ o w'. record w' { printed = w'.printed ++ o ∷ [] })
              (λ w'. (o : Output) × Stage rs is (os ++ o ∷ []) w') w
              (λ o w' st'. (
                o,
                record {
                  same_requests = st'.same_requests;
                  same_inputs = st'.same_inputs;
                  same_printed = ap (λ l. l ++ o ∷ []) st'.same_printed;
                },
              ))
              st
