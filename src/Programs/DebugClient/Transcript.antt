-- ===== src/Programs/DebugClient/Transcript.antt =====
-- What the client in server/src/bin/tere-debug-client-sessions.rs sends and prints.
use tere.Prelude.{
  ℕ, zero, suc, ◌+◌, ◌≡◌, refl, sym, ap, ◌∙◌, subst, ◌⊎◌, inl, inr, List, [], ◌∷◌, ◌++◌, length,
  length-append, arith, Outcome, Act, ◌>>=◌, ◌>>◌,
}
use mathlib.Core.List.{map-append}
use tere.Std.Fd.{RawFd}
use tere.Ipc.{IoError}
use tere.Ipc.Handshake.{Identity, handshake_as_client}
use tere.Ipc.SeqPacket.Sockets.{SeqPacket, pair, seq_packet_pair}
use tere.Proto.Pty
use tere.Proto.Pty.{Output, Input}
use tere.Proto.Sessions
use tere.Proto.Sessions.{Request}
use tere.Programs.DebugClient.{
  Conns, World, date, end_of_file, shell_request, call, given, request_shell, type_input,
  print_output, answer_output, answer_outputs, begin, main,
}
use tere.Programs.DebugClient.Stages.{
  typed_for, Transcript, silent, asked, answered, unanswered, Ran, Stage, After, Stage-Told,
  bind-After, weaken-After, then-Ran, expected-After, call-After, request_shell-After,
  type_input-After, print_output-After,
}

module _ {S : Type 0} where
  module _ (fds : IoError ⊎ (RawFd × RawFd)) where
    module _ (c : Conns S) (ours theirs : RawFd) (made : fds ≡ inr (ours, theirs)) where
      abbrev Answered : List Output → World S → Type 0
      Answered outputs w = Stage (shell_request theirs ∷ []) (typed_for outputs) outputs w

      typed_for-snoc :
          (outputs : List Output) (o : Output)
          → typed_for outputs ++ end_of_file ∷ [] ≡ typed_for (outputs ++ o ∷ [])
      typed_for-snoc outputs o =
          ap (λ l. date ∷ l) (sym (map-append (λ p. end_of_file) outputs (o ∷ [])))

      answer_output-After :
          (outputs : List Output) (w : World S)
          → Answered outputs w
          → After fds (λ u w'. (o : Output) × Answered (outputs ++ o ∷ []) w') (answer_output c w)
      unfolding answer_output
      answer_output-After outputs w st =
          bind-After fds
            (λ u w'.
              (o : Output) × Stage (shell_request theirs ∷ []) (typed_for outputs)
                (outputs ++ o ∷ []) w')
            (λ u w'. (o : Output) × Answered (outputs ++ o ∷ []) w') (print_output c w)
            (λ u. type_input c end_of_file)
            (print_output-After fds (answered ours theirs made outputs) c w st)
            (λ u w' (o, st'). typed o w' st')
        where
          typed :
              (o : Output) (w' : World S)
              → Stage (shell_request theirs ∷ []) (typed_for outputs) (outputs ++ o ∷ []) w'
              → After fds
                  (λ u w''. (p : Output) × Answered (outputs ++ p ∷ []) w'')
                  (type_input c end_of_file w')
          typed o w' st' =
              weaken-After fds
                (λ u w''.
                  Stage (shell_request theirs ∷ []) (typed_for outputs ++ end_of_file ∷ [])
                    (outputs ++ o ∷ []) w'')
                (λ u w''. (p : Output) × Answered (outputs ++ p ∷ []) w'')
                (type_input c end_of_file w')
                (type_input-After fds (unanswered ours theirs made outputs o) c end_of_file w' st')
                (λ u w'' st''. (
                  o,
                  subst (λ is. Stage (shell_request theirs ∷ []) is (outputs ++ o ∷ []) w'')
                      (typed_for-snoc outputs o) st'',
                ))

      answer_outputs-Ran :
          (fuel n : ℕ) (outputs : List Output) (w : World S)
          → Answered outputs w
          → n ≡ length outputs + fuel
          → Ran fds n (answer_outputs c fuel w)
      unfolding answer_outputs
      answer_outputs-Ran zero n outputs w st e = (
        ap length st.same_printed ∙ omega arith,
        st.same_inputs ∙ ap typed_for (sym st.same_printed),
        Stage-Told st (answered ours theirs made outputs),
      )
      answer_outputs-Ran (suc fuel) n outputs w st e =
          then-Ran fds c n (λ w'. (o : Output) × Answered (outputs ++ o ∷ []) w')
            (answer_output c w) (λ w'. answer_outputs c fuel w') (answer_output-After outputs w st)
            (λ w' (o, st'). answer_outputs-Ran fuel n (outputs ++ o ∷ []) w' st' (one_more o))
        where
          one_more : (o : Output) → n ≡ length (outputs ++ o ∷ []) + fuel
          one_more o = omega (arith, length-append outputs (o ∷ []))

  module _ (c : Conns S) (id : Identity) where
    abbrev Begun : IoError ⊎ (RawFd × RawFd) → World S → Type 0
    Begun fds w =
        (ours : RawFd) × (theirs : RawFd) × (fds ≡ inr (ours, theirs))
        × Stage (shell_request theirs ∷ []) (typed_for []) [] w

    -- From the request for the shell on.
    abbrev ask_and_type : RawFd → Act (World S) ⊥ (Unit {0})
    ask_and_type theirs = do
      request_shell c theirs
      call (handshake_as_client id c.client Pty.user_client_intent Pty.user_server_intent)
      type_input c date

    ask_and_type-After :
        (ours theirs : RawFd) (w : World S)
        → Stage [] [] [] w
        → After (inr (ours, theirs)) (λ u w'. Begun (inr (ours, theirs)) w') (ask_and_type theirs w)
    ask_and_type-After ours theirs w st =
        let fds : IoError ⊎ (RawFd × RawFd) = inr (ours, theirs) in
        let Requested : Unit {0} → World S → Type 0 =
          λ u w'. Stage (shell_request theirs ∷ []) [] [] w' in
        let Typed : Unit {0} → World S → Type 0 = λ u w'. Begun fds w' in
        let told : Transcript fds (shell_request theirs ∷ []) [] [] = asked ours theirs refl in
        bind-After fds Requested Typed (request_shell c theirs w) _
          (request_shell-After fds silent c theirs w st)
          (λ u w1 st1.
            bind-After fds Requested Typed
              (call (handshake_as_client id c.client Pty.user_client_intent Pty.user_server_intent)
                w1)
              _
              (call-After fds told
                (handshake_as_client id c.client Pty.user_client_intent Pty.user_server_intent) w1
                st1)
              (λ v w2 st2.
                weaken-After fds (λ x w3. Stage (shell_request theirs ∷ []) (date ∷ []) [] w3) Typed
                  (type_input c date w2) (type_input-After fds told c date w2 st2)
                  (λ x w3 st3. (ours, theirs, refl, st3))))

    -- From the call of `socketpair` on.
    abbrev pair_and_ask : IoError ⊎ (RawFd × RawFd) → Act (World S) ⊥ (Unit {0})
    unfolding seq_packet_pair
    pair_and_ask fds = given (seq_packet_pair fds) >>= λ sockets. ask_and_type sockets.1.raw

    pair_and_ask-After :
        (fds : IoError ⊎ (RawFd × RawFd)) (w : World S)
        → Stage [] [] [] w
        → After fds (λ u w'. Begun fds w') (pair_and_ask fds w)
    unfolding seq_packet_pair pair
    pair_and_ask-After (inl e) w st = Stage-Told st silent
    pair_and_ask-After (inr (ours, theirs)) w st = ask_and_type-After ours theirs w st

    begin-After :
        (connected : Outcome IoError SeqPacket) (fds : IoError ⊎ (RawFd × RawFd)) (w : World S)
        → Stage [] [] [] w
        → After fds (λ u w'. Begun fds w') (begin c id connected fds w)
    unfolding begin
    begin-After connected fds w st =
        let greet =
          call (handshake_as_client id c.conn Sessions.client_intent Sessions.server_intent) in
        bind-After fds (λ (s : SeqPacket) w'. Stage [] [] [] w') (λ u w'. Begun fds w')
          (given connected w) _ (expected-After fds silent connected w st)
          (λ s w1 st1.
            bind-After fds (λ (u : Unit {0}) w'. Stage [] [] [] w') (λ u w'. Begun fds w')
              (greet w1) _
              (call-After fds silent
                (handshake_as_client id c.conn Sessions.client_intent Sessions.server_intent) w1
                st1)
              (λ u w2 st2. pair_and_ask-After fds w2 st2))

  -- The program never ends by itself: a run is in its loop, or it has panicked. A run that has gone
  -- through any number of rounds of the loop has asked for a shell, handing over the second of its
  -- two sockets, has typed the command, and has got that many outputs and typed an end of file
  -- after each. A run that has panicked got as far as one of these stages: nothing was sent; the
  -- shell was asked for; the command was typed, and an end of file for each output, or for each
  -- but the last. This holds for whatever lies behind the connections and whatever their calls
  -- return.
  pub main-Ran :
      (c : Conns S) (id : Identity) (connected : Outcome IoError SeqPacket)
      (fds : IoError ⊎ (RawFd × RawFd)) (fuel : ℕ) (behind : S)
      → Ran fds fuel (
          main c id connected fds fuel
            (record { behind = behind; requests = []; inputs = []; printed = [] }))
  unfolding main
  main-Ran c id connected fds fuel behind =
      let w : World S = record { behind = behind; requests = []; inputs = []; printed = [] } in
      then-Ran fds c fuel (Begun c id fds) (begin c id connected fds w)
        (λ w'. answer_outputs c fuel w')
        (begin-After c id connected fds w
          (record { same_requests = refl; same_inputs = refl; same_printed = refl }))
        (λ w' (ours, theirs, made, st).
          answer_outputs-Ran fds c ours theirs made fuel fuel [] w' st (omega arith))
