-- ===== src/Services/Pty/User/Progress.antt =====
-- The input thread of server/src/services/pty/user.rs does not stay in one message for ever.
use tere.Prelude.{
  ℕ, zero, suc, ◌+◌, ◌≡◌, ◌≤◌, refl, sym, ap, subst, ◌∙◌, true, false, [], ◌∷◌, ◌++◌, length, take,
  drop, ltb, ◌==◌, arith, append_assoc, append-nil, take-append-drop, length-drop,
}
use tere.Prelude.Int.{pos}
use tere.Std.Fd.{is_negative}
use tere.Ipc.Bincode.{Bytes}
use tere.PtyMaster.{Returned, io_result, write, eintr}
use tere.Services.Pty.User.{
  InputAt, receiving, writing, InputThread, pty_wrote, input_step, wrote, write_all,
}

-- What write(2) may return for a buffer that is not empty, other than an error that ends the
-- thread: a count of at least one byte, or an interruption.
pub data Answer (rest : Bytes) (r : Returned) : Type 0 where
  again : is_negative r.ret ≡ true → r.errno ≡ eintr → Answer rest r
  took : (n : ℕ) → r.ret ≡ pos n → 1 ≤ n → n ≤ length rest → Answer rest r

abbrev pub rest_of : InputAt → Bytes
rest_of (writing rest) = rest
rest_of receiving = []
rest_of (InputAt.finished x) = []

-- `k` calls of `write`, of which the first is call number `i`.
unfoldable pub calls : (ℕ → Bytes → Returned) → (k i : ℕ) → InputThread → InputThread
unfolding input_step
calls answers zero i t = t
calls answers (suc k) i t =
    calls answers k (i + 1) (input_step t.at (pty_wrote (answers i (rest_of t.at))) t)

-- A thread that has written `rest` after the state `t`.
pub record Wrote (t : InputThread) (rest : Bytes) (u : InputThread) : Type 0 where
  pub back : u.at ≡ receiving
  pub written : u.written ≡ t.written ++ rest
  pub received : u.received ≡ t.received

wrote-again :
    (rest : Bytes) (r : Returned) (t : InputThread)
    → is_negative r.ret ≡ true
    → r.errno ≡ eintr
    → wrote rest (write r) t ≡ t
unfolding write io_result
wrote-again rest r t h e = rw (h, e)

wrote-took :
    (rest : Bytes) (r : Returned) (n : ℕ) (t : InputThread)
    → r.ret ≡ pos n
    → 1 ≤ n
    → n ≤ length rest
    → wrote rest (write r) t
      ≡ record t { at = write_all (drop n rest); written = t.written ++ take n rest }
unfolding write io_result
wrote-took rest r n t e lo hi =
    let some_written : (n == 0) ≡ false = ground arith in
    let within : ltb (length rest) n ≡ false = ground arith in rw (e, some_written, within)

Wrote-end :
    (t : InputThread) (rest : Bytes) (n : ℕ)
    → drop n rest ≡ []
    → Wrote t rest (record t { at = write_all (drop n rest); written = t.written ++ take n rest })
Wrote-end t rest n e = record {
  back = ap write_all e;
  written =
      ap (λ l. t.written ++ l)
        (sym (append-nil (take n rest))
          ∙ ap (λ l. take n rest ++ l) (sym e)
          ∙ take-append-drop n rest);
  received = refl;
}

Wrote-more :
    (t : InputThread) (rest more : Bytes) (n : ℕ) (u : InputThread)
    → drop n rest ≡ more
    → Wrote (record t { at = write_all (drop n rest); written = t.written ++ take n rest }) more u
    → Wrote t rest u
Wrote-more t rest more n u e w = record {
  back = w.back;
  written =
      w.written
      ∙ append_assoc t.written (take n rest) more
      ∙ ap (λ l. t.written ++ l) (ap (λ l. take n rest ++ l) (sym e) ∙ take-append-drop n rest);
  received = w.received;
}

module _ (answers : ℕ → Bytes → Returned)
    (legit : (i : ℕ) (b : ℕ) (bs : Bytes) → Answer (b ∷ bs) (answers i (b ∷ bs)))
    (fair : (i : ℕ)
      → (j : ℕ) × ((rest : Bytes) → is_negative (answers (i + j) rest).ret ≡ false)) where
  one_call :
      (k i : ℕ) (rest : Bytes) (t u : InputThread)
      → t.at ≡ writing rest
      → wrote rest (write (answers i rest)) t ≡ u
      → calls answers (suc k) i t ≡ calls answers k (i + 1) u
  unfolding calls
  one_call k i rest t u e h =
      ap (calls answers k (i + 1))
        (ap (λ a. input_step a (pty_wrote (answers i (rest_of a))) t) e ∙ h)

  Finishes : ℕ → Bytes → InputThread → Type 0
  Finishes i rest t = (k : ℕ) × Wrote t rest (calls answers k i t)

  -- One call, with what follows it after an interruption, and after a count.
  after-Answer :
      (n i b : ℕ) (bs : Bytes) (t : InputThread)
      → length (b ∷ bs) ≤ suc n
      → t.at ≡ writing (b ∷ bs)
      → Answer (b ∷ bs) (answers i (b ∷ bs))
      → ((c : ℕ) (cs : Bytes) (u : InputThread)
          → length (c ∷ cs) ≤ n
          → u.at ≡ writing (c ∷ cs)
          → Finishes (i + 1) (c ∷ cs) u)
      → (is_negative (answers i (b ∷ bs)).ret ≡ true → Finishes (i + 1) (b ∷ bs) t)
      → Finishes i (b ∷ bs) t
  unfolding Finishes calls
  after-Answer n i b bs t le e (again neg intr) shorter same =
      let (k, w) = same neg in
      (
        suc k,
        rw (one_call k i (b ∷ bs) t t e (wrote-again (b ∷ bs) (answers i (b ∷ bs)) t neg intr)) w,
      )
  after-Answer n i b bs t le e (took m q lo hi) shorter same = go (drop m (b ∷ bs)) refl
    where
      u : InputThread
      u = record t { at = write_all (drop m (b ∷ bs)); written = t.written ++ take m (b ∷ bs) }

      go : (more : Bytes) → drop m (b ∷ bs) ≡ more → Finishes i (b ∷ bs) t
      go [] d = (
        1,
        rw (one_call 0 i (b ∷ bs) t u e (wrote-took (b ∷ bs) (answers i (b ∷ bs)) m t q lo hi))
            (Wrote-end t (b ∷ bs) m d),
      )
      go (c ∷ cs) d =
          let size : length (c ∷ cs) ≤ n = omega (arith, ap length d, length-drop m (b ∷ bs)) in
          let (k, w) = shorter c cs u size (ap write_all d) in
          (
            suc k,
            rw (one_call k i (b ∷ bs) t u e (wrote-took (b ∷ bs) (answers i (b ∷ bs)) m t q lo hi))
                (Wrote-more t (b ∷ bs) (c ∷ cs) m _ d w),
          )

  finishes :
      (n j i b : ℕ) (bs : Bytes) (t : InputThread)
      → length (b ∷ bs) ≤ n
      → t.at ≡ writing (b ∷ bs)
      → ((rest : Bytes) → is_negative (answers (i + j) rest).ret ≡ false)
      → Finishes i (b ∷ bs) t
  finishes zero j i b bs t le e clear = absurd (omega arith)
  finishes (suc n) zero i b bs t le e clear =
      after-Answer n i b bs t le e (legit i b bs)
        (λ c cs u small at.
          let (j, later) = fair (i + 1) in finishes n j (i + 1) c cs u small at later)
        (λ neg.
          let now : is_negative (answers i (b ∷ bs)).ret ≡ false =
            subst (λ x. is_negative (answers x (b ∷ bs)).ret ≡ false) (omega arith)
              (clear (b ∷ bs)) in
          let odd : true ≡ false = sym neg ∙ now in cc)
  finishes (suc n) (suc j) i b bs t le e clear =
      after-Answer n i b bs t le e (legit i b bs)
        (λ c cs u small at.
          let (j', later) = fair (i + 1) in finishes n j' (i + 1) c cs u small at later)
        (λ neg. finishes (suc n) j (i + 1) b bs t le e (λ rest.
          subst (λ x. is_negative (answers x rest).ret ≡ false) (omega arith) (clear rest)))

  -- A message that the input thread has begun to write is written to its end, and the thread goes
  -- back to its socket, after some number of calls: if each call takes at least one byte or is
  -- interrupted, and calls are not interrupted for ever.
  pub write_all_ends :
      (i b : ℕ) (bs : Bytes) (t : InputThread)
      → t.at ≡ writing (b ∷ bs)
      → (k : ℕ) × Wrote t (b ∷ bs) (calls answers k i t)
  unfolding Finishes
  write_all_ends i b bs t e =
      let (j, clear) = fair i in finishes (length (b ∷ bs)) j i b bs t (omega arith) e clear
