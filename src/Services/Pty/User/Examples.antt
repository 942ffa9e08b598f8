-- ===== src/Services/Pty/User/Examples.antt =====
-- A user who types `ls`, and a terminal that answers.
use tere.Prelude.{
  false, inl, inr, if◌then◌else◌, ◌==◌, ◌+◌, Bool-cases, ℕ, ◌≡◌, refl, [], ◌∷◌, ok, length, arith,
  codes, All,
}
use tere.Prelude.Int.{pos, negsuc}
use tere.Std.Fd.{is_negative}
use tere.Ipc.Bincode.{Bytes}
use tere.PtyMaster.{Returned, eintr}
use tere.Services.Pty.User.Progress.{Answer, again, took, calls, Wrote, write_all_ends}
use tere.Proto.Pty.{keyboard_input}
use tere.Services.Pty.User.{
  writing, InputThread, received_with_fds, pty_wrote, input_step, reading, OutputThread, pty_read,
  output_step, buffer_size,
}
use tere.Services.Pty.User.Copying.{
  InputCopied, OutputCopied, Small, IsSmall, input_step-Copied, output_step-Copied,
  output_step-Small,
}
use tere.Services.Pty.User.Serving.{start, here, next, input_moves, IsSound, Serving, Reach-IsSound}

abbrev returned : ℕ → Returned
returned n = record { ret = pos n; errno = 0 }

abbrev typed : InputThread
typed = record { at = writing (codes "ls"); received = codes "ls"; written = [] }

one_byte_copied : InputCopied (input_step (writing (codes "ls")) (pty_wrote (returned 1)) typed)
one_byte_copied = input_step-Copied (pty_wrote (returned 1)) typed refl

-- The thread's buffer after a read, as long as `buffer_size`.
repeated : ℕ → Bytes
repeated Prim.Native.Nat.ℕ.zero = []
repeated (Prim.Native.Nat.ℕ.suc n) = 36 ∷ repeated n

length-repeated : (n : ℕ) → length (repeated n) ≡ n
unfolding repeated
length-repeated Prim.Native.Nat.ℕ.zero = refl
length-repeated (Prim.Native.Nat.ℕ.suc n) = omega (arith, length-repeated n)

abbrev fresh : OutputThread
fresh = record { at = reading; read_bytes = []; sent = [] }

output_copied :
    OutputCopied (output_step reading (pty_read (repeated buffer_size) (returned 2)) fresh)
output_copied = output_step-Copied (pty_read (repeated buffer_size) (returned 2)) fresh refl

output_small :
    All Small (output_step reading (pty_read (repeated buffer_size) (returned 2)) fresh).sent
    × IsSmall (output_step reading (pty_read (repeated buffer_size) (returned 2)) fresh).at
output_small =
    output_step-Small (pty_read (repeated buffer_size) (returned 2)) fresh
      (length-repeated buffer_size) (tt, tt)

abbrev begun : Serving
begun = start (ok tt)

-- The user's first message has come.
abbrev one_message : Serving
one_message = record begun {
  input =
      input_step begun.input.at (received_with_fds (ok (keyboard_input (codes "ls")))) begun.input;
}

Reach-IsSound_example : IsSound one_message
Reach-IsSound_example =
    Reach-IsSound (ok tt)
      (next here (input_moves (received_with_fds (ok (keyboard_input (codes "ls"))))))

-- The first call is interrupted, and each other takes one byte.
abbrev slow : ℕ → Bytes → Returned
slow i rest =
    if i == 0 then record { ret = negsuc 0; errno = eintr } else record { ret = pos 1; errno = 0 }

slow-Answer : (i b : ℕ) (bs : Bytes) → Answer (b ∷ bs) (slow i (b ∷ bs))
slow-Answer i b bs = elim (Bool-cases (i == 0)) [
  | inl first ↦ again (rw first refl) (rw first refl)
  | inr other ↦ took 1 (rw other refl) (omega arith) (omega arith)
]

slow_fair : (i : ℕ) → (j : ℕ) × ((rest : Bytes) → is_negative (slow (i + j) rest).ret ≡ false)
slow_fair i = (1, λ rest. let later : (i + 1 == 0) ≡ false = ground arith in rw later refl)

write_all_ends_example : (k : ℕ) × Wrote typed (codes "ls") (calls slow k 0 typed)
write_all_ends_example = write_all_ends slow slow-Answer slow_fair 0 b'l' (b's' ∷ []) typed refl
