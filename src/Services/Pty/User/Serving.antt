-- ===== src/Services/Pty/User/Serving.antt =====
-- `serve_user` of server/src/services/pty/user.rs as a whole: the main thread joins the output
-- thread, shuts the connection down and joins the input thread, while those two run.
use tere.Prelude.{◌≡◌, ◌≢◌, refl, subst, [], Outcome, ok, err, panic, All}
use tere.Ipc.{ShutdownError}
use tere.Ipc.Handshake
use tere.Services.Pty.User.{
  handshake, socket_shutdown, Exit, InputAt, receiving, InputThread, InputCall, input_step,
  OutputAt, reading, OutputThread, OutputCall, output_step,
}
use tere.Services.Pty.User.Copying.{
  InputCopied, OutputCopied, input_step-Copied, output_step-Copied, Copied, FitsBuffer, Small,
  IsSmall, output_step-Small,
}

pub data MainAt : Type 0 where
  joining_output joining_input : MainAt
  returned : Exit → MainAt

pub record Serving : Type 0 where
  pub main : MainAt
  pub input : InputThread
  pub output : OutputThread

-- What the handshake decides: an error is returned, and otherwise the two threads are spawned.
abbrev pub main_after_handshake : Outcome Handshake.Error (Unit {0}) → MainAt
main_after_handshake (ok u) = joining_output
main_after_handshake (err e) = returned (err (handshake e))
main_after_handshake (panic p) = returned (panic p)

unfoldable pub start : Outcome Handshake.Error (Unit {0}) → Serving
start r = record {
  main = main_after_handshake r;
  input = record { at = receiving; received = []; written = [] };
  output = record { at = reading; read_bytes = []; sent = [] };
}

abbrev pub main_after_shutdown : Outcome ShutdownError (Unit {0}) → MainAt
main_after_shutdown (ok u) = joining_input
main_after_shutdown (err e) = returned (err (socket_shutdown e))
main_after_shutdown (panic p) = returned (panic p)

-- A panic of the output thread goes on; its result, error or not, does not matter.
abbrev pub main_after_output : Exit → Outcome ShutdownError (Unit {0}) → MainAt
main_after_output (panic p) s = returned (panic p)
main_after_output (ok u) s = main_after_shutdown s
main_after_output (err e) s = main_after_shutdown s

-- One call of one of the threads returns.
pub data Step (s : Serving) : Serving → Type 0 where
  input_moves :
      (call : InputCall) → Step s (record s { input = input_step s.input.at call s.input })
  output_moves :
      (call : OutputCall)
      → FitsBuffer call
      → Step s (record s { output = output_step s.output.at call s.output })
  joined_output :
      (x : Exit) (shut : Outcome ShutdownError (Unit {0}))
      → s.main ≡ joining_output
      → s.output.at ≡ OutputAt.finished x
      → Step s (record s { main = main_after_output x shut })
  joined_input :
      (x : Exit)
      → s.main ≡ joining_input
      → s.input.at ≡ InputAt.finished x
      → Step s (record s { main = returned x })

pub data Reach (r : Outcome Handshake.Error (Unit {0})) : Serving → Type 0 where
  here : Reach r (start r)
  next : {s t : Serving} → Reach r s → Step s t → Reach r t

pub record IsSound (s : Serving) : Type 0 where
  pub input_copied : InputCopied s.input
  pub output_copied : OutputCopied s.output
  pub small : All Small s.output.sent × IsSmall s.output.at
  pub no_ok : s.main ≢ returned (ok tt)

start-IsSound : (r : Outcome Handshake.Error (Unit {0})) → IsSound (start r)
unfolding start
start-IsSound (ok u) = record {
  input_copied = refl;
  output_copied = refl;
  small = (tt, tt);
  no_ok = λ e. cc;
}
start-IsSound (err x) = record {
  input_copied = refl;
  output_copied = refl;
  small = (tt, tt);
  no_ok = λ e. cc;
}
start-IsSound (panic p) = record {
  input_copied = refl;
  output_copied = refl;
  small = (tt, tt);
  no_ok = λ e. cc;
}

main_after_shutdown-ne :
    (s : Outcome ShutdownError (Unit {0})) → main_after_shutdown s ≢ returned (ok tt)
main_after_shutdown-ne (ok u) e = cc
main_after_shutdown-ne (err x) e = cc
main_after_shutdown-ne (panic p) e = cc

main_after_output-ne :
    (x : Exit) (s : Outcome ShutdownError (Unit {0})) → main_after_output x s ≢ returned (ok tt)
main_after_output-ne (panic p) s e = cc
main_after_output-ne (ok u) s e = main_after_shutdown-ne s e
main_after_output-ne (err x) s e = main_after_shutdown-ne s e

returned-injective : (x y : Exit) → ◌≡◌ {A = MainAt} (returned x) (returned y) → x ≡ y
returned-injective x y e = cc

Step-IsSound : {s t : Serving} → Step s t → IsSound s → IsSound t
Step-IsSound {s} (input_moves call) h = record {
  input_copied = input_step-Copied call s.input h.input_copied;
  output_copied = h.output_copied;
  small = h.small;
  no_ok = h.no_ok;
}
Step-IsSound {s} (output_moves call f) h = record {
  input_copied = h.input_copied;
  output_copied = output_step-Copied call s.output h.output_copied;
  small = output_step-Small call s.output f h.small;
  no_ok = h.no_ok;
}
Step-IsSound {s} (joined_output x shut m q) h = record {
  input_copied = h.input_copied;
  output_copied = h.output_copied;
  small = h.small;
  no_ok = main_after_output-ne x shut;
}
Step-IsSound {s} (joined_input x m q) h = record {
  input_copied = h.input_copied;
  output_copied = h.output_copied;
  small = h.small;
  no_ok = λ e.
      (subst (λ a. Copied a s.input.received s.input.written) q h.input_copied).1
        (returned-injective x (ok tt) e);
}

-- However the calls of the three threads interleave and whatever they return: keyboard input is
-- written to the terminal, and the terminal's output is sent to the user, in order and without a
-- gap; no message sent is larger than 1024 bytes; and `serve_user` never returns `Ok`.
pub Reach-IsSound : (r : Outcome Handshake.Error (Unit {0})) {s : Serving} → Reach r s → IsSound s
Reach-IsSound r here = start-IsSound r
Reach-IsSound r (next reach step) = Step-IsSound step (Reach-IsSound r reach)
