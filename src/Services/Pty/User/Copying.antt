-- ===== src/Services/Pty/User/Copying.antt =====
-- The two threads of server/src/services/pty/user.rs copy every byte, in order.
use tere.Prelude.{
  ℕ, ◌≡◌, ◌≢◌, ◌≤◌, refl, sym, ap, subst, ◌∙◌, inl, inr, List, [], ◌∷◌, ◌++◌, length, take, drop,
  ltb, ◌==◌, Outcome, ok, err, panic, arith, append_assoc, append-nil, take-append-drop,
  length-take-le, Bool-cases, All,
}
use tere.Ipc.{SendError, ReceiveError}
use tere.Ipc.Bincode.{Bytes}
use tere.PtyMaster.{read, write, eio, eintr}
use tere.Proto.Pty.{Output, session_output, Input, keyboard_input}
use tere.Services.Pty.User.{
  InputAt, receiving, writing, InputThread, write_all, input_received, wrote, InputCall,
  received_with_fds, pty_wrote, input_step, OutputAt, reading, sending, OutputThread, buffer_size,
  output_read, output_sent, OutputCall, pty_read, sent_with_fds, output_step,
}

-- What the terminal has taken of the keyboard input: all of it between messages, all but the rest
-- of one within `write_all`, and a first part of it at the end, which is never a regular one.
abbrev pub Copied : InputAt → (received written : Bytes) → Type 0
Copied receiving r w = r ≡ w
Copied (writing rest) r w = r ≡ w ++ rest
Copied (InputAt.finished x) r w = ((rest : Bytes) × (r ≡ w ++ rest)) × (x ≢ ok tt)

abbrev pub InputCopied : InputThread → Type 0
InputCopied i = Copied i.at i.received i.written

write_all-Copied : (b r w : Bytes) → r ≡ w ++ b → Copied (write_all b) r w
write_all-Copied [] r w e = e ∙ append-nil w
write_all-Copied (x ∷ b) r w e = e

input_received-Copied :
    (r : Outcome ReceiveError Input) (i : InputThread)
    → i.received ≡ i.written
    → InputCopied (input_received r i)
unfolding input_received
input_received-Copied (ok (keyboard_input b)) i e =
    write_all-Copied b (i.received ++ b) i.written (ap (λ r. r ++ b) e)
input_received-Copied (err x) i e = (([], e ∙ sym (append-nil i.written)), λ q. cc)
input_received-Copied (panic p) i e = (([], e ∙ sym (append-nil i.written)), λ q. cc)

wrote-Copied :
    (rest : Bytes) (r : Outcome _ ℕ) (i : InputThread)
    → i.at ≡ writing rest
    → i.received ≡ i.written ++ rest
    → InputCopied (wrote rest r i)
wrote-Copied rest (ok n) i q e = elim (Bool-cases (n == 0)) [
  | inl z ↦ rw z ((rest, e), λ x. cc)
  | inr more ↦ elim (Bool-cases (ltb (length rest) n)) [
    | inl past ↦ rw (more, past) ((rest, e), λ x. cc)
    | inr fits ↦
        rw (more, fits)
          (write_all-Copied (drop n rest) i.received (i.written ++ take n rest) (
            e
            ∙ ap (λ r. i.written ++ r) (sym (take-append-drop n rest))
            ∙ sym (append_assoc i.written (take n rest) (drop n rest))))
  ]
]
wrote-Copied rest (err x) i q e = elim (Bool-cases (x.errno == eintr)) [
  | inl again ↦ rw again (subst (λ a. Copied a i.received i.written) (sym q) e)
  | inr failed ↦ rw failed ((rest, e), λ y. cc)
]
wrote-Copied rest (panic p) i q e = ((rest, e), λ x. cc)

input_step-at :
    (a : InputAt) (call : InputCall) (i : InputThread)
    → i.at ≡ a
    → InputCopied i
    → InputCopied (input_step a call i)
unfolding input_step
input_step-at receiving (received_with_fds r) i q h =
    input_received-Copied r i (subst (λ a. Copied a i.received i.written) q h)
input_step-at receiving (pty_wrote r) i q h = h
input_step-at (writing rest) (received_with_fds r) i q h = h
input_step-at (writing rest) (pty_wrote r) i q h =
    wrote-Copied rest (write r) i q (subst (λ a. Copied a i.received i.written) q h)
input_step-at (InputAt.finished x) call i q h = h

-- Whatever a call of the input thread returns, the terminal has taken the keyboard input in order
-- and without a gap: all of it between two messages, and else all but the rest in hand. The thread
-- never ends without an error.
pub input_step-Copied :
    (call : InputCall) (i : InputThread) → InputCopied i → InputCopied (input_step i.at call i)
input_step-Copied call i h = input_step-at i.at call i refl h

abbrev pub payload : Output → Bytes
payload (session_output b) = b

abbrev pub payloads : List Output → Bytes
payloads [] = []
payloads (m ∷ ms) = payload m ++ payloads ms

payloads-append :
    (ms : List Output) (m : Output) → payloads (ms ++ m ∷ []) ≡ payloads ms ++ payload m
payloads-append [] m = append-nil (payload m)
payloads-append (x ∷ ms) m =
    ap (λ r. payload x ++ r) (payloads-append ms m)
    ∙ sym (append_assoc (payload x) (payloads ms) (payload m))

-- What the user has been sent of the terminal's output.
abbrev pub Sent : OutputAt → (read_bytes : Bytes) → List Output → Type 0
Sent reading r ms = r ≡ payloads ms
Sent (sending m) r ms = r ≡ payloads ms ++ payload m
Sent (OutputAt.finished x) r ms = (rest : Bytes) × (r ≡ payloads ms ++ rest)

abbrev pub OutputCopied : OutputThread → Type 0
OutputCopied o = Sent o.at o.read_bytes o.sent

output_read-Copied :
    (buf : Bytes) (r : Outcome _ ℕ) (o : OutputThread)
    → o.read_bytes ≡ payloads o.sent
    → OutputCopied (output_read buf r o)
output_read-Copied buf (ok n) o e = ap (λ r. r ++ take n buf) e
output_read-Copied buf (err x) o e = elim (Bool-cases (x.errno == eio)) [
  | inl end ↦ rw end ([], e ∙ sym (append-nil (payloads o.sent)))
  | inr failed ↦ rw failed ([], e ∙ sym (append-nil (payloads o.sent)))
]
output_read-Copied buf (panic p) o e = ([], e ∙ sym (append-nil (payloads o.sent)))

output_sent-Copied :
    (m : Output) (r : Outcome SendError (Unit {0})) (o : OutputThread)
    → o.read_bytes ≡ payloads o.sent ++ payload m
    → OutputCopied (output_sent m r o)
output_sent-Copied m (ok u) o e = e ∙ sym (payloads-append o.sent m)
output_sent-Copied m (err x) o e = (payload m, e)
output_sent-Copied m (panic p) o e = (payload m, e)

output_step-at :
    (a : OutputAt) (call : OutputCall) (o : OutputThread)
    → o.at ≡ a
    → OutputCopied o
    → OutputCopied (output_step a call o)
unfolding output_step
output_step-at reading (pty_read buf r) o q h =
    output_read-Copied buf (read r) o (subst (λ a. Sent a o.read_bytes o.sent) q h)
output_step-at reading (sent_with_fds r) o q h = h
output_step-at (sending m) (pty_read buf r) o q h = h
output_step-at (sending m) (sent_with_fds r) o q h =
    output_sent-Copied m r o (subst (λ a. Sent a o.read_bytes o.sent) q h)
output_step-at (OutputAt.finished x) call o q h = h

-- Whatever a call of the output thread returns, the messages that were sent hold the terminal's
-- output in order and without a gap: all of it between two reads, and else all but the message in
-- hand.
pub output_step-Copied :
    (call : OutputCall) (o : OutputThread) → OutputCopied o → OutputCopied (output_step o.at call o)
output_step-Copied call o h = output_step-at o.at call o refl h

-- A call whose buffer is the one that the thread has made.
abbrev pub FitsBuffer : OutputCall → Type 0
FitsBuffer (pty_read buf r) = length buf ≡ buffer_size
FitsBuffer (sent_with_fds r) = Unit

abbrev pub Small : Output → Type 0
Small m = length (payload m) ≤ buffer_size

abbrev pub IsSmall : OutputAt → Type 0
IsSmall reading = Unit
IsSmall (sending m) = Small m
IsSmall (OutputAt.finished x) = Unit

All-snoc : (ms : List Output) (m : Output) → All Small ms → Small m → All Small (ms ++ m ∷ [])
All-snoc [] m h k = (k, tt)
All-snoc (x ∷ ms) m h k = (h.0, All-snoc ms m h.1 k)

output_read-Small :
    (buf : Bytes) (r : Outcome _ ℕ) (o : OutputThread)
    → length buf ≡ buffer_size
    → All Small o.sent
    → All Small (output_read buf r o).sent × IsSmall (output_read buf r o).at
output_read-Small buf (ok n) o e h = (h, omega (arith, length-take-le n buf))
output_read-Small buf (err x) o e h = elim (Bool-cases (x.errno == eio)) [
  | inl end ↦ rw end (h, tt)
  | inr failed ↦ rw failed (h, tt)
]
output_read-Small buf (panic p) o e h = (h, tt)

output_sent-Small :
    (m : Output) (r : Outcome SendError (Unit {0})) (o : OutputThread)
    → All Small o.sent
    → Small m
    → All Small (output_sent m r o).sent × IsSmall (output_sent m r o).at
output_sent-Small m (ok u) o h k = (All-snoc o.sent m h k, tt)
output_sent-Small m (err x) o h k = (h, tt)
output_sent-Small m (panic p) o h k = (h, tt)

output_step-Small_at :
    (a : OutputAt) (call : OutputCall) (o : OutputThread)
    → o.at ≡ a
    → FitsBuffer call
    → All Small o.sent × IsSmall o.at
    → All Small (output_step a call o).sent × IsSmall (output_step a call o).at
unfolding output_step
output_step-Small_at reading (pty_read buf r) o q f (h, k) = output_read-Small buf (read r) o f h
output_step-Small_at reading (sent_with_fds r) o q f h = h
output_step-Small_at (sending m) (pty_read buf r) o q f h = h
output_step-Small_at (sending m) (sent_with_fds r) o q f (h, k) =
    output_sent-Small m r o h (subst IsSmall q k)
output_step-Small_at (OutputAt.finished x) call o q f h = h

-- No message that the output thread sends, or has in hand, holds more than its buffer of 1024
-- bytes.
pub output_step-Small :
    (call : OutputCall) (o : OutputThread)
    → FitsBuffer call
    → All Small o.sent × IsSmall o.at
    → All Small (output_step o.at call o).sent × IsSmall (output_step o.at call o).at
output_step-Small call o f h = output_step-Small_at o.at call o refl f h
