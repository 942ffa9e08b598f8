-- ===== src/Services/Pty/User.antt =====
-- server/src/services/pty/user.rs: one user of a session. Two threads copy between the user's
-- connection and the terminal; each is a machine that takes the results of its calls one by one.
pub mod Copying
pub mod Serving
pub mod Progress
mod Examples
use tere.Prelude.{
  ℕ, zero, suc, ◌+◌, ◌≡◌, ◌≢◌, ◌≤◌, refl, ◌⊎◌, inl, inr, Bool, true, false, ◌&&◌, Option, none,
  some, List, [], ◌∷◌, ◌++◌, if◌then◌else◌, length, take, drop, leb, ltb, ◌==◌, Outcome, ok, err,
  panic, Panic, slice_index, arith, map_err_outcome,
}
use tere.Ipc.{IoError, SendError, ReceiveError, ShutdownError}
use tere.Ipc.Bincode.{Bytes}
use tere.Ipc.Handshake
use tere.PtyMaster.{Returned, WriteError, write_zero, os, read, write, eio, eintr}
use tere.Proto.Pty.{Output, session_output, Input, keyboard_input}

pub data ServeUserError : Type 0 where
  handshake : Handshake.Error → ServeUserError
  receive : ReceiveError → ServeUserError
  send : SendError → ServeUserError
  socket_shutdown : ShutdownError → ServeUserError
  pty_io : WriteError → ServeUserError

abbrev pub Exit : Type 0
Exit = Outcome ServeUserError (Unit {0})

-- Where the input thread stands: at `receive_with_fds`, in `write_all` with the rest of a message,
-- or at its end.
pub data InputAt : Type 0 where
  receiving : InputAt
  writing : (rest : Bytes) → InputAt
  finished : Exit → InputAt

pub record InputThread : Type 0 where
  pub at : InputAt
  pub received : Bytes  -- the keyboard input that has come so far
  pub written : Bytes  -- what the terminal has taken of it

-- `write_all` returns at once when nothing is left.
abbrev pub write_all : Bytes → InputAt
write_all [] = receiving
write_all (b ∷ bs) = writing (b ∷ bs)

unfoldable pub input_received : Outcome ReceiveError Input → InputThread → InputThread
input_received (ok (keyboard_input b)) i = record i { at = write_all b; received = i.received ++ b }
input_received (err e) i = record i { at = finished (err (receive e)) }
input_received (panic p) i = record i { at = finished (panic p) }

-- One round of `write_all`: nothing written is an error, an interrupted call is made again, and a
-- count beyond the buffer would panic.
abbrev pub wrote : Bytes → Outcome IoError ℕ → InputThread → InputThread
wrote rest (ok n) i =
    if n == 0
    then record i { at = finished (err (pty_io write_zero)) }
    else if ltb (length rest) n
    then record i { at = finished (panic slice_index) }
    else record i { at = write_all (drop n rest); written = i.written ++ take n rest }
wrote rest (err e) i =
    if e.errno == eintr then i else record i { at = finished (err (pty_io (os e))) }
wrote rest (panic p) i = record i { at = finished (panic p) }

pub data InputCall : Type 0 where
  received_with_fds : Outcome ReceiveError Input → InputCall
  pty_wrote : Returned → InputCall

-- The thread takes only the result of the call that it has made.
unfoldable pub input_step : InputAt → InputCall → InputThread → InputThread
unfolding input_received
input_step receiving (received_with_fds r) i = input_received r i
input_step (writing rest) (pty_wrote r) i = wrote rest (write r) i
input_step _ _ i = i

pub data OutputAt : Type 0 where
  reading : OutputAt
  sending : Output → OutputAt
  finished : Exit → OutputAt

pub record OutputThread : Type 0 where
  pub at : OutputAt
  pub read_bytes : Bytes  -- what has come from the terminal so far
  pub sent : List Output

abbrev pub buffer_size : ℕ
buffer_size = 1024

-- `buf.truncate(n)` after a read that filled the start of the buffer. `EIO` is a regular end.
abbrev pub output_read : Bytes → Outcome IoError ℕ → OutputThread → OutputThread
output_read buf (ok n) o = record o {
  at = sending (session_output (take n buf));
  read_bytes = o.read_bytes ++ take n buf;
}
output_read buf (err e) o =
    if e.errno == eio
    then record o { at = finished (ok tt) }
    else record o { at = finished (err (pty_io (os e))) }
output_read buf (panic p) o = record o { at = finished (panic p) }

abbrev pub output_sent : Output → Outcome SendError (Unit {0}) → OutputThread → OutputThread
output_sent m (ok u) o = record o { at = reading; sent = o.sent ++ m ∷ [] }
output_sent m (err e) o = record o { at = finished (err (send e)) }
output_sent m (panic p) o = record o { at = finished (panic p) }

pub data OutputCall : Type 0 where
  pty_read : (buf : Bytes) → Returned → OutputCall  -- the buffer after the call
  sent_with_fds : Outcome SendError (Unit {0}) → OutputCall

unfoldable pub output_step : OutputAt → OutputCall → OutputThread → OutputThread
output_step reading (pty_read buf r) o = output_read buf (read r) o
output_step (sending m) (sent_with_fds r) o = output_sent m r o
output_step _ _ o = o
