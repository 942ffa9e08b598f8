-- ===== src/Programs.antt =====
-- server/src/bin: the programs.
pub mod DebugClient
use tere.Prelude.{ℕ, Outcome, ok, err, panic}

-- `main` of tere-server-pty.rs and tere-server-sessions.rs: the status with which the process
-- exits, given the result of `run`. A panic of the main thread exits with 101.
unfoldable exit_status : {E : Type 0} → Outcome E (Unit {0}) → ℕ
exit_status (ok u) = 0
exit_status (err e) = 1
exit_status (panic p) = 101
