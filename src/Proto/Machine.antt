-- ===== src/Proto/Machine.antt =====
-- server/src/proto/sessions.rs: where a shell session is to run.
use tere.Prelude.{ℕ, List}

pub data Machine : Type 0 where
  host : Machine
  container : List ℕ → Machine
