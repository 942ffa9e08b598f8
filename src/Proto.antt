-- ===== src/Proto.antt =====
-- server/src/proto: the messages of the IPC protocols, each with its fields in the order in which
-- they are serialized.
pub mod Machine
pub mod Pty
pub mod Sessions
pub mod Sizes
mod Examples
