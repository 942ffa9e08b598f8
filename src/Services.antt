-- ===== src/Services.antt =====
-- server/src/services: the processes of the server.
pub mod Pty
pub mod Sessions
