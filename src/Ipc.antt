-- ===== src/Ipc.antt =====
-- server/src/ipc/mod.rs: the errors of an IPC connection, and the interface that its clients use.
pub mod Bincode
pub mod OwnedFd
pub mod PassFd
pub mod Message
pub mod SeqPacket
pub mod Handshake
pub mod Closed
pub mod Caller
pub mod FakeIpc
mod SmallCodec
mod Examples
use tere.Prelude.{ℕ, Act}
use Bincode.{BincodeError}

-- `std::io::Error`: the number that the system call left in `errno`.
pub record IoError : Type 0 where
  pub errno : ℕ

-- `std::net::Shutdown`
pub data Shutdown : Type 0 where
  read write both : Shutdown

-- `std::os::unix::net::AncillaryError`, which is open for more variants.
pub data AncillaryError : Type 0 where
  unknown other : AncillaryError

pub data SendError : Type 0 where
  serialize : BincodeError → SendError
  socket : IoError → SendError

pub data ReceiveError : Type 0 where
  end too_large : ReceiveError
  deserialize : BincodeError → ReceiveError
  socket : IoError → ReceiveError
  ancillary : AncillaryError → ReceiveError
  ancillary_truncated : (max_fds bytes_cap : ℕ) → ReceiveError
  too_many_fds : (orig extra : ℕ) → ReceiveError

pub data ShutdownError : Type 0 where
  io : (how : Shutdown) → (source : IoError) → ShutdownError

-- The trait `IPC`, over the state `S` of a connection, for the messages `M` that are sent and the
-- messages `N` that are received.
pub record Ipc (S M N : Type 0) : Type 0 where
  pub send_with_fds : M → Act S SendError (Unit {0})
  pub receive_with_fds : Act S ReceiveError N
  pub shutdown : Shutdown → Act S ShutdownError (Unit {0})
