-- ===== src/Lib.antt =====
-- tere is a terminal session server. Each of its processes talks to others over SOCK_SEQPACKET
-- sockets, on which a message may carry file descriptors. This library models the Rust code of
-- server and proves what its parts promise.
--
-- The parts, and the files that model them:
--
-- - server/build.rs is BuildScript: what is hashed into the protocol identity that the handshake
--   compares. BuildScript/Agreement leads from there to the handshake.
-- - server/src/ipc/mod.rs is Ipc: the errors, and the trait `IPC` as the record `Ipc`, three
--   operations over the state of whatever lies behind the connection. The handshake and the
--   services use nothing else of a connection. A `Message` (Ipc/Message) is its two bounds and
--   the list of its fields, of which some are descriptors.
-- - server/src/ipc/seqpacket.rs is Ipc/SeqPacket, with the making of sockets in
--   Ipc/SeqPacket/Sockets. Ipc/SeqPacket/Link joins a sender and a receiver by a kernel, which is
--   an interface, and Ipc/SeqPacket/Fifo is the queue of messages that such a connection amounts
--   to. `SeqPacket` puts a message's descriptors beside its bytes through the thread-local queues
--   of server/src/ipc/passfd.rs (Ipc/PassFd), and wraps received descriptors by
--   server/src/ipc/ownedfd.rs (Ipc/OwnedFd). Ipc/SeqPacket/Ownership follows the descriptors
--   through a deserialization.
-- - server/src/ipc/handshake.rs is Ipc/Handshake; Ipc/Handshake/Wire lets a client and a server
--   talk over two queues, and Ipc/Handshake/Sockets over a SeqPacket connection in each
--   direction. server/src/ipc/fakeipc.rs is Ipc/FakeIpc. The unit tests of a file are in the
--   module UnitTests below its own.
-- - server/src/proto is Proto: the types of messages, and the intents of the handshakes.
-- - server/src/socket_activation.rs is SocketActivation: `parse` over an environment (Std/Env),
--   and the iterator `next`. `collect` is the loop over it in
--   server/src/services/sessions/mod.rs. SocketActivation/UnitTests holds the file's unit tests,
--   SocketActivation/UnitTests/Memfd those of one descriptor with the file behind it, and
--   SocketActivation/UnitTests/Blocks the helper `dup_pack_fds` of the tests of two.
-- - server/src/pty_master.rs is PtyMaster, and server/src/dbus_shell.rs is DbusShell.
-- - server/src/services/pty/mod.rs is Services/Pty, which takes a terminal's descriptor and
--   spawns a thread for each user. server/src/services/pty/user.rs is Services/Pty/User: two
--   threads copy between a user and the terminal, each a machine that takes the results of its
--   calls; Services/Pty/User/Serving runs them beside the main thread, as a step relation.
-- - server/src/services/sessions/mod.rs is Services/Sessions, with the map of sessions in
--   Services/Sessions/Store. Services/Sessions/Listener is its `run`, which looks for its socket
--   among those of SocketActivation. Services/Sessions/Creation and Services/Sessions/Connection
--   say what a request and a whole connection do to the map, and Services/Sessions/Threads runs
--   any number of connections over one map, with one step for each section that holds a lock.
--   Services/Sessions/Refinement leads from a connection to that machine, and
--   Services/Sessions/Accept is the loop that accepts connections. Services/Sessions/Descriptors
--   follows the descriptors of a request, and Services/Sessions/Shell joins a request to the pty
--   service that it connects to, over the line of Services/Pty/Line.
-- - server/src/bin is Programs; Programs/DebugClient is the debugging client, over two
--   connections and a transcript of what it sends and prints. Programs/DebugClient/Shell joins
--   it to the services that it asks, over Services/Sessions/Shell/User, a whole connection of a
--   user; the calling ends of these connections are those of Ipc/Caller. A user's connection is
--   answered only if the pty service, run on what it was sent, has spawned a thread for it
--   (Services/Sessions/Shell/Threads). Where a peer is gone, the receive that finds this out is
--   that of SeqPacket on what recvmsg(2) then hands over, no bytes and no error (Ipc/Closed).
--
-- A call of the program's code returns, fails or panics (`Outcome` in Prelude/Calls), and what it
-- wrote before an error stays written. A debug build and a release build differ by `Build`:
-- overflow checks and debug assertions. File descriptors are integers, and a process has a table
-- of the open ones that counts the closes of descriptors that are not open (Std/Fd). `Owns` says
-- that the table is what it was before, and besides holds the owned descriptors.
--
-- Parameters, because their code is not part of the repository: bincode and the serializers that
-- serde derives (`Bincode`, with `IsLawful` where a round trip needs it), the key derivation of
-- blake3 (with a result of any length, so that one can tell all inputs apart), `CMSG_SPACE`, the
-- results of system calls (with `Lowest` for `F_DUPFD_CLOEXEC`), the kernel's part of a
-- connection (`Kernel`, with `IsSeqPacketSocket`, which leaves out a receiver that runs out of
-- numbers for descriptors), the files of the unit tests (`Files`, `Memfds`), the lengths of
-- bincode's codes (`IsCompact`), the D-Bus proxy of systemd-machined, the random session ids and
-- the process id. Of the standard library the model has `str::parse` for unsigned numbers, the
-- test for UTF-8, environment variables and the `write_all` loop.
--
-- Loops: `grow` has as fuel the space that it looks for and one more, enough because each round
-- adds 128 bytes. `collect` and `serve_loop` take fuel as an argument, and theorems about them say
-- how much is enough. `dup_pack_fds` and the loop of the debugging client take fuel as an argument
-- too; `service` in Services/Pty/Line has one round more than there are packets, which is enough.
-- `allocate` and `serve_requests` run over the list of ids that are drawn. Numbers wrap or panic
-- where the source's do: `next` counts in an `i32`, numbers are parsed into `u32` and `usize`.
--
-- Not modelled: the walk of server/build.rs over the sources; log output; what the unit test of
-- server/src/ipc/seqpacket.rs, and those of server/src/socket_activation.rs with two
-- descriptors, ask of the files behind descriptors; the tests in server/tests, which need a
-- virtual machine, and the making of sockets and of the terminal in
-- server/src/services/pty/tests.rs; packaging. A connection to the pty service is named by its
-- descriptor.
pub mod Prelude
pub mod Std
pub mod SocketActivation
pub mod Proto
pub mod Ipc
pub mod PtyMaster
pub mod DbusShell
pub mod Services
pub mod BuildScript
pub mod Programs
