-- ===== src/Programs/DebugClient/Shell/Starting.antt =====
-- How far the client of server/src/bin/tere-debug-client-sessions.rs gets, by what the services that
-- it asks make of its request.
use tere.Prelude.{◌≡◌, inr, some, List, [], ◌∷◌, Outcome, ok, err, Act}
use tere.Std.Fd.{RawFd}
use tere.DbusShell
use tere.Ipc.{ReceiveError}
use tere.Ipc.SeqPacket.Sockets.{SeqPacket, sock_seqpacket}
use tere.Proto.Pty.{Output}
use tere.Services.Sessions.{Server, receive, shell_spec}
use tere.Services.Sessions.Store.{SessionId, Sessions}
use tere.Services.Sessions.Shell.{Around}
use tere.Services.Sessions.Shell.User.{Machine, End, service, IsServed, arrived_shell}
use tere.Programs.DebugClient.{World, date, shell_request}
use tere.Programs.DebugClient.Shell.{Ends, shell_of, begun}

module _ (c : Machine) (rounds : List (List SessionId)) (draws more : List SessionId) (m : Sessions)
    (outputs : Act Ends ReceiveError Output) (theirs : RawFd) (conn : SeqPacket)
    (ours : RawFd) where
  -- What the client does up to its loop.
  abbrev pub start : Outcome ⊥ (Unit {0}) × World Ends
  start = begun c rounds draws more m outputs theirs conn ours

  -- The client before its loop, and the services after what it sent.
  pub record Shelled (key : SessionId) (pty_master : RawFd) (w : World Ends) : Type 0 where
    pub asked_once : w.requests ≡ shell_request theirs ∷ []
    pub typed : w.inputs ≡ date ∷ []
    pub thread_shook : w.behind.to_thread.served ≡ some (ok tt)
    pub sessions_end :
        (s : Server (Around End)) × (service c (draws ∷ more ∷ rounds) m w.behind.to_sessions.sent
          ≡ some (err (receive ReceiveError.end), s))
        × IsServed c key (shell_of theirs) pty_master m s

  -- D-Bus hands over this terminal for the client's request.
  abbrev pub Opens : RawFd → Type 0
  Opens pty_master = c.dbus (shell_spec (arrived_shell c.take (shell_of theirs))) ≡ ok pty_master

  -- The user's socket, as it arrives in the pty service, is a `SOCK_SEQPACKET` one.
  abbrev pub TakesPackets : Type 0
  TakesPackets = c.so_type (c.pass (c.take theirs)) ≡ inr sock_seqpacket
