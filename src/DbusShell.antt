-- ===== src/DbusShell.antt =====
-- server/src/dbus_shell.rs: opening a shell through systemd-machined. The call on the bus is a
-- parameter.
use tere.Prelude.{
  ℕ, List, Outcome, ok, err, panic, Act, Build, map_err, map_err_outcome, and_then, never_err,
}
use tere.Std.Fd.{RawFd}
use tere.Ipc.Bincode.{Bytes}
use tere.PtyMaster.{PtyMaster, from_raw_fd}

-- `zbus::Error`, by a number.
pub record ZbusError : Type 0 where
  pub code : ℕ

pub data ConnectError : Type 0 where
  connect : ZbusError → ConnectError

pub data Error : Type 0 where
  dbus : ZbusError → Error

pub record ShellSpec : Type 0 where
  pub machine : Bytes
  pub user : Bytes
  pub program : Bytes
  pub args : List Bytes
  pub environment : List Bytes

-- The proxy's `open_machine_shell` with its five arguments; it returns the terminal and its name.
abbrev pub OpenMachineShell : Type 0 → Type 0
OpenMachineShell W =
    (name user path : Bytes) → (args environment : List Bytes) → Act W ZbusError (RawFd × Bytes)

-- `Dbus::new`: the connection to the system bus, and the proxy on it.
unfoldable pub new :
    {C P : Type 0} → Outcome ZbusError C → (C → Outcome ZbusError P) → Outcome ConnectError P
new new_system new_proxy =
    and_then (map_err_outcome connect new_system) (λ c. map_err_outcome connect (new_proxy c))

-- The name of the terminal is not used, and its descriptor is taken over.
abbrev pub fd_only :
    {W : Type 0} → Build → Outcome Error (RawFd × Bytes) × W → Outcome Error PtyMaster × W
fd_only b (ok (fd, pty_name), w) = (never_err (from_raw_fd b fd), w)
fd_only b (err e, w) = (err e, w)
fd_only b (panic p, w) = (panic p, w)

module _ {W : Type 0} (b : Build) (open_machine_shell : OpenMachineShell W) where
  unfoldable pub create_shell : ShellSpec → Act W Error PtyMaster
  unfolding from_raw_fd
  create_shell spec w = fd_only b (
      map_err Error.dbus
        (open_machine_shell spec.machine spec.user spec.program spec.args spec.environment) w)
