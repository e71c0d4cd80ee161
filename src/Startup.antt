-- ===== src/Startup.antt =====
-- src/daemon/main.cpp: the options of the daemon, and the state that its callbacks share.
pub mod Arguments
pub mod Callbacks
pub mod Cleanup
mod Signals
mod Serve
mod Fork
mod Exit
mod Detach
mod Written
mod Tests
mod ServeTests
use ahk_unix.Base.{ℕ, Bool, Bytes}
use ahk_unix.Daemon.{DaemonState}

pub record Options : Type 0 where
  pub device : Bytes
  pub script : Bytes
  pub foreground : Bool
  pub strict_mode : Bool

-- The daemon, the two variables under `state_mutex`, the flag of the Daemonizer and `ahk::g_stop`.
pub record App : Type 0 where
  pub daemon : DaemonState
  pub active_script : Bytes
  pub load_time : ℕ
  pub shutdown_requested : Bool
  pub g_stop : Bool
