-- ===== src/Daemon.antt =====
-- include/ahkunix/Daemon.hpp and src/Daemon.cpp.
pub mod Match
pub mod Longest
pub mod Handler
pub mod Effect
pub mod Typed
pub mod Ringed
pub mod Held
pub mod Steps
pub mod Legacy
pub mod Job
pub mod Agree
pub mod Whole
pub mod Executed
pub mod Macro
pub mod Bounded
pub mod Allowed
pub mod Threads
pub mod Interleaved
pub mod Sections
pub mod Loop
pub mod Rounds
pub mod Ends
pub mod Stale
mod Tests
mod ThreadTests
mod LoopTests
mod MacroTests
use ahk_unix.Base.{ℕ, ◌+◌, Bool, true, false, List, [], ◌∷◌, max, length, Option}
use ahk_unix.Base.Int.{ℤ}
use ahk_unix.Ring.{RingBuffer}
use ahk_unix.Hotstring.{Hotstring}

-- An event of an input device.
pub record RawEvent : Type 0 where
  pub type : ℕ
  pub code : ℕ
  pub value : ℤ

-- The fields that `handle_event`, `reload_script` and the worker share. `pressed_keys` is a set, kept
-- without repeats. `running` is the local `job` of the worker while it executes it, and `forwarded`
-- lists the events passed to `injector_.forward`, the last one at the end.
pub record DaemonState : Type 0 where
  pub ring : RingBuffer
  pub hotstrings : List Hotstring
  pub pressed_keys : List ℕ
  pub stop_requested : Bool
  pub macro_queue : List Hotstring
  pub macro_worker_stop : Bool
  pub running : Option Hotstring
  pub forwarded : List RawEvent

unfoldable pub max_trigger_from : ℕ → List Hotstring → ℕ
max_trigger_from max_trigger [] = max_trigger
max_trigger_from max_trigger (hs ∷ rest) =
    max_trigger_from (max max_trigger (length hs.trigger_keys)) rest

unfoldable pub ring_capacity : List Hotstring → ℕ
ring_capacity hotstrings = max_trigger_from 16 hotstrings + 8
