-- ===== src/Daemon/Loop.antt =====
-- `Daemon::run` of src/Daemon.cpp, over what `poll` and the reads of events return. The writes to the
-- virtual keyboard succeed.
use ahk_unix.Base.{Bool, true, false, List, [], ◌∷◌, none, some, codes, ok, err, Error, sys_error}
use ahk_unix.Device.Input.{Keyboard, grab, ungrab, NextEvent, read_event}
use ahk_unix.Daemon.{DaemonState}
use ahk_unix.Daemon.Handler.{handle_event, stop_macro_worker}

pub data Polled : Type 0 where
  poll_interrupted : Polled
  poll_failed : Polled
  timed_out : Polled
  readable : List NextEvent → Polled

-- What `g_stop` reads at the head of the loop, and what `poll` then returns.
pub record Round : Type 0 where
  pub g_stop : Bool
  pub polled : Polled

-- The loop over the reads: it has ended, has thrown, or waits for a read that has not returned.
pub data Reading : Type 0 where
  drained : DaemonState → Reading
  read_failed : Error → DaemonState → Reading
  blocked : DaemonState → Reading

pub data Running : Type 0 where
  stopped : DaemonState → Keyboard → Running
  thrown : Error → DaemonState → Keyboard → Running
  waiting : DaemonState → Keyboard → Running

-- While the device has no event, a read of a device that blocks waits for what it has next, and
-- a read of another one ends the loop.
unfoldable pub read_loop : Bool → List NextEvent → DaemonState → Reading
unfolding read_event
read_loop nonblocking [] d = blocked d
read_loop nonblocking (answer ∷ answers) d = elim (read_event answer) [
  | ok none ↦ elim nonblocking [ true ↦ drained d | false ↦ read_loop nonblocking answers d ]
  | ok (some ev) ↦ read_loop nonblocking answers (handle_event ev d)
  | err e ↦ read_failed e d
]

-- The rest of a round, for what the reads did.
unfoldable pub after_reading : Reading → Keyboard → (DaemonState → Running) → Running
after_reading (drained d) keyboard next = next d
after_reading (read_failed e d) keyboard next = thrown e d keyboard
after_reading (blocked d) keyboard next = waiting d keyboard

-- Behind the end of the list `poll` has not returned.
unfoldable pub run_loop : List Round → Keyboard → DaemonState → Running
unfolding read_loop after_reading
run_loop [] keyboard d = waiting d keyboard
run_loop (round ∷ rounds) keyboard d = elim round.g_stop [
  | true ↦ stopped (stop_macro_worker d) (ungrab keyboard)
  | false ↦ elim round.polled [
    | poll_interrupted ↦ run_loop rounds keyboard d
    | poll_failed ↦ thrown (sys_error (codes "poll input device")) d keyboard
    | timed_out ↦ run_loop rounds keyboard d
    | readable answers ↦
        after_reading (read_loop keyboard.nonblocking answers d) keyboard (run_loop rounds keyboard)
  ]
]

unfoldable pub run : List Round → Keyboard → DaemonState → Running
unfolding run_loop
run rounds keyboard d = run_loop rounds (grab keyboard) d
