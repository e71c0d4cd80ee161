-- ===== src/Daemon/Handler.antt =====
-- `Daemon::handle_event`, `reload_script` and the queue of macros. Each function below is the body of
-- one call; the worker's loop is cut at the wait of its condition variable: `take_job` is the part
-- under the lock, `finish_job` the end of `execute_macro`, whether it returned or threw.
use ahk_unix.Base.{
  Error, err, ℕ, Bool, true, false, ◌||◌, not, List, [], ◌∷◌, ◌++◌, Option, none, some,
  if◌then◌else◌, ◌==◌, Bytes, ok, err,
}
use ahk_unix.Base.Int.{pos, negsuc}
use ahk_unix.Keys.{
  ev_key, key_leftctrl, key_rightctrl, key_leftalt, key_rightalt, key_leftshift, key_rightshift,
  key_leftmeta, key_rightmeta,
}
use ahk_unix.Ring.{with_capacity, push, clear}
use ahk_unix.Command.{Commands, nil, cons, is_interrupt}
use ahk_unix.Layout.{russian_qwerty}
use ahk_unix.Hotstring.{Hotstring}
use ahk_unix.ScriptFile.Loop.{parse_file}
use ahk_unix.Daemon.{RawEvent, DaemonState, ring_capacity}
use ahk_unix.Daemon.Match.{is_pressed, find_match}

unfoldable pub any_interrupt : Commands → Bool
any_interrupt nil = false
any_interrupt (cons cmd cmds) = is_interrupt cmd || any_interrupt cmds

unfoldable pub is_interrupt_macro : Hotstring → Bool
is_interrupt_macro hs = any_interrupt hs.commands

-- `ev.value == n`
abbrev pub has_value : RawEvent → ℕ → Bool
has_value ev n = elim ev.value [ pos m ↦ m == n | negsuc m ↦ false ]

abbrev pub is_modifier : ℕ → Bool
is_modifier code =
    code == key_leftctrl
    || code == key_rightctrl
    || code == key_leftalt
    || code == key_rightalt
    || code == key_leftshift
    || code == key_rightshift
    || code == key_leftmeta
    || code == key_rightmeta

unfoldable pub erase : List ℕ → ℕ → List ℕ
erase [] key = []
erase (k ∷ pressed) key = let rest = erase pressed key in if k == key then rest else k ∷ rest

abbrev pub insert : List ℕ → ℕ → List ℕ
insert pressed key = if is_pressed pressed key then pressed else key ∷ pressed

unfoldable pub track_modifiers : RawEvent → List ℕ → List ℕ
track_modifiers ev pressed =
    if is_modifier ev.code
    then if has_value ev 1
      then insert pressed ev.code
      else if has_value ev 0
      then erase pressed ev.code
      else pressed
    else pressed

-- The first critical section of `handle_event`.
unfoldable pub track : RawEvent → DaemonState → DaemonState
track ev d =
    if ev.type == ev_key
    then record d {
      pressed_keys = track_modifiers ev d.pressed_keys;
      ring = if has_value ev 1 then push d.ring ev.code else d.ring;
    }
    else d

unfoldable pub submit_macro : Hotstring → DaemonState → DaemonState
submit_macro hs d =
    if d.macro_worker_stop then d else record d { macro_queue = d.macro_queue ++ hs ∷ [] }

unfoldable pub request_macro_stop : DaemonState → DaemonState
request_macro_stop d = record d { macro_queue = []; stop_requested = true }

unfoldable pub clear_ring : DaemonState → DaemonState
clear_ring d = record d { ring = clear d.ring }

-- The end of `handle_event`, for what `find_match` returned.
unfoldable pub act_on : Option Hotstring → DaemonState → DaemonState
act_on none d = d
act_on (some matched) d =
    if is_interrupt_macro matched
    then clear_ring (request_macro_stop d)
    else clear_ring (submit_macro matched d)

unfoldable pub forward : RawEvent → DaemonState → DaemonState
forward ev d = record d { forwarded = d.forwarded ++ ev ∷ [] }

unfoldable pub handle_event : RawEvent → DaemonState → DaemonState
handle_event ev d =
    let tracked = forward ev (track ev d) in
    if not (ev.type == ev_key) || not (has_value ev 1)
    then tracked
    else act_on (find_match tracked) tracked

-- The last critical section of `reload_script`.
unfoldable pub install : List Hotstring → DaemonState → DaemonState
install hotstrings d = record d {
  hotstrings = hotstrings;
  ring = with_capacity (ring_capacity hotstrings);
  pressed_keys = [];
}

-- `reload_script`: what it throws, if anything, and the state that it leaves.
unfoldable pub reload_script : Bytes → Option Bytes → DaemonState → Option Error × DaemonState
reload_script path contents d =
    let cancelled = request_macro_stop d in
    elim (parse_file russian_qwerty path contents) [
      | ok f ↦ (none, install f.hotstrings cancelled)
      | err e ↦ (some e, cancelled)
    ]

-- The state behind `reload_script`, whether it returns or throws.
unfoldable pub after_reload : Bytes → Option Bytes → DaemonState → DaemonState
after_reload path contents d = (reload_script path contents d).1

-- `stop_macro_worker`, without the join.
unfoldable pub stop_macro_worker : DaemonState → DaemonState
stop_macro_worker d = record (request_macro_stop d) { macro_worker_stop = true; macro_queue = [] }

-- The wait ends only for a job or for the stop of the worker, which leaves the loop.
unfoldable pub take_from : List Hotstring → DaemonState → DaemonState
take_from [] d = d
take_from (job ∷ queue) d = record d {
  macro_queue = queue;
  running = some job;
  stop_requested = false;
}

unfoldable pub take_job : DaemonState → DaemonState
take_job d = if d.macro_worker_stop then d else take_from d.macro_queue d

unfoldable pub finish_job : DaemonState → DaemonState
finish_job d = record d { running = none }

-- `Daemon::Daemon`
abbrev pub initial_daemon : List Hotstring → DaemonState
initial_daemon hotstrings = record {
  ring = with_capacity (ring_capacity hotstrings);
  hotstrings = hotstrings;
  pressed_keys = [];
  stop_requested = false;
  macro_queue = [];
  macro_worker_stop = false;
  running = none;
  forwarded = [];
}
