-- ===== src/Daemon/Threads.antt =====
-- The threads of src/Daemon.cpp, cut at their critical sections: the input thread inside `handle_event`
-- and `stop_macro_worker`, the thread of the server inside `reload_script`, and the worker.
use ahk_unix.Base.{
  true, not, ◌||◌, [], Option, none, some, ◌≡◌, if◌then◌else◌, ◌==◌, Bytes, Result, ok, err,
}
use ahk_unix.Keys.{ev_key}
use ahk_unix.Layout.{russian_qwerty}
use ahk_unix.Hotstring.{Hotstring}
use ahk_unix.ScriptFile.Loop.{parse_file, ScriptFile}
use ahk_unix.Daemon.{RawEvent, DaemonState}
use ahk_unix.Daemon.Match.{find_match}
use ahk_unix.Daemon.Handler.{
  is_interrupt_macro, has_value, track, forward, submit_macro, request_macro_stop, clear_ring,
  install, take_job, finish_job,
}

-- What the input thread does next.
pub data InputAt : Type 0 where
  between_events : InputAt
  to_forward : RawEvent → InputAt
  to_match : InputAt
  to_stop : InputAt
  to_submit : Hotstring → InputAt
  to_clear : InputAt
  to_end : InputAt

-- A reload has requested the stop, and parses.
pub data ReloadAt : Type 0 where
  no_reload : ReloadAt
  to_install : Bytes → Option Bytes → ReloadAt

pub record Threads : Type 0 where
  pub daemon : DaemonState
  pub input : InputAt
  pub reload : ReloadAt

-- `handle_event` behind `find_match`
unfoldable pub after_match : Option Hotstring → InputAt
after_match none = between_events
after_match (some matched) = if is_interrupt_macro matched then to_stop else to_submit matched

-- The second critical section of `stop_macro_worker`.
unfoldable pub end_worker : DaemonState → DaemonState
end_worker d = record d { macro_worker_stop = true; macro_queue = [] }

-- The next section of the input thread.
unfoldable pub input_step : InputAt → DaemonState → InputAt × DaemonState
unfolding after_match end_worker
input_step between_events d = (between_events, d)
input_step (to_forward ev) d = (
  if not (ev.type == ev_key) || not (has_value ev 1) then between_events else to_match,
  forward ev d,
)
input_step to_match d = (after_match (find_match d), d)
input_step to_stop d = (to_clear, request_macro_stop d)
input_step (to_submit hs) d = (to_clear, submit_macro hs d)
input_step to_clear d = (between_events, clear_ring d)
input_step to_end d = (between_events, end_worker d)

-- What the parser returned is installed; when it has thrown, nothing is.
unfoldable pub install_parsed : Result ScriptFile → DaemonState → DaemonState
install_parsed (ok f) d = install f.hotstrings d
install_parsed (err e) d = d

unfoldable pub reload_step : ReloadAt → DaemonState → DaemonState
unfolding install_parsed
reload_step no_reload d = d
reload_step (to_install path contents) d =
    install_parsed (parse_file russian_qwerty path contents) d

-- One section of one thread. The input thread takes an event, or begins to shut down, between events;
-- the server handles one client at a time.
pub data Move : Threads → Threads → Type 0 where
  arrive :
      {d : DaemonState} {r : ReloadAt} (ev : RawEvent)
      → Move
          (record { daemon = d; input = between_events; reload = r })
          (record { daemon = track ev d; input = to_forward ev; reload = r })
  shut_down :
      {d : DaemonState} {r : ReloadAt}
      → Move
          (record { daemon = d; input = between_events; reload = r })
          (record { daemon = request_macro_stop d; input = to_end; reload = r })
  proceed :
      {d : DaemonState} {i : InputAt} {r : ReloadAt}
      → Move
          (record { daemon = d; input = i; reload = r })
          (record { daemon = (input_step i d).1; input = (input_step i d).0; reload = r })
  load :
      {d : DaemonState} {i : InputAt} (path : Bytes) (contents : Option Bytes)
      → Move
          (record { daemon = d; input = i; reload = no_reload })
          (record { daemon = request_macro_stop d; input = i; reload = to_install path contents })
  loaded :
      {d : DaemonState} {i : InputAt} {r : ReloadAt}
      → Move
          (record { daemon = d; input = i; reload = r })
          (record { daemon = reload_step r d; input = i; reload = no_reload })
  take :
      {d : DaemonState} {i : InputAt} {r : ReloadAt}
      → d.running ≡ none
      → Move
          (record { daemon = d; input = i; reload = r })
          (record { daemon = take_job d; input = i; reload = r })
  end_job :
      {d : DaemonState} {i : InputAt} {r : ReloadAt}
      → Move
          (record { daemon = d; input = i; reload = r })
          (record { daemon = finish_job d; input = i; reload = r })

pub data Moves : Threads → Threads → Type 0 where
  none_yet : {t : Threads} → Moves t t
  then_move : {a b c : Threads} → Moves a b → Move b c → Moves a c

-- No thread is inside a call.
abbrev pub quiet : DaemonState → Threads
quiet d = record { daemon = d; input = between_events; reload = no_reload }
