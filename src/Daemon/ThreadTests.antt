-- ===== src/Daemon/ThreadTests.antt =====
-- Examples of the threads of the daemon.
use ahk_unix.Base.{true, [], ◌∷◌, refl, some}
use ahk_unix.ScriptFile.Tests.{script}
use ahk_unix.Ring.{push, ends_with}
use ahk_unix.Daemon.{DaemonState, max_trigger_from, ring_capacity}
use ahk_unix.Daemon.Match.{match_step, match_loop, find_match}
use ahk_unix.Daemon.Handler.{any_interrupt, is_interrupt_macro, track, forward, request_macro_stop}
use ahk_unix.Daemon.Steps.{Sound, Stopping}
use ahk_unix.Daemon.Threads.{
  to_forward, to_submit, no_reload, to_install, Threads, after_match, input_step, arrive, proceed,
  load, none_yet, then_move, quiet,
}
use ahk_unix.Daemon.Interleaved.{Submits, Moves-Sound, ends_job, still, also, BusyMoves-Stopping}
use ahk_unix.Daemon.Tests.{short, long, start, typed, press}

-- A press that completes the short trigger, up to the match, with a reload begun behind it.
abbrev at_submit : Threads
at_submit = record {
  daemon = request_macro_stop (forward press (track press start));
  input = to_submit short;
  reload = to_install [] (some script);
}

Moves-Sound_example : Sound at_submit.daemon × Submits at_submit.input
unfolding input_step after_match forward track find_match match_loop match_step ends_with push
    ring_capacity max_trigger_from is_interrupt_macro any_interrupt
Moves-Sound_example = Moves-Sound (short ∷ long ∷ []) at_submit (
    then_move (then_move (then_move (then_move none_yet (arrive press)) proceed) proceed)
      (load [] (some script)))

abbrev stopping : DaemonState
stopping = record typed { running = some short; stop_requested = true }

BusyMoves-Stopping_example : Stopping short (track press stopping)
unfolding ends_job
BusyMoves-Stopping_example =
    BusyMoves-Stopping {a = quiet stopping}
      {b = record { daemon = track press stopping; input = to_forward press; reload = no_reload }}
      short (refl, refl) (also still (arrive press) refl)
