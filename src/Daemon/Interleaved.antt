-- ===== src/Daemon/Interleaved.antt =====
-- The invariants of the daemon, at every point between two critical sections of its threads.
use ahk_unix.Base.{
  Bool, true, false, List, Option, none, some, ◌≡◌, inl, inr, refl, arith, Bool-cases,
  if◌then◌else◌, ◌==◌, Result, ok, err,
}
use ahk_unix.Keys.{ev_key}
use ahk_unix.Layout.{russian_qwerty}
use ahk_unix.Ring.{push, clear}
use ahk_unix.Hotstring.{Hotstring}
use ahk_unix.ScriptFile.Loop.{parse_file, ScriptFile}
use ahk_unix.Daemon.{RawEvent, DaemonState}
use ahk_unix.Daemon.Match.{find_match}
use ahk_unix.Daemon.Handler.{
  is_interrupt_macro, has_value, track, forward, submit_macro, request_macro_stop, clear_ring,
  install, finish_job, initial_daemon,
}
use ahk_unix.Daemon.Steps.{Sound, Stopping, NoInterrupt-append, NoInterrupt-nil, take-Sound}
use ahk_unix.Daemon.Threads.{
  InputAt, between_events, to_forward, to_match, to_stop, to_submit, to_clear, to_end, ReloadAt,
  no_reload, to_install, Threads, after_match, end_worker, input_step, install_parsed, reload_step,
  Move, arrive, shut_down, proceed, load, loaded, take, end_job, Moves, none_yet, then_move, quiet,
}

-- A hotstring about to be submitted has no `Cancel` command.
abbrev pub Submits : InputAt → Type 0
Submits i = (hs : Hotstring) → i ≡ to_submit hs → is_interrupt_macro hs ≡ false

track-Sound : (ev : RawEvent) (d : DaemonState) → Sound d → Sound (track ev d)
unfolding track push
track-Sound ev d s = elim (Bool-cases (ev.type == ev_key)) [
  | inl e ↦ elim (Bool-cases (has_value ev 1)) [ inl v ↦ rw (e, v) s | inr v ↦ rw (e, v) s ]
  | inr e ↦ rw e s
]

submit-Sound :
    (hs : Hotstring) (d : DaemonState)
    → is_interrupt_macro hs ≡ false
    → Sound d
    → Sound (submit_macro hs d)
unfolding submit_macro
submit-Sound hs d calm (queue, job, capacity) = elim (Bool-cases d.macro_worker_stop) [
  | inl w ↦ rw w (queue, job, capacity)
  | inr w ↦ rw w (NoInterrupt-append d.macro_queue hs queue calm, job, capacity)
]

after_match-Submits : (found : Option Hotstring) → Submits (after_match found)
unfolding after_match
after_match-Submits none hs e = absurd (ground (arith, e))
after_match-Submits (some matched) hs e = elim (Bool-cases (is_interrupt_macro matched)) [
  | inl i ↦ absurd (ground (arith, e, i))
  | inr i ↦ ground (arith, e, i)
]

behind_forward : (b : Bool) → Submits (if b then between_events else to_match)
behind_forward true hs e = absurd (ground (arith, e))
behind_forward false hs e = absurd (ground (arith, e))

input_step-Sound :
    (i : InputAt) (d : DaemonState)
    → Sound d
    → Submits i
    → Sound (input_step i d).1 × Submits (input_step i d).0
unfolding input_step forward request_macro_stop clear_ring clear end_worker
input_step-Sound between_events d s _ = (s, λ hs e. absurd (ground (arith, e)))
input_step-Sound (to_forward ev) d s _ = (s, behind_forward _)
input_step-Sound to_match d s _ = (s, after_match-Submits (find_match d))
input_step-Sound to_stop d (_, job, capacity) _ =
    ((NoInterrupt-nil, job, capacity), λ hs e. absurd (ground (arith, e)))
input_step-Sound (to_submit hs) d s calm =
    (submit-Sound hs d (calm hs refl) s, λ hs e. absurd (ground (arith, e)))
input_step-Sound to_clear d s _ = (s, λ hs e. absurd (ground (arith, e)))
input_step-Sound to_end d (_, job, capacity) _ =
    ((NoInterrupt-nil, job, capacity), λ hs e. absurd (ground (arith, e)))

reload_step-Sound : (r : ReloadAt) (d : DaemonState) → Sound d → Sound (reload_step r d)
unfolding reload_step install_parsed install
reload_step-Sound no_reload d s = s
reload_step-Sound (to_install path contents) d s = parsed (parse_file russian_qwerty path contents)
  where
    parsed : (f : Result ScriptFile) → Sound (install_parsed f d)
    parsed (ok f) = (s.0, s.1, refl)
    parsed (err e) = s

abbrev AllSound : Threads → Type 0
AllSound t = Sound t.daemon × Submits t.input

move-AllSound : {a b : Threads} → Move a b → AllSound a → AllSound b
unfolding request_macro_stop finish_job
move-AllSound (arrive {d} ev) (s, i) = (track-Sound ev d s, λ hs e. absurd (ground (arith, e)))
move-AllSound shut_down ((_, job, capacity), i) =
    ((NoInterrupt-nil, job, capacity), λ hs e. absurd (ground (arith, e)))
move-AllSound (proceed {d} {i}) (s, submits) = input_step-Sound i d s submits
move-AllSound (load path contents) ((_, job, capacity), i) = ((NoInterrupt-nil, job, capacity), i)
move-AllSound (loaded {d} {r = r}) (s, i) = (reload_step-Sound r d s, i)
move-AllSound (take {d} _) (s, i) = (take-Sound d s, i)
move-AllSound end_job ((queue, job, capacity), i) =
    ((queue, (λ j e. absurd (ground (arith, e))), capacity), i)

Moves-AllSound : {a b : Threads} → Moves a b → AllSound a → AllSound b
Moves-AllSound none_yet s = s
Moves-AllSound (then_move moves move) s = move-AllSound move (Moves-AllSound moves s)

-- However the critical sections of the input thread, of a reload and of the worker follow each other from
-- the start of the daemon: no hotstring with a `Cancel` command waits in the queue, runs, or is
-- about to be submitted, and the ring has the capacity that the loaded hotstrings need.
pub Moves-Sound :
    (hotstrings : List Hotstring) (t : Threads)
    → Moves (quiet (initial_daemon hotstrings)) t
    → Sound t.daemon × Submits t.input
Moves-Sound hotstrings t moves = Moves-AllSound moves (
  (NoInterrupt-nil, (λ j e. absurd (ground (arith, e))), refl),
  λ hs e. absurd (ground (arith, e)),
)

-- The worker reaches the end of `execute_macro`.
unfoldable pub ends_job : {a b : Threads} → Move a b → Bool
ends_job end_job = true
ends_job (arrive ev) = false
ends_job shut_down = false
ends_job proceed = false
ends_job (load path contents) = false
ends_job loaded = false
ends_job (take idle) = false

-- Moves none of which ends a job.
pub data BusyMoves : Threads → Threads → Type 0 where
  still : {t : Threads} → BusyMoves t t
  also :
      {a b c : Threads} → BusyMoves a b → (move : Move b c) → ends_job move ≡ false → BusyMoves a c

input_step-Stopping :
    (i : InputAt) (d : DaemonState) (job : Hotstring)
    → Stopping job d
    → Stopping job (input_step i d).1
unfolding input_step forward request_macro_stop clear_ring end_worker submit_macro
input_step-Stopping between_events d job s = s
input_step-Stopping (to_forward ev) d job s = s
input_step-Stopping to_match d job s = s
input_step-Stopping to_stop d job (run, _) = (run, refl)
input_step-Stopping (to_submit hs) d job s = elim (Bool-cases d.macro_worker_stop) [
  | inl w ↦ rw w s
  | inr w ↦ rw w s
]
input_step-Stopping to_clear d job s = s
input_step-Stopping to_end d job s = s

reload_step-Stopping :
    (r : ReloadAt) (d : DaemonState) (job : Hotstring)
    → Stopping job d
    → Stopping job (reload_step r d)
unfolding reload_step install_parsed install
reload_step-Stopping no_reload d job s = s
reload_step-Stopping (to_install path contents) d job s =
    parsed (parse_file russian_qwerty path contents)
  where
    parsed : (f : Result ScriptFile) → Stopping job (install_parsed f d)
    parsed (ok f) = s
    parsed (err e) = s

track-Stopping :
    (ev : RawEvent) (d : DaemonState) (job : Hotstring) → Stopping job d → Stopping job (track ev d)
unfolding track
track-Stopping ev d job s = elim (Bool-cases (ev.type == ev_key)) [
  | inl e ↦ rw e s
  | inr e ↦ rw e s
]

move-Stopping :
    {a b : Threads} (job : Hotstring) (move : Move a b)
    → ends_job move ≡ false
    → Stopping job a.daemon
    → Stopping job b.daemon
unfolding request_macro_stop ends_job
move-Stopping job (arrive {d} ev) _ s = track-Stopping ev d job s
move-Stopping job shut_down _ (run, _) = (run, refl)
move-Stopping job (proceed {d} {i}) _ s = input_step-Stopping i d job s
move-Stopping job (load path contents) _ (run, _) = (run, refl)
move-Stopping job (loaded {d} {r = r}) _ s = reload_step-Stopping r d job s
move-Stopping job (take idle) _ (run, _) = absurd (ground (arith, idle, run))
move-Stopping job end_job e s = absurd (ground (arith, e))

-- Once a stop is requested while a job runs, the flag stands and the job keeps running until the
-- job ends, however the sections of the input thread, of the reloads and of the worker follow
-- each other meanwhile: the flag that the job reads is not reset under it.
pub BusyMoves-Stopping :
    {a b : Threads} (job : Hotstring)
    → Stopping job a.daemon
    → BusyMoves a b
    → Stopping job b.daemon
BusyMoves-Stopping job s still = s
BusyMoves-Stopping job s (also moves move busy) =
    move-Stopping job move busy (BusyMoves-Stopping job s moves)
