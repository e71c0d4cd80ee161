-- ===== src/Daemon/Sections.antt =====
-- The calls of the daemon against the sections of Threads.antt that they are made of.
use ahk_unix.Base.{
  Error, none, some, Option, ℕ, zero, suc, Option, none, some, ◌≡◌, inl, inr, refl, subst,
  Bool-cases, not, ◌||◌, ◌==◌, Bytes, Result, ok, err,
}
use ahk_unix.Keys.{ev_key}
use ahk_unix.Layout.{russian_qwerty}
use ahk_unix.Hotstring.{Hotstring}
use ahk_unix.ScriptFile.Loop.{parse_file, ScriptFile}
use ahk_unix.Daemon.{RawEvent, DaemonState}
use ahk_unix.Daemon.Match.{find_match}
use ahk_unix.Daemon.Handler.{
  is_interrupt_macro, has_value, track, forward, request_macro_stop, install, act_on, handle_event,
  reload_script, after_reload, stop_macro_worker,
}
use ahk_unix.Daemon.Steps.{Step, input, reload, take, finish, shut_down, Steps, done, next}
use ahk_unix.Daemon.Threads
use ahk_unix.Daemon.Threads.{
  InputAt, between_events, to_forward, to_match, to_stop, to_submit, to_clear, to_end, ReloadAt,
  no_reload, to_install, Threads, after_match, end_worker, input_step, install_parsed, reload_step,
  Move, arrive, proceed, load, loaded, end_job, Moves, none_yet, then_move, quiet,
}

-- The next sections of the input thread, with no other thread between them.
unfoldable pub input_steps : ℕ → InputAt × DaemonState → InputAt × DaemonState
input_steps zero at = at
input_steps (suc n) (i, d) = input_steps n (input_step i d)

matched_steps :
    (found : Option Hotstring) (d : DaemonState)
    → input_steps 2 (after_match found, d) ≡ (between_events, act_on found d)
unfolding input_steps input_step after_match act_on
matched_steps none d = refl
matched_steps (some matched) d = elim (Bool-cases (is_interrupt_macro matched)) [
  | inl i ↦ rw i refl
  | inr i ↦ rw i refl
]

-- With nothing between them, the four sections behind the tracking of a key are the rest of
-- `handle_event`.
pub input_steps-handle_event :
    (ev : RawEvent) (d : DaemonState)
    → input_steps 4 (to_forward ev, track ev d) ≡ (between_events, handle_event ev d)
unfolding input_steps input_step handle_event
input_steps-handle_event ev d =
    elim (Bool-cases (not (ev.type == ev_key) || not (has_value ev 1))) [
      | inl e ↦ rw e refl
      | inr e ↦
          rw e (matched_steps (find_match (forward ev (track ev d))) (forward ev (track ev d)))
    ]

-- With nothing between them, the two sections of a reload are `reload_script`.
pub reload_step-after_reload :
    (path : Bytes) (contents : Option Bytes) (d : DaemonState)
    → reload_step (to_install path contents) (request_macro_stop d) ≡ after_reload path contents d
unfolding reload_step after_reload reload_script install_parsed
reload_step-after_reload path contents d = parsed (parse_file russian_qwerty path contents)
  where
    parsed :
        (f : Result ScriptFile)
        → install_parsed f (request_macro_stop d) ≡ (
            let left : Option Error × DaemonState = elim f [
              | ok g ↦ (none, install g.hotstrings (request_macro_stop d))
              | err e ↦ (some e, request_macro_stop d)
            ] in
            left.1)
    parsed (ok f) = refl
    parsed (err e) = refl

pub proceed_by :
    (n : ℕ) {t : Threads} (i : InputAt) (d : DaemonState)
    → Moves t (record { daemon = d; input = i; reload = no_reload })
    → let (j, e) = input_steps n (i, d) in
      Moves t (record { daemon = e; input = j; reload = no_reload })
unfolding input_steps
proceed_by zero i d moves = moves
proceed_by (suc n) i d moves =
    proceed_by n (input_step i d).0 (input_step i d).1 (then_move moves proceed)

step-Moves : {t : Threads} {a b : DaemonState} → Step a b → Moves t (quiet a) → Moves t (quiet b)
unfolding stop_macro_worker request_macro_stop end_worker input_step
step-Moves {t} (input {d} ev) moves =
    subst (λ at. Moves t (record { daemon = at.1; input = at.0; reload = no_reload }))
      (input_steps-handle_event ev d)
      (proceed_by 4 (to_forward ev) (track ev d) (then_move moves (arrive ev)))
step-Moves {t} (reload {d} path contents) moves =
    subst (λ e. Moves t (quiet e)) (reload_step-after_reload path contents d)
      (then_move (then_move moves (load path contents)) loaded)
step-Moves (take idle) moves = then_move moves (Threads.take idle)
step-Moves finish moves = then_move moves end_job
step-Moves shut_down moves = then_move (then_move moves Threads.shut_down) proceed

-- What the daemon does one call after the other, it can do by sections: the threads reach, with none
-- of them inside a call, every state that whole calls reach.
Steps-Moves : {a b : DaemonState} → Steps a b → Moves (quiet a) (quiet b)
Steps-Moves done = none_yet
Steps-Moves (next steps step) = step-Moves step (Steps-Moves steps)
