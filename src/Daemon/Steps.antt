-- ===== src/Daemon/Steps.antt =====
-- The daemon as a step relation: the input loop, the reloads and the worker, in any order.
use ahk_unix.Base.{
  Bool, true, false, List, [], ◌∷◌, ◌++◌, Option, none, some, ◌≡◌, ◌⊎◌, inl, inr, refl, sym, ap,
  subst, ◌∙◌, arith, Bool-cases, if◌then◌else◌, Bytes, Result-cases,
}
use ahk_unix.Hotstring.{Hotstring}
use ahk_unix.Daemon.{RawEvent, DaemonState, ring_capacity}
use ahk_unix.Daemon.Longest.{In, here, there}
use ahk_unix.Daemon.Handler.{
  is_interrupt_macro, handle_event, request_macro_stop, reload_script, install, after_reload,
  stop_macro_worker, take_from, take_job, finish_job, initial_daemon,
}
use ahk_unix.Layout.{russian_qwerty}
use ahk_unix.ScriptFile.Loop.{parse_file}
use ahk_unix.Daemon.Effect.{Acted, matched, handle_event-effect}

-- The worker takes a job only while it runs none.
pub data Step : DaemonState → DaemonState → Type 0 where
  input : {d : DaemonState} (ev : RawEvent) → Step d (handle_event ev d)
  reload :
      {d : DaemonState} (path : Bytes) (contents : Option Bytes)
      → Step d (after_reload path contents d)
  take : {d : DaemonState} → d.running ≡ none → Step d (take_job d)
  finish : {d : DaemonState} → Step d (finish_job d)
  shut_down : {d : DaemonState} → Step d (stop_macro_worker d)

pub data Steps : DaemonState → DaemonState → Type 0 where
  done : {d : DaemonState} → Steps d d
  next : {a b c : DaemonState} → Steps a b → Step b c → Steps a c

-- Steps none of which ends a job.
pub data Busy : DaemonState → DaemonState → Type 0 where
  still : {d : DaemonState} → Busy d d
  on_input : {a b : DaemonState} (ev : RawEvent) → Busy a b → Busy a (handle_event ev b)
  on_reload :
      {a b : DaemonState} (path : Bytes) (contents : Option Bytes)
      → Busy a b
      → Busy a (after_reload path contents b)
  on_take : {a b : DaemonState} → b.running ≡ none → Busy a b → Busy a (take_job b)
  on_stop : {a b : DaemonState} → Busy a b → Busy a (stop_macro_worker b)

-- No hotstring of the list has a `Cancel` command.
abbrev pub NoInterrupt : List Hotstring → Type 0
NoInterrupt queue = (hs : Hotstring) → In hs queue → is_interrupt_macro hs ≡ false

abbrev pub Sound : DaemonState → Type 0
Sound d =
    NoInterrupt d.macro_queue
    × ((job : Hotstring) → d.running ≡ some job → is_interrupt_macro job ≡ false)
    × (d.ring.capacity ≡ ring_capacity d.hotstrings)

pub NoInterrupt-append :
    (queue : List Hotstring) (hs : Hotstring)
    → NoInterrupt queue
    → is_interrupt_macro hs ≡ false
    → NoInterrupt (queue ++ hs ∷ [])
NoInterrupt-append [] hs q i _ here = i
NoInterrupt-append [] hs q i h (there n) = elim n [ ]
NoInterrupt-append (h ∷ queue) hs q i _ here = q h here
NoInterrupt-append (h ∷ queue) hs q i x (there n) =
    NoInterrupt-append queue hs (λ y m. q y (there m)) i x n

pub NoInterrupt-nil : NoInterrupt []
NoInterrupt-nil hs i = elim i [ ]

NoInterrupt-Acted :
    (found : Option Hotstring) (d after : DaemonState)
    → Acted found d after
    → NoInterrupt d.macro_queue
    → NoInterrupt after.macro_queue
NoInterrupt-Acted found d after (inl (_, same, _)) q = subst NoInterrupt (sym same) q
NoInterrupt-Acted found d after (inr (inl (_, _, _, e, _))) q =
    subst NoInterrupt (sym e) NoInterrupt-nil
NoInterrupt-Acted found d after (inr (inr (hs, _, i, e, _))) q =
    elim (Bool-cases d.macro_worker_stop) [
      | inl w ↦ subst NoInterrupt (sym (e ∙ rw w refl)) q
      | inr w ↦ subst NoInterrupt (sym (e ∙ rw w refl)) (NoInterrupt-append d.macro_queue hs q i)
    ]

input-Sound : (ev : RawEvent) (d : DaemonState) → Sound d → Sound (handle_event ev d)
input-Sound ev d (queue, job, capacity) =
    let (acted, (running, _, hotstrings, same), _) = handle_event-effect ev d in
    (
      NoInterrupt-Acted (matched ev d) d (handle_event ev d) acted queue,
      (λ j e. job j (sym running ∙ e)),
      same ∙ capacity ∙ ap ring_capacity (sym hotstrings),
    )

pub reload-cases :
    (path : Bytes) (contents : Option Bytes) (d : DaemonState)
    → (after_reload path contents d ≡ request_macro_stop d)
      ⊎ ((hotstrings : List Hotstring) × (after_reload path contents d
            ≡ install hotstrings (request_macro_stop d)))
unfolding after_reload reload_script
reload-cases path contents d = elim (Result-cases (parse_file russian_qwerty path contents)) [
  | inl (f, e) ↦ inr (f.hotstrings, rw (e, after_reload, reload_script) refl)
  | inr (w, e) ↦ inl (rw (e, after_reload, reload_script) refl)
]

reload-Sound :
    (path : Bytes) (contents : Option Bytes) (d : DaemonState)
    → Sound d
    → Sound (after_reload path contents d)
unfolding install request_macro_stop
reload-Sound path contents d (queue, job, capacity) = elim (reload-cases path contents d) [
  | inl e ↦ rw e (NoInterrupt-nil, job, capacity)
  | inr (hotstrings, e) ↦ rw e (NoInterrupt-nil, job, refl)
]

take_from-Sound :
    (queue : List Hotstring) (d : DaemonState)
    → NoInterrupt queue
    → Sound d
    → Sound (take_from queue d)
unfolding take_from
take_from-Sound [] d q s = s
take_from-Sound (job ∷ queue) d q (_, _, capacity) = (
  (λ h i. q h (there i)),
  (λ j e.
      let same : job ≡ j = ground (arith, e) in
      subst (λ h. is_interrupt_macro h ≡ false) same (q job here)),
  capacity,
)

pub take-Sound : (d : DaemonState) → Sound d → Sound (take_job d)
unfolding take_job
take-Sound d s = if_either _ _ d.macro_worker_stop s (take_from-Sound d.macro_queue d s.0 s)
  where
    if_either : (x y : DaemonState) (b : Bool) → Sound x → Sound y → Sound (if b then x else y)
    if_either x y true p q = p
    if_either x y false p q = q

step-Sound : {a b : DaemonState} → Step a b → Sound a → Sound b
unfolding finish_job stop_macro_worker request_macro_stop
step-Sound (input {d} ev) s = input-Sound ev d s
step-Sound (reload {d} path contents) s = reload-Sound path contents d s
step-Sound (take {d} _) s = take-Sound d s
step-Sound finish (queue, job, capacity) = (queue, (λ j e. absurd (ground (arith, e))), capacity)
step-Sound shut_down (queue, job, capacity) = (NoInterrupt-nil, job, capacity)

run-Sound : {a b : DaemonState} → Steps a b → Sound a → Sound b
run-Sound done s = s
run-Sound (next steps step) s = step-Sound step (run-Sound steps s)

-- In every state that a daemon reaches from its start by events, reloads, jobs and the stop of
-- its worker, in any order: no hotstring with a `Cancel` command waits in the queue or runs, and the ring
-- has the capacity that the loaded hotstrings need.
pub Steps-Sound :
    (hotstrings : List Hotstring) (d : DaemonState) → Steps (initial_daemon hotstrings) d → Sound d
Steps-Sound hotstrings d steps =
    run-Sound steps (NoInterrupt-nil, (λ j e. absurd (ground (arith, e))), refl)

-- The stop flag stands and the job runs.
abbrev pub Stopping : Hotstring → DaemonState → Type 0
Stopping job d = (d.running ≡ some job) × (d.stop_requested ≡ true)

input-Stopping :
    (ev : RawEvent) (d : DaemonState) (job : Hotstring)
    → Stopping job d
    → Stopping job (handle_event ev d)
input-Stopping ev d job (run, stop) =
    let (acted, (running, _, _, _), _) = handle_event-effect ev d in
    (running ∙ run, stop_kept acted)
  where
    stop_kept :
        Acted (matched ev d) d (handle_event ev d) → (handle_event ev d).stop_requested ≡ true
    stop_kept (inl (_, _, s)) = s ∙ stop
    stop_kept (inr (inl (_, _, _, _, s))) = s
    stop_kept (inr (inr (_, _, _, _, s))) = s ∙ stop

reload-Stopping :
    (path : Bytes) (contents : Option Bytes) (d : DaemonState) (job : Hotstring)
    → Stopping job d
    → Stopping job (after_reload path contents d)
unfolding install request_macro_stop
reload-Stopping path contents d job (run, stop) = elim (reload-cases path contents d) [
  | inl e ↦ rw e (run, refl)
  | inr (hotstrings, e) ↦ rw e (run, refl)
]

-- Once a stop is requested while a job runs, the flag stands and the job keeps running until the
-- job ends, whatever keys are pressed, macros submitted and scripts loaded meanwhile: the flag that
-- the job reads is not reset under it.
pub Busy-Stopping :
    {a b : DaemonState} (job : Hotstring) → Stopping job a → Busy a b → Stopping job b
unfolding stop_macro_worker request_macro_stop
Busy-Stopping job s still = s
Busy-Stopping job s (on_input {b = b} ev steps) =
    input-Stopping ev b job (Busy-Stopping job s steps)
Busy-Stopping job s (on_reload {b = b} path contents steps) =
    reload-Stopping path contents b job (Busy-Stopping job s steps)
Busy-Stopping job s (on_take idle steps) =
    absurd (ground (arith, idle, (Busy-Stopping job s steps).0))
Busy-Stopping job s (on_stop steps) = ((Busy-Stopping job s steps).0, refl)
