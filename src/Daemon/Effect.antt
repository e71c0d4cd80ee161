-- ===== src/Daemon/Effect.antt =====
-- What one event does to the queue, the stop flag and the devices.
use ahk_unix.Base.{
  Bool, true, false, not, ◌||◌, List, [], ◌∷◌, ◌++◌, Option, none, some, ◌≡◌, ◌⊎◌, inl, inr, refl,
  ap, ◌∙◌, Bool-cases, if◌then◌else◌, ◌==◌,
}
use ahk_unix.Keys.{ev_key}
use ahk_unix.Ring.{push, clear}
use ahk_unix.Hotstring.{Hotstring}
use ahk_unix.Daemon.{RawEvent, DaemonState}
use ahk_unix.Daemon.Match.{find_match}
use ahk_unix.Daemon.Handler.{
  is_interrupt_macro, has_value, track, forward, submit_macro, request_macro_stop, clear_ring,
  act_on, handle_event,
}

-- The state in which `handle_event` looks for a match.
abbrev pub tracked : RawEvent → DaemonState → DaemonState
tracked ev d = forward ev (track ev d)

abbrev pub is_press : RawEvent → Bool
is_press ev = not (not (ev.type == ev_key) || not (has_value ev 1))

-- The hotstring that an event completes.
abbrev pub matched : RawEvent → DaemonState → Option Hotstring
matched ev d = if is_press ev then find_match (tracked ev d) else none

-- The queue and the stop flag after a match, in terms of those before.
abbrev pub Acted : Option Hotstring → DaemonState → DaemonState → Type 0
Acted found d after =
    ((found ≡ none)
      × (after.macro_queue ≡ d.macro_queue)
      × (after.stop_requested ≡ d.stop_requested))
    ⊎ ((hs : Hotstring) × (found ≡ some hs)
        × (is_interrupt_macro hs ≡ true)
        × (after.macro_queue ≡ [])
        × (after.stop_requested ≡ true))
    ⊎ ((hs : Hotstring) × (found ≡ some hs)
        × (is_interrupt_macro hs ≡ false)
        × (after.macro_queue
            ≡ (if d.macro_worker_stop then d.macro_queue else d.macro_queue ++ hs ∷ []))
        × (after.stop_requested ≡ d.stop_requested))

-- The fields that only the worker, a reload or the shutdown change.
abbrev pub Kept : DaemonState → DaemonState → Type 0
Kept d after =
    (after.running ≡ d.running)
    × (after.macro_worker_stop ≡ d.macro_worker_stop)
    × (after.hotstrings ≡ d.hotstrings)
    × (after.ring.capacity ≡ d.ring.capacity)

pub handle_event-act_on :
    (ev : RawEvent) (d : DaemonState) → handle_event ev d ≡ act_on (matched ev d) (tracked ev d)
unfolding handle_event act_on
handle_event-act_on ev d = elim (Bool-cases (not (ev.type == ev_key) || not (has_value ev 1))) [
  | inl e ↦ rw e refl
  | inr e ↦ rw e refl
]

track-Kept : (ev : RawEvent) (d : DaemonState) → Kept d (tracked ev d)
unfolding track forward push
track-Kept ev d = elim (Bool-cases (ev.type == ev_key)) [
  | inl e ↦ elim (Bool-cases (has_value ev 1)) [
    | inl v ↦ rw (e, v) (refl, refl, refl, refl)
    | inr v ↦ rw (e, v) (refl, refl, refl, refl)
  ]
  | inr e ↦ rw e (refl, refl, refl, refl)
]

-- `submit_macro` changes the queue only.
submit_fields :
    (stopped : Bool) (d : DaemonState) (queue : List Hotstring)
    → let s = if stopped then d else record d { macro_queue = queue } in
      (s.macro_queue ≡ (if stopped then d.macro_queue else queue))
      × (s.stop_requested ≡ d.stop_requested)
      × Kept d s
      × (s.forwarded ≡ d.forwarded)
submit_fields true d queue = (refl, refl, (refl, refl, refl, refl), refl)
submit_fields false d queue = (refl, refl, (refl, refl, refl, refl), refl)

act_on-Acted :
    (found : Option Hotstring) (d : DaemonState)
    → Acted found d (act_on found d)
      × Kept d (act_on found d)
      × ((act_on found d).forwarded ≡ d.forwarded)
unfolding act_on request_macro_stop submit_macro clear_ring clear
act_on-Acted none d = (inl (refl, refl, refl), (refl, refl, refl, refl), refl)
act_on-Acted (some hs) d = elim (Bool-cases (is_interrupt_macro hs)) [
  | inl i ↦ rw i (inr (inl (hs, refl, i, refl, refl)), (refl, refl, refl, refl), refl)
  | inr i ↦
      let (queue, flag, kept, sent) =
        submit_fields d.macro_worker_stop d (d.macro_queue ++ hs ∷ []) in
      rw i (inr (inr (hs, refl, i, queue, flag)), kept, sent)
]

tracked-queue :
    (ev : RawEvent) (d : DaemonState)
    → ((tracked ev d).macro_queue ≡ d.macro_queue)
      × ((tracked ev d).stop_requested ≡ d.stop_requested)
      × ((tracked ev d).forwarded ≡ d.forwarded ++ ev ∷ [])
unfolding track forward
tracked-queue ev d = elim (Bool-cases (ev.type == ev_key)) [
  | inl e ↦ rw e (refl, refl, refl)
  | inr e ↦ rw e (refl, refl, refl)
]

-- An event is forwarded exactly once, behind those before it. If it is no press of a key that
-- completes a trigger, the queue of macros and the stop flag stay. If it completes a hotstring with a
-- `Cancel` command, the queue is emptied and a stop is requested; for any other, the hotstring goes to the end
-- of the queue unless the worker is stopped, and the stop flag stays. The job that runs, the
-- hotstrings and the capacity of the ring stay in each case.
pub handle_event-effect :
    (ev : RawEvent) (d : DaemonState)
    → Acted (matched ev d) d (handle_event ev d)
      × Kept d (handle_event ev d)
      × ((handle_event ev d).forwarded ≡ d.forwarded ++ ev ∷ [])
handle_event-effect ev d =
    let t = tracked ev d in
    let (acted, (running, stopped, hotstrings, capacity), sent) = act_on-Acted (matched ev d) t in
    let (queue, stop, forwarded) = tracked-queue ev d in
    let (running', stopped', hotstrings', capacity') = track-Kept ev d in
    rw (handle_event-act_on ev d) (
      Acted_tracked (act_on (matched ev d) t) acted,
      (running ∙ running', stopped ∙ stopped', hotstrings ∙ hotstrings', capacity ∙ capacity'),
      sent ∙ forwarded,
    )
  where
    Acted_tracked :
        (after : DaemonState)
        → Acted (matched ev d) (tracked ev d) after
        → Acted (matched ev d) d after
    Acted_tracked after (inl (f, q, s)) =
        inl (f, q ∙ (tracked-queue ev d).0, s ∙ (tracked-queue ev d).1)
    Acted_tracked after (inr (inl x)) = inr (inl x)
    Acted_tracked after (inr (inr (hs, f, i, q, s))) = inr (
        inr (
          hs,
          f,
          i,
          q
              ∙ ap
                  (λ b.
                    if b then (tracked ev d).macro_queue else (tracked ev d).macro_queue ++ hs ∷ [])
                  (track-Kept ev d).1
              ∙ ap (λ ms. if d.macro_worker_stop then ms else ms ++ hs ∷ []) (tracked-queue ev d).0,
          s ∙ (tracked-queue ev d).1,
        ))
