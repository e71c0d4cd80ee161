-- ===== src/Daemon/Ringed.antt =====
-- `handle_event` keeps the ring at the keys typed since the last macro.
use ahk_unix.Base.{
  ℕ, Bool, true, false, List, [], ◌∷◌, ◌++◌, Option, none, some, is_some, if◌then◌else◌, ◌==◌, ◌≡◌,
  inl, inr, refl, sym, ap, ◌∙◌, Bool-cases,
}
use ahk_unix.Keys.{ev_key}
use ahk_unix.Ring.{RingBuffer, with_capacity, push, clear}
use ahk_unix.Ring.History.{push_all, seen, capacity-push_all}
use ahk_unix.Hotstring.{Hotstring}
use ahk_unix.Daemon.{RawEvent, DaemonState}
use ahk_unix.Daemon.Match.{find_match}
use ahk_unix.Daemon.Handler.{
  is_interrupt_macro, has_value, track, forward, submit_macro, request_macro_stop, clear_ring,
  act_on, handle_event,
}
use ahk_unix.Daemon.Effect.{tracked, is_press, matched, handle_event-act_on}

-- The keys typed since the last macro: a press that completes a hotstring starts anew.
abbrev pub typed_after : RawEvent → DaemonState → List ℕ → List ℕ
typed_after ev d history =
    if is_press ev then if is_some (matched ev d) then [] else history ++ ev.code ∷ [] else history

push_all-append :
    (xs ys : List ℕ) (r : RingBuffer) → push_all r (xs ++ ys) ≡ push_all (push_all r xs) ys
unfolding push_all
push_all-append [] ys r = refl
push_all-append (x ∷ xs) ys r = push_all-append xs ys (push r x)

push-seen :
    (capacity : ℕ) (history : List ℕ) (k : ℕ)
    → push (seen capacity history) k ≡ seen capacity (history ++ k ∷ [])
unfolding push_all
push-seen capacity history k = sym (push_all-append history (k ∷ []) (with_capacity capacity))

clear-seen : (capacity : ℕ) (history : List ℕ) → clear (seen capacity history) ≡ seen capacity []
unfolding clear push_all
clear-seen capacity history = ap with_capacity (capacity-push_all history (with_capacity capacity))

-- The ring after the first critical section, and after a match.
ring-tracked :
    (ev : RawEvent) (d : DaemonState)
    → (tracked ev d).ring ≡ (if is_press ev then push d.ring ev.code else d.ring)
unfolding track forward
ring-tracked ev d = elim (Bool-cases (ev.type == ev_key)) [
  | inl e ↦ elim (Bool-cases (has_value ev 1)) [ inl v ↦ rw (e, v) refl | inr v ↦ rw (e, v) refl ]
  | inr e ↦ rw e refl
]

ring-act_on :
    (found : Option Hotstring) (d : DaemonState)
    → (act_on found d).ring ≡ (if is_some found then clear d.ring else d.ring)
unfolding act_on clear_ring request_macro_stop submit_macro
ring-act_on none d = refl
ring-act_on (some hs) d = elim (Bool-cases (is_interrupt_macro hs)) [
  | inl i ↦ rw i refl
  | inr i ↦ rw i (kept d.macro_worker_stop)
]
  where
    kept :
        (stopped : Bool)
        → clear (if stopped then d else record d { macro_queue = d.macro_queue ++ hs ∷ [] }).ring
          ≡ clear d.ring
    kept true = refl
    kept false = refl

-- If the ring has seen the keys typed since it was empty, it has seen those typed after the event:
-- a press is one key more, unless it completes a hotstring, which empties the ring; any other event
-- leaves it.
pub handle_event-seen :
    (ev : RawEvent) (d : DaemonState) (capacity : ℕ) (history : List ℕ)
    → d.ring ≡ seen capacity history
    → (handle_event ev d).ring ≡ seen capacity (typed_after ev d history)
handle_event-seen ev d capacity history same =
    let found = matched ev d in
    let pressed : (tracked ev d).ring
        ≡ seen capacity (if is_press ev then history ++ ev.code ∷ [] else history) =
      ring-tracked ev d ∙ pushed (is_press ev) in
    ap (λ s. s.ring) (handle_event-act_on ev d)
    ∙ ring-act_on found (tracked ev d)
    ∙ ap (λ r. if is_some found then clear r else r) pressed
    ∙ cleared (is_some found) (if is_press ev then history ++ ev.code ∷ [] else history)
    ∙ ap (seen capacity) (in_order (is_press ev) (find_match (tracked ev d)))
  where
    pushed :
        (b : Bool)
        → (if b then push d.ring ev.code else d.ring)
          ≡ seen capacity (if b then history ++ ev.code ∷ [] else history)
    pushed true = ap (λ r. push r ev.code) same ∙ push-seen capacity history ev.code
    pushed false = same

    cleared :
        (b : Bool) (typed : List ℕ)
        → (if b then clear (seen capacity typed) else seen capacity typed)
          ≡ seen capacity (if b then [] else typed)
    cleared true typed = clear-seen capacity typed
    cleared false typed = refl

    in_order :
        (b : Bool) (best : Option Hotstring)
        → let found = if b then best else none in
          (if is_some found then [] else (if b then history ++ ev.code ∷ [] else history))
          ≡ (if b then (if is_some found then [] else history ++ ev.code ∷ []) else history)
    in_order true best = refl
    in_order false best = refl
