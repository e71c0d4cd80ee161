-- ===== src/Device/Output.antt =====
-- src/UinputKeyboard.cpp: the events that the virtual keyboard writes. The parameter `writes` tells
-- whether the n-th write succeeds; a write that fails is an exception, which ends the call. The waits
-- of `backspace` are left out.
use ahk_unix.Base.{
  ℕ, zero, suc, Bool, true, false, not, List, [], ◌∷◌, ◌++◌, map, reverse, if◌then◌else◌, ◌==◌,
  length,
}
use ahk_unix.Base.Int.{ℤ, pos}
use ahk_unix.Keys.{ev_key, key_backspace}
use ahk_unix.Daemon.{RawEvent}

-- `emit(EV_KEY, code, value)` and `sync()`
pub data Event : Type 0 where
  key : ℕ → ℤ → Event
  syn_report : Event

abbrev pub press : ℕ → Event
press code = key code (pos 1)

abbrev pub release : ℕ → Event
release code = key code (pos 0)

-- The call returns, or throws; the events written stay.
pub data Emitted : Type 0 where
  done : List Event → Emitted
  broken : List Event → Emitted

unfoldable pub and_then : Emitted → (List Event → Emitted) → Emitted
and_then (done events) next = next events
and_then (broken events) next = broken events

-- The events of `hold_combo_and_tap`, in order.
abbrev pub combo : List ℕ → ℕ → List Event
combo modifiers code =
    map press modifiers
    ++ (press code
        ∷ syn_report
        ∷ release code
        ∷ (map release (reverse modifiers) ++ (syn_report ∷ [])))

module _ (writes : ℕ → Bool) where
  unfoldable pub emit : Event → List Event → Emitted
  emit event written = elim (writes (length written)) [
    | true ↦ done (written ++ event ∷ [])
    | false ↦ broken written
  ]

  unfoldable pub emit_all : List Event → List Event → Emitted
  unfolding emit and_then
  emit_all [] written = done written
  emit_all (event ∷ events) written = and_then (emit event written) (emit_all events)

  unfoldable pub tap : ℕ → List Event → Emitted
  unfolding emit_all
  tap code = emit_all (press code ∷ syn_report ∷ release code ∷ syn_report ∷ [])

  unfoldable pub backspace : ℕ → List Event → Emitted
  unfolding tap and_then
  backspace zero written = done written
  backspace (suc count) written = and_then (tap key_backspace written) (backspace count)

  unfoldable pub forward : RawEvent → List Event → Emitted
  unfolding emit_all
  forward ev written =
      if not (ev.type == ev_key)
      then done written
      else emit_all (key ev.code ev.value ∷ syn_report ∷ []) written

  unfoldable pub hold_combo_and_tap : List ℕ → ℕ → List Event → Emitted
  unfolding emit_all
  hold_combo_and_tap modifiers code = emit_all (combo modifiers code)
