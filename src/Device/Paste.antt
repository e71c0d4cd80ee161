-- ===== src/Device/Paste.antt =====
-- `Clipboard::paste_text_synchronously` of src/Clipboard.cpp, and what becomes of the clipboard.
use ahk_unix.Base.{ℕ, Bool, List, [], ◌∷◌, ◌≡◌, ap, ◌∙◌, Bytes, ok, err}
use ahk_unix.Keys.{key_leftctrl, key_v}
use ahk_unix.Device.Output.{Event, Emitted, done, broken, hold_combo_and_tap}
use ahk_unix.Device.Backend.{System, set_text, get_text}

-- The call returns, or throws, with the state and the events behind it.
pub data Pasted (State : Type 0) : Type 0 where
  pasted : State → List Event → Pasted State
  failed : State → List Event → Pasted State

abbrev pub state_of : {State : Type 0} → Pasted State → State
state_of (pasted state events) = state
state_of (failed state events) = state

module _ {State : Type 0} (system : System State) (writes : ℕ → Bool) where
  -- `set_text(old_clipboard)` behind the combo: the state is kept when it throws.
  unfoldable pub restore : Bytes → State → State
  unfolding set_text
  restore old state = elim (set_text system old state) [ ok next ↦ next | err e ↦ state ]

  unfoldable pub finish : Bytes → State → Emitted → Pasted State
  unfolding restore set_text
  finish old state (broken events) = failed (restore old state) events
  finish old state (done events) = elim (set_text system old state) [
    | ok next ↦ pasted next events
    | err e ↦ failed state events
  ]

  unfoldable pub paste_text_synchronously : Bytes → State → List Event → Pasted State
  unfolding get_text set_text finish hold_combo_and_tap
  paste_text_synchronously text state written = elim (set_text system text state) [
    | ok next ↦
        finish (get_text system state) next
          (hold_combo_and_tap writes (key_leftctrl ∷ []) key_v written)
    | err e ↦ failed state written
  ]

  finish-restores :
      (old : Bytes) (state last : State) (emitted : Emitted)
      → set_text system old state ≡ ok last
      → state_of (finish old state emitted) ≡ last
  unfolding finish restore
  finish-restores old state last (broken events) h = rw (h, finish, restore)
  finish-restores old state last (done events) h = rw (h, finish)

  -- A paste puts the old text back, whether the keys can be sent or not: when the two writes to the
  -- clipboard succeed and the clipboard gives back what was last written, it holds what it held.
  pub get_text-paste_text :
      (text : Bytes) (state middle last : State) (written : List Event)
      → ((t : Bytes) (s r : State) → set_text system t s ≡ ok r → get_text system r ≡ t)
      → set_text system text state ≡ ok middle
      → set_text system (get_text system state) middle ≡ ok last
      → get_text system (state_of (paste_text_synchronously text state written))
        ≡ get_text system state
  unfolding paste_text_synchronously
  get_text-paste_text text state middle last written reads h k =
      rw (h, paste_text_synchronously)
        (ap (get_text system) (
            finish-restores (get_text system state) middle last
              (hold_combo_and_tap writes (key_leftctrl ∷ []) key_v written) k)
          ∙ reads (get_text system state) middle last k)
