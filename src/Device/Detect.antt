-- ===== src/Device/Detect.antt =====
-- `autodetect_keyboard` of src/KeyboardDetect.cpp, over the lines of /proc/bus/input/devices.
use ahk_unix.Base.{
  Bool, true, false, not, ◌||◌, List, [], ◌∷◌, ◌++◌, Option, none, some, if◌then◌else◌, ◌==◌, any,
  drop, is_some, Bytes, codes, Result, ok, err, throw, sys_error,
}
use ahk_unix.Text.Chars.{starts_with}
use ahk_unix.Text.Find.{find}
use ahk_unix.Text.Number.{span}

-- `s.find(p) != npos`
unfoldable pub contains : Bytes → Bytes → Bool
unfolding find
contains s p = is_some (find p s)

unfoldable pub is_skipped : Bytes → Bool
unfolding contains
is_skipped name = any (contains name) (
    codes "Touchpad"
    ∷ codes "TouchPad"
    ∷ codes "trackpad"
    ∷ codes "Trackpad"
    ∷ codes "Mouse"
    ∷ codes "mouse"
    ∷ codes "Power Button"
    ∷ codes "Sleep Button"
    ∷ [])

-- The word that begins with `event`.
unfoldable pub event_name : Bytes → Option Bytes
unfolding find span
event_name line = elim (find (codes "event") line) [
  | none ↦ none
  | some event_pos ↦ some (span (λ c. not (c == b' ' || c == b'\t')) (drop event_pos line)).0
]

-- The device of a line of handlers, behind the line `name`.
unfoldable pub handler_device : Bytes → Bytes → Option Bytes
unfolding contains is_skipped event_name starts_with
handler_device name line =
    if not (starts_with line (codes "H: Handlers="))
    then none
    else if not (contains line (codes "kbd"))
    then none
    else if is_skipped name
    then none
    else event_name line

unfoldable pub detect_loop : Bytes → List Bytes → Result Bytes
unfolding handler_device starts_with
detect_loop name [] = throw "no keyboard event device found; pass --device /dev/input/eventX" []
detect_loop name (line ∷ lines) = elim (starts_with line (codes "N: Name=")) [
  | true ↦ detect_loop line lines
  | false ↦ elim (handler_device name line) [
    | none ↦ detect_loop name lines
    | some device ↦ ok (codes "/dev/input/" ++ device)
  ]
]

unfoldable pub autodetect_keyboard : Option (List Bytes) → Result Bytes
unfolding detect_loop
autodetect_keyboard none = err (sys_error (codes "open /proc/bus/input/devices"))
autodetect_keyboard (some lines) = detect_loop [] lines
