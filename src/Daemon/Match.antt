-- ===== src/Daemon/Match.antt =====
-- `Daemon::find_match`.
use ahk_unix.Base.{
  ℕ, Bool, true, false, ◌&&◌, ◌||◌, not, List, [], ◌∷◌, Option, none, some, if◌then◌else◌, ltb,
  ◌==◌, is_empty, length,
}
use ahk_unix.Keys.{
  key_leftctrl, key_rightctrl, key_leftalt, key_rightalt, key_leftshift, key_rightshift,
  key_leftmeta, key_rightmeta,
}
use ahk_unix.Ring.{RingBuffer, ends_with}
use ahk_unix.Hotstring.{Hotstring}
use ahk_unix.Daemon.{DaemonState}

-- `pressed_keys_.count(key) > 0`
unfoldable pub is_pressed : List ℕ → ℕ → Bool
is_pressed [] key = false
is_pressed (k ∷ pressed) key = k == key || is_pressed pressed key

unfoldable pub counterpart_is_pressed : List ℕ → ℕ → Bool
counterpart_is_pressed pressed required =
    if required == key_leftctrl && is_pressed pressed key_rightctrl
    then true
    else if required == key_rightctrl && is_pressed pressed key_leftctrl
    then true
    else if required == key_leftalt && is_pressed pressed key_rightalt
    then true
    else if required == key_rightalt && is_pressed pressed key_leftalt
    then true
    else if required == key_leftshift && is_pressed pressed key_rightshift
    then true
    else if required == key_rightshift && is_pressed pressed key_leftshift
    then true
    else if required == key_leftmeta && is_pressed pressed key_rightmeta
    then true
    else required == key_rightmeta && is_pressed pressed key_leftmeta

-- The loop over the required modifiers.
unfoldable pub modifiers_match : List ℕ → List ℕ → Bool
modifiers_match pressed [] = true
modifiers_match pressed (required ∷ rest) =
    let later = modifiers_match pressed rest in
    let found =
      if is_pressed pressed required then true else counterpart_is_pressed pressed required in
    if not found then false else later

abbrev pub longer : Hotstring → Option Hotstring → Bool
longer hs none = true
longer hs (some best) = ltb (length best.trigger_keys) (length hs.trigger_keys)

-- One round of the loop over the hotstrings.
unfoldable pub match_step : RingBuffer → List ℕ → Option Hotstring → Hotstring → Option Hotstring
match_step ring pressed best hs =
    if not (ends_with ring hs.trigger_keys)
    then best
    else if not (is_empty hs.trigger_modifiers)
        && not (modifiers_match pressed hs.trigger_modifiers)
    then best
    else if longer hs best
    then some hs
    else best

unfoldable pub match_loop :
    RingBuffer → List ℕ → Option Hotstring → List Hotstring → Option Hotstring
match_loop ring pressed best [] = best
match_loop ring pressed best (hs ∷ rest) =
    match_loop ring pressed (match_step ring pressed best hs) rest

unfoldable pub find_match : DaemonState → Option Hotstring
find_match d = match_loop d.ring d.pressed_keys none d.hotstrings
