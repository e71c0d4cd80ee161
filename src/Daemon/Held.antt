-- ===== src/Daemon/Held.antt =====
-- The modifiers that the daemon takes for held.
use ahk_unix.Base.{
  ℕ, Bool, true, false, ◌&&◌, List, [], ◌∷◌, if◌then◌else◌, ◌==◌, ◌≡◌, inl, inr, refl, arith,
  Bool-cases,
}
use ahk_unix.Daemon.{RawEvent}
use ahk_unix.Daemon.Match.{is_pressed}
use ahk_unix.Daemon.Handler.{has_value, is_modifier, insert, erase, track_modifiers}

is_pressed-insert :
    (pressed : List ℕ) (k j : ℕ)
    → is_pressed (insert pressed k) j ≡ (if k == j then true else is_pressed pressed j)
unfolding is_pressed
is_pressed-insert pressed k j = elim (Bool-cases (is_pressed pressed k)) [
  | inl e ↦ ground (arith, e)
  | inr e ↦ ground (arith, e)
]

is_pressed-erase :
    (pressed : List ℕ) (k j : ℕ)
    → is_pressed (erase pressed k) j ≡ (if k == j then false else is_pressed pressed j)
unfolding is_pressed erase
is_pressed-erase [] k j = ground arith
is_pressed-erase (x ∷ pressed) k j = ground (arith, is_pressed-erase pressed k j)

-- After an event, a key counts as held if it is the modifier that the event presses, and not if it
-- is the one that it releases; the repeat of a key and other keys change nothing.
pub is_pressed-track_modifiers :
    (ev : RawEvent) (pressed : List ℕ) (key : ℕ)
    → is_pressed (track_modifiers ev pressed) key ≡ (
        if is_modifier ev.code && ev.code == key
        then if has_value ev 1
          then true
          else if has_value ev 0
          then false
          else is_pressed pressed key
        else is_pressed pressed key)
unfolding track_modifiers
is_pressed-track_modifiers ev pressed key =
    let inserted = is_pressed-insert pressed ev.code key in
    let removed = is_pressed-erase pressed ev.code key in
    elim (Bool-cases (is_modifier ev.code)) [
      | inr m ↦ rw m refl
      | inl m ↦ elim (Bool-cases (has_value ev 1)) [
        | inl p ↦ rw (m, p) inserted
        | inr p ↦ elim (Bool-cases (has_value ev 0)) [
          | inl q ↦ rw (m, p, q) removed
          | inr q ↦ rw (m, p, q) (same (ev.code == key) (is_pressed pressed key))
        ]
      ]
    ]
  where
    same : (b c : Bool) → c ≡ (if b then c else c)
    same true c = refl
    same false c = refl
