-- ===== src/Device/Held.antt =====
-- Which keys of the virtual keyboard are down behind the events of src/UinputKeyboard.cpp.
use ahk_unix.Base.{
  ℕ, zero, Bool, true, false, not, ◌||◌, ◌&&◌, List, [], ◌∷◌, ◌++◌, ◌≡◌, refl, ap, ◌∙◌, sym, inl,
  inr, arith, map, reverse, reverse-cons, if◌then◌else◌, ◌==◌, length, append_assoc, append-nil,
  Bool-cases,
}
use ahk_unix.Base.Int.{pos}
use ahk_unix.Device.Output.{
  Event, key, syn_report, press, release, done, and_then, emit, emit_all, combo, hold_combo_and_tap,
}

-- Whether the key is down behind an event: a release is the value 0.
after_event : ℕ → Bool → Event → Bool
after_event k down (key code (pos zero)) = if code == k then false else down
after_event k down (key code value) = if code == k then true else down
after_event k down syn_report = down

-- Whether the key is down behind the events, if it was `down` before.
unfoldable pub is_down : ℕ → Bool → List Event → Bool
unfolding after_event
is_down k down [] = down
is_down k down (event ∷ events) = is_down k (after_event k down event) events

is_down-append :
    (k : ℕ) (down : Bool) (xs ys : List Event)
    → is_down k down (xs ++ ys) ≡ is_down k (is_down k down xs) ys
unfolding is_down
is_down-append k down [] ys = refl
is_down-append k down (x ∷ xs) ys = is_down-append k (after_event k down x) xs ys

-- What a call that returns has written.
emit_all-done :
    (writes : ℕ → Bool) (events written : List Event) {last : List Event}
    → emit_all writes events written ≡ done last
    → last ≡ written ++ events
unfolding emit_all emit and_then
emit_all-done writes [] written e =
    let same : written ≡ _ = ground (arith, e) in sym same ∙ sym (append-nil written)
emit_all-done writes (event ∷ events) written e = elim (Bool-cases (writes (length written))) [
  | inl k ↦
      emit_all-done writes events (written ++ event ∷ []) (rw (k, emit_all, emit, and_then) at e)
      ∙ append_assoc written (event ∷ []) events
  | inr k ↦ absurd (ground (arith, rw (k, emit_all, emit, and_then) at e))
]

unfoldable pub is_member : ℕ → List ℕ → Bool
is_member k [] = false
is_member k (code ∷ codes) = code == k || is_member k codes

is_member-append :
    (k : ℕ) (xs ys : List ℕ) → is_member k (xs ++ ys) ≡ (is_member k xs || is_member k ys)
unfolding is_member
is_member-append k [] ys = refl
is_member-append k (x ∷ xs) ys = ground (arith, is_member-append k xs ys)

is_member-reverse : (k : ℕ) (xs : List ℕ) → is_member k (reverse xs) ≡ is_member k xs
unfolding is_member
is_member-reverse k [] = refl
is_member-reverse k (x ∷ xs) =
    ap (is_member k) (reverse-cons x xs)
    ∙ is_member-append k (reverse xs) (x ∷ [])
    ∙ ground (arith, is_member-reverse k xs)

is_down-presses :
    (k : ℕ) (down : Bool) (codes : List ℕ)
    → is_down k down (map press codes) ≡ (down || is_member k codes)
unfolding is_down after_event is_member
is_down-presses k down [] = ground arith
is_down-presses k down (c ∷ codes) =
    is_down-presses k (if c == k then true else down) codes ∙ ground arith

is_down-releases :
    (k : ℕ) (down : Bool) (codes : List ℕ)
    → is_down k down (map release codes) ≡ (down && not (is_member k codes))
unfolding is_down after_event is_member
is_down-releases k down [] = ground arith
is_down-releases k down (c ∷ codes) =
    is_down-releases k (if c == k then false else down) codes ∙ ground arith

is_down-combo :
    (k : ℕ) (down : Bool) (modifiers : List ℕ) (code : ℕ)
    → is_down k down (combo modifiers code) ≡ (down && not (code == k || is_member k modifiers))
unfolding is_down after_event
is_down-combo k down modifiers code =
    let pressed = down || is_member k modifiers in
    let ends = map release (reverse modifiers) in
    let tapped = if code == k then false else if code == k then true else pressed in
    is_down-append k down (map press modifiers)
      ((press code ∷ syn_report ∷ release code ∷ []) ++ (ends ++ (syn_report ∷ [])))
    ∙ ap
        (λ b.
          is_down k b
            ((press code ∷ syn_report ∷ release code ∷ []) ++ (ends ++ (syn_report ∷ []))))
        (is_down-presses k down modifiers)
    ∙ is_down-append k tapped ends (syn_report ∷ [])
    ∙ is_down-releases k tapped (reverse modifiers)
    ∙ ap (λ b. tapped && not b) (is_member-reverse k modifiers)
    ∙ settle down (is_member k modifiers) (code == k)
  where
    settle :
        (down held same : Bool)
        → ((if same then false else if same then true else (down || held)) && not held)
          ≡ (down && not (same || held))
    settle true true true = refl
    settle true true false = refl
    settle true false true = refl
    settle true false false = refl
    settle false true true = refl
    settle false true false = refl
    settle false false true = refl
    settle false false false = refl

-- A call of `hold_combo_and_tap` that returns leaves its keys released and the other keys as they were.
pub is_down-hold_combo_and_tap :
    (writes : ℕ → Bool) (modifiers : List ℕ) (code : ℕ) (written : List Event) {last : List Event}
    (k : ℕ)
    → hold_combo_and_tap writes modifiers code written ≡ done last
    → is_down k false last ≡ (is_down k false written && not (code == k || is_member k modifiers))
unfolding hold_combo_and_tap
is_down-hold_combo_and_tap writes modifiers code written k e =
    ap (is_down k false) (emit_all-done writes (combo modifiers code) written e)
    ∙ is_down-append k false written (combo modifiers code)
    ∙ is_down-combo k (is_down k false written) modifiers code
