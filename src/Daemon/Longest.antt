-- ===== src/Daemon/Longest.antt =====
-- `find_match` finds the longest trigger, the first of the longest ones.
use ahk_unix.Base.{
  ℕ, ◌≤◌, ◌<◌, Bool, true, false, ◌&&◌, not, if◌then◌else◌, List, [], ◌∷◌, ◌++◌, Option, none, some,
  ◌≡◌, ◌⊎◌, inl, inr, refl, sym, ap, subst, ◌∙◌, arith, Bool-cases, ltb, is_empty, length,
}
use ahk_unix.Ring.{RingBuffer, ends_with}
use ahk_unix.Hotstring.{Hotstring}
use ahk_unix.Daemon.{DaemonState}
use ahk_unix.Daemon.Match.{modifiers_match, longer, match_step, match_loop, find_match}

pub data In {ℓ} {A : Type ℓ} (x : A) : List A → Type ℓ where
  here : {xs : List A} → In x (x ∷ xs)
  there : {y : A} {xs : List A} → In x xs → In x (y ∷ xs)

-- The keys typed end with the trigger, and its modifiers are held.
abbrev pub fires : RingBuffer → List ℕ → Hotstring → Bool
fires ring pressed hs =
    ends_with ring hs.trigger_keys && modifiers_match pressed hs.trigger_modifiers

abbrev pub size : Hotstring → ℕ
size hs = length hs.trigger_keys

-- No hotstring of the list fires with a trigger longer than `n`, or of `n` keys or more.
abbrev pub NoneAbove : RingBuffer → List ℕ → ℕ → List Hotstring → Type 0
NoneAbove ring pressed n hotstrings =
    (hs : Hotstring) → In hs hotstrings → fires ring pressed hs ≡ true → size hs ≤ n

abbrev pub NoneFrom : RingBuffer → List ℕ → ℕ → List Hotstring → Type 0
NoneFrom ring pressed n hotstrings =
    (hs : Hotstring) → In hs hotstrings → fires ring pressed hs ≡ true → size hs < n

-- The guard on the modifiers can be dropped: none required, none missing.
modifiers_guard :
    (pressed mods : List ℕ)
    → (not (is_empty mods) && not (modifiers_match pressed mods))
      ≡ not (modifiers_match pressed mods)
unfolding modifiers_match
modifiers_guard pressed [] = refl
modifiers_guard pressed (m ∷ mods) = refl

match_step-fires :
    (ring : RingBuffer) (pressed : List ℕ) (best : Option Hotstring) (hs : Hotstring)
    → match_step ring pressed best hs
      ≡ (if fires ring pressed hs then (if longer hs best then some hs else best) else best)
unfolding match_step
match_step-fires ring pressed best hs = elim (Bool-cases (ends_with ring hs.trigger_keys)) [
  | inl e ↦ elim (Bool-cases (modifiers_match pressed hs.trigger_modifiers)) [
    | inl m ↦ rw (e, modifiers_guard pressed hs.trigger_modifiers, m) refl
    | inr m ↦ rw (e, modifiers_guard pressed hs.trigger_modifiers, m) refl
  ]
  | inr e ↦ rw e refl
]

match_step-cases :
    (ring : RingBuffer) (pressed : List ℕ) (best : Option Hotstring) (hs : Hotstring)
    → ((fires ring pressed hs ≡ false) × (match_step ring pressed best hs ≡ best))
      ⊎ ((fires ring pressed hs ≡ true)
          × (match_step ring pressed best hs ≡ some hs)
          × ((b : Hotstring) → best ≡ some b → size b < size hs))
      ⊎ ((b : Hotstring) × (best ≡ some b)
          × (size hs ≤ size b)
          × (match_step ring pressed best hs ≡ best))
match_step-cases ring pressed none hs = elim (Bool-cases (fires ring pressed hs)) [
  | inl f ↦ inr (
      inl (f, match_step-fires ring pressed none hs ∙ rw f refl, λ b e. absurd (ground (arith, e))))
  | inr f ↦ inl (f, match_step-fires ring pressed none hs ∙ rw f refl)
]
match_step-cases ring pressed (some best) hs =
    let step = match_step-fires ring pressed (some best) hs in
    elim (Bool-cases (fires ring pressed hs)) [
      | inl f ↦ elim (Bool-cases (ltb (size best) (size hs))) [
        | inl l ↦ inr (inl (f, step ∙ rw (f, l) refl, λ b e. ground (arith, e, l)))
        | inr l ↦ inr (inr (best, refl, ground (arith, l), step ∙ rw (f, l) refl))
      ]
      | inr f ↦ inl (f, step ∙ rw f refl)
    ]

-- The winner `hs` of the loop: the one before the loop, or one of the list.
abbrev Won : RingBuffer → List ℕ → Option Hotstring → List Hotstring → Hotstring → Type 0
Won ring pressed best hotstrings hs =
    ((best ≡ some hs) × NoneAbove ring pressed (size hs) hotstrings)
    ⊎ ((before after : List Hotstring) × (hotstrings ≡ before ++ hs ∷ after)
        × (fires ring pressed hs ≡ true)
        × NoneFrom ring pressed (size hs) before
        × NoneAbove ring pressed (size hs) after
        × ((b : Hotstring) → best ≡ some b → size b < size hs))

NoneAbove-cons :
    (ring : RingBuffer) (pressed : List ℕ) {n : ℕ} {h : Hotstring} {rest : List Hotstring}
    → (fires ring pressed h ≡ true → size h ≤ n)
    → NoneAbove ring pressed n rest
    → NoneAbove ring pressed n (h ∷ rest)
NoneAbove-cons ring pressed first others _ here = first
NoneAbove-cons ring pressed first others hs (there i) = others hs i

NoneFrom-cons :
    (ring : RingBuffer) (pressed : List ℕ) {n : ℕ} {h : Hotstring} {rest : List Hotstring}
    → (fires ring pressed h ≡ true → size h < n)
    → NoneFrom ring pressed n rest
    → NoneFrom ring pressed n (h ∷ rest)
NoneFrom-cons ring pressed first others _ here = first
NoneFrom-cons ring pressed first others hs (there i) = others hs i

-- A later winner, when the first hotstring is no longer than it.
later-Won :
    (ring : RingBuffer) (pressed : List ℕ) {best next : Option Hotstring} {h hs : Hotstring}
    {rest : List Hotstring}
    → ((size h < size hs) ⊎ (fires ring pressed h ≡ false))
    → ((b : Hotstring) → best ≡ some b → size b < size hs)
    → (before after : List Hotstring) × (rest ≡ before ++ hs ∷ after)
      × (fires ring pressed hs ≡ true)
      × NoneFrom ring pressed (size hs) before
      × NoneAbove ring pressed (size hs) after
      × ((b : Hotstring) → next ≡ some b → size b < size hs)
    → Won ring pressed best (h ∷ rest) hs
later-Won ring pressed {h = h} small shorter (before, after, e, f, from, above, _) = inr (
  h ∷ before,
  after,
  ap (◌∷◌ h) e,
  f,
  NoneFrom-cons _ _ (λ fired. small_if small fired) from,
  above,
  shorter,
)
  where
    small_if : {m n : ℕ} {b : Bool} → (m < n) ⊎ (b ≡ false) → b ≡ true → m < n
    small_if (inl l) t = l
    small_if (inr f) t = absurd (ground (arith, f, t))

round-Won :
    (ring : RingBuffer) (pressed : List ℕ) (best : Option Hotstring) (h hs : Hotstring)
    (rest : List Hotstring)
    → Won ring pressed (match_step ring pressed best h) rest hs
    → Won ring pressed best (h ∷ rest) hs
round-Won ring pressed best h hs rest (inl (kept, above)) =
    elim (match_step-cases ring pressed best h) [
      | inl (quiet, same) ↦
          inl (sym same ∙ kept, NoneAbove-cons _ _ (λ f. absurd (ground (arith, f, quiet))) above)
      | inr (inl (fired, taken, shorter)) ↦
          let it : h ≡ hs = ground (arith, taken, kept) in
          inr (
            [],
            rest,
            ap (λ x. x ∷ rest) it,
            subst (λ x. fires ring pressed x ≡ true) it fired,
            (λ x i. elim i [ ]),
            above,
            subst (λ x. (b : Hotstring) → best ≡ some b → size b < size x) it shorter,
          )
      | inr (inr (b, was, small, same)) ↦
          let it : b ≡ hs = ground (arith, was, same, kept) in
          inl
            (sym same ∙ kept, NoneAbove-cons _ _ (λ _. subst (λ x. size h ≤ size x) it small) above)
    ]
round-Won ring pressed best h hs rest (inr (before, after, e, f, from, above, over)) =
    elim (match_step-cases ring pressed best h) [
      | inl (quiet, same) ↦
          later-Won ring pressed (inr quiet) (λ b e. over b (same ∙ e))
            (before, after, e, f, from, above, over)
      | inr (inl (fired, taken, shorter)) ↦
          let small = over h taken in
          later-Won ring pressed (inl small) (λ b e. omega (arith, shorter b e, small))
            (before, after, e, f, from, above, over)
      | inr (inr (b, was, small, same)) ↦
          let large = over b (same ∙ was) in
          later-Won ring pressed (inl (omega (arith, small, large))) (λ b' e. over b' (same ∙ e))
            (before, after, e, f, from, above, over)
    ]

match_loop-Won :
    (hotstrings : List Hotstring) (ring : RingBuffer) (pressed : List ℕ) (best : Option Hotstring)
    (hs : Hotstring)
    → match_loop ring pressed best hotstrings ≡ some hs
    → Won ring pressed best hotstrings hs
unfolding match_loop
match_loop-Won [] ring pressed best hs e = inl (e, λ h i. elim i [ ])
match_loop-Won (h ∷ rest) ring pressed best hs e =
    round-Won ring pressed best h hs rest
      (match_loop-Won rest ring pressed (match_step ring pressed best h) hs e)

match_loop-none :
    (hotstrings : List Hotstring) (ring : RingBuffer) (pressed : List ℕ) (best : Option Hotstring)
    → match_loop ring pressed best hotstrings ≡ none
    → (best ≡ none) × ((hs : Hotstring) → In hs hotstrings → fires ring pressed hs ≡ false)
unfolding match_loop
match_loop-none [] ring pressed best e = (e, λ h i. elim i [ ])
match_loop-none (h ∷ rest) ring pressed best e =
    let (none_left, quiet) = match_loop-none rest ring pressed (match_step ring pressed best h) e in
    elim (match_step-cases ring pressed best h) [
      | inl (quiet_too, same) ↦ (sym same ∙ none_left, In-cons quiet_too quiet)
      | inr (inl (fired, taken, shorter)) ↦ absurd (ground (arith, taken, none_left))
      | inr (inr (b, was, small, same)) ↦ absurd (ground (arith, was, same, none_left))
    ]
  where
    In-cons :
        {p : Hotstring → Bool} {h : Hotstring} {rest : List Hotstring}
        → p h ≡ false
        → ((hs : Hotstring) → In hs rest → p hs ≡ false)
        → (hs : Hotstring) → In hs (h ∷ rest)
        → p hs ≡ false
    In-cons first others _ here = first
    In-cons first others hs (there i) = others hs i

-- A hotstring fires when the keys typed end with its trigger and its modifiers are held. What
-- `find_match` returns is a hotstring of the list that fires; those before it that fire have shorter
-- triggers, and those behind it that fire have triggers that are not longer.
pub find_match-longest :
    (d : DaemonState) (hs : Hotstring)
    → find_match d ≡ some hs
    → (before after : List Hotstring) × (d.hotstrings ≡ before ++ hs ∷ after)
      × (fires d.ring d.pressed_keys hs ≡ true)
      × NoneFrom d.ring d.pressed_keys (size hs) before
      × NoneAbove d.ring d.pressed_keys (size hs) after
unfolding find_match
find_match-longest d hs e = elim (match_loop-Won d.hotstrings d.ring d.pressed_keys none hs e) [
  | inl (e', _) ↦ absurd (ground (arith, e'))
  | inr (before, after, split, f, from, above, _) ↦ (before, after, split, f, from, above)
]

-- If `find_match` returns none, no hotstring of the list fires.
pub find_match-none :
    (d : DaemonState) (hs : Hotstring)
    → find_match d ≡ none
    → In hs d.hotstrings
    → fires d.ring d.pressed_keys hs ≡ false
unfolding find_match
find_match-none d hs e = (match_loop-none d.hotstrings d.ring d.pressed_keys none e).1 hs
