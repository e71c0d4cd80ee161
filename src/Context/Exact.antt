-- ===== src/Context/Exact.antt =====
-- What `interpolate` of src/commands/IfCommand.cpp makes of an expression of two numbers, by the
-- arithmetic of the integers.
use ahk_unix.Base.{
  true, false, ◌≡◌, refl, sym, ap, ◌∙◌, ◌⊎◌, inl, inr, arith, ok, err, undefined, Bool-cases,
  if◌then◌else◌, ◌&&◌, Bool, ◌>>=◌,
}
use ahk_unix.Base.Int.{
  ℤ, pos, IsInt, ◌+ℤ◌, ◌-ℤ◌, ◌*ℤ◌, quot_ℤ, ◌≤ℤ◌, leb_ℤ, ltb_ℤ, int_min, int_max, long_min, long_max,
  in_range,
}
use ahk_unix.Text.Number.{to_string}
use ahk_unix.Context.{Context}
use ahk_unix.Context.Time.{Clock}
use ahk_unix.Context.Condition.{clamp}
use ahk_unix.Context.Matchers.{Sign, plus, minus, times, over}
use ahk_unix.Context.Interpolate.{checked, apply, calculate, interpolate}
use ahk_unix.Context.Math.{math_text, interpolate-math_text}

-- The value of an expression among all integers; a quotient is rounded towards zero, and is 0 for a
-- divisor of 0.
unfoldable pub exact : Sign → ℤ → ℤ → ℤ
exact plus a b = a +ℤ b
exact minus a b = a -ℤ b
exact times a b = a *ℤ b
exact over a b = if leb_ℤ b (pos 0) && leb_ℤ (pos 0) b then pos 0 else quot_ℤ a b

abbrev pub IsLong : ℤ → Type 0
IsLong v = (long_min ≤ℤ v) × (v ≤ℤ long_max)

-- The int next to a value.
abbrev pub IsNearest : ℤ → ℤ → Type 0
IsNearest v r =
    (IsInt r × (v ≡ r))
    ⊎ (((¬ (r ≤ℤ int_max)) × (v ≡ int_max)) ⊎ ((¬ (int_min ≤ℤ r)) × (v ≡ int_min)))

apply-exact : (op : Sign) (a b : ℤ) → apply op a b ≡ checked (exact op a b)
unfolding apply exact
apply-exact plus a b = refl
apply-exact minus a b = refl
apply-exact times a b = refl
apply-exact over a b = chosen (leb_ℤ b (pos 0) && leb_ℤ (pos 0) b)
  where
    zero_IsLong : checked (pos 0) ≡ ok (pos 0)
    zero_IsLong = unfold checked in refl

    chosen :
        (z : Bool)
        → (if z then ok (pos 0) else checked (quot_ℤ a b))
          ≡ checked (if z then pos 0 else quot_ℤ a b)
    chosen true = sym zero_IsLong
    chosen false = refl

clamp-IsNearest : (r : ℤ) → IsNearest (clamp r) r
unfolding clamp
clamp-IsNearest r = elim (Bool-cases (ltb_ℤ int_max r)) [
  | inl e ↦ inr (inl ((λ h. ground (arith, e, h)), rw e refl))
  | inr e ↦ elim (Bool-cases (ltb_ℤ r int_min)) [
    | inl k ↦ inr (inr ((λ h. ground (arith, k, h)), rw (e, k) refl))
    | inr k ↦ inl ((ground (arith, k), ground (arith, e)), rw (e, k) refl)
  ]
]

-- A value in the range of `long long`, or not.
IsLong-cases :
    (r : ℤ) → (IsLong r × (checked r ≡ ok r)) ⊎ ((¬ (IsLong r)) × (checked r ≡ err undefined))
unfolding checked
IsLong-cases r = elim (Bool-cases (in_range long_min long_max r)) [
  | inl e ↦ inl ((ground (arith, e), ground (arith, e)), rw (e, checked) refl)
  | inr e ↦ inr ((λ h. ground (arith, e, h.0, h.1)), rw (e, checked) refl)
]

-- A text that is an opening parenthesis, a number, one of `+`, `-`, `*` and `/`, a number and a closing
-- parenthesis, with both numbers in the range of `long long`: if the exact value of the expression is in
-- that range, then the text becomes the int nearest to it, which is the value itself if it is an int,
-- and the greatest or the least int if it is above or below all of them; otherwise the `long long`
-- overflows, which is undefined. A division by zero gives 0.
pub interpolate-exact :
    (clock : Clock) (ctx : Context) (op : Sign) (a b : ℤ)
    → IsLong a
    → IsLong b
    → (IsLong (exact op a b)
        × ((v : ℤ) × IsNearest v (exact op a b)
            × (interpolate clock ctx (math_text op a b) ≡ ok (to_string v))))
      ⊎ ((¬ (IsLong (exact op a b))) × (interpolate clock ctx (math_text op a b) ≡ err undefined))
unfolding calculate
interpolate-exact clock ctx op a b h k =
    let r : ℤ = exact op a b in
    elim (IsLong-cases r) [
      | inl (long, e) ↦ inl (
        long,
        (
          clamp r,
          clamp-IsNearest r,
          interpolate-math_text clock ctx op a b h k
              ∙ ap (λ x. x >>= λ s. ok (to_string (clamp s))) (apply-exact op a b ∙ e),
        ),
      )
      | inr (wide, e) ↦ inr (
        wide,
        interpolate-math_text clock ctx op a b h k
            ∙ ap (λ x. x >>= λ s. ok (to_string (clamp s))) (apply-exact op a b ∙ e),
      )
    ]
