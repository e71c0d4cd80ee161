-- ===== src/Context/Bounds.antt =====
-- Bounds of the integers of src/commands/IfCommand.cpp, and its maps of variables.
use ahk_unix.Base.{
  Bool, true, false, List, [], ◌∷◌, ◌≡◌, refl, ap, ◌∙◌, inl, inr, arith, Option, none, some, Bytes,
  Bool-cases, Result, ok, err, >>=-eq-ok, sym, if◌then◌else◌,
}
use ahk_unix.Base.Int.{ℤ, IsInt, ◌≤ℤ◌, ltb_ℤ, int_min, int_max, long_min, long_max}
use ahk_unix.Text.Chars.{equal, equal_iff}
use ahk_unix.Text.Number.{stoll, to_string}
use ahk_unix.Text.Decimal.{sto-to_string}
use ahk_unix.Context.{Context, or_zero, lookup, assign, get_variable, set_variable}
use ahk_unix.Context.Condition.{
  Op, evaluate_match, clamp, clamped, safe_stoi, ordered_draw, match_random_condition,
  evaluate_condition, compare_with,
}
use ahk_unix.Context.Matchers.{Sign}
use ahk_unix.Context.Interpolate.{apply, calculate}

pub clamp-IsInt : (v : ℤ) → IsInt (clamp v)
unfolding clamp
clamp-IsInt v = elim (Bool-cases (ltb_ℤ int_max v)) [
  | inl e ↦ rw e (ground arith)
  | inr e ↦ elim (Bool-cases (ltb_ℤ v int_min)) [
    | inl k ↦ rw (e, k) (ground arith)
    | inr k ↦ rw (e, k) (ground (arith, e, k))
  ]
]

clamp-eq : (v : ℤ) → IsInt v → clamp v ≡ v
unfolding clamp
clamp-eq v h = ground (arith, h)

clamped-IsInt : (r : Result ℤ) → IsInt (clamped r)
unfolding clamped
clamped-IsInt (ok v) = clamp-IsInt v
clamped-IsInt (err e) = ground arith

-- Every number of a condition is read as an `int`, whatever its digits.
pub safe_stoi-IsInt : (s : Bytes) → IsInt (safe_stoi s)
unfolding safe_stoi
safe_stoi-IsInt s = clamped-IsInt (stoll s)

-- An `int` that is printed is read back.
pub safe_stoi-to_string : (v : ℤ) → IsInt v → safe_stoi (to_string v) ≡ v
unfolding safe_stoi clamped
safe_stoi-to_string v h =
    ap clamped (sto-to_string long_min long_max v (ground arith) (ground arith)) ∙ clamp-eq v h

-- What an expression in parentheses is replaced by is the text of an `int`.
pub calculate-IsInt :
    (op : Sign) (a b : ℤ) {text : Bytes}
    → calculate op a b ≡ ok text
    → (v : ℤ) × IsInt v × (text ≡ to_string v)
unfolding calculate
calculate-IsInt op a b {text} e =
    let (r, e1, e2) = >>=-eq-ok (apply op a b) (λ r. ok (to_string (clamp r))) e in
    (clamp r, clamp-IsInt r, cc)

-- The bounds of `random_range` are in order.
ordered_draw-cong :
    (draw other : ℤ → ℤ → ℤ) (a b : ℤ)
    → ((lo hi : ℤ) → IsInt lo → IsInt hi → lo ≤ℤ hi → draw lo hi ≡ other lo hi)
    → IsInt a
    → IsInt b
    → ordered_draw draw a b ≡ ordered_draw other a b
unfolding ordered_draw
ordered_draw-cong draw other a b same h k = elim (Bool-cases (ltb_ℤ b a)) [
  | inl e ↦ rw e (same b a k h (ground (arith, e)))
  | inr e ↦ rw e (same a b h k (ground (arith, e)))
]

evaluate_match-cong :
    (draw other : ℤ → ℤ → ℤ) (ctx : Context) (condition : Bytes)
    (matched : Option (Bytes × Bytes × Op × Bytes))
    → ((lo hi : ℤ) → IsInt lo → IsInt hi → lo ≤ℤ hi → draw lo hi ≡ other lo hi)
    → evaluate_match draw ctx condition matched ≡ evaluate_match other ctx condition matched
unfolding evaluate_match
evaluate_match-cong draw other ctx condition none same = refl
evaluate_match-cong draw other ctx condition (some (lo, hi, op, number)) same =
    ap (λ v. ok (compare_with op v (safe_stoi number)))
      (ordered_draw-cong draw other (safe_stoi lo) (safe_stoi hi) same (safe_stoi-IsInt lo)
        (safe_stoi-IsInt hi))

-- A condition draws random numbers only between two ints in order: draws that agree on those give the
-- same result.
pub evaluate_condition-cong :
    (draw other : ℤ → ℤ → ℤ) (ctx : Context) (condition : Bytes)
    → ((lo hi : ℤ) → IsInt lo → IsInt hi → lo ≤ℤ hi → draw lo hi ≡ other lo hi)
    → evaluate_condition draw ctx condition ≡ evaluate_condition other ctx condition
unfolding evaluate_condition
evaluate_condition-cong draw other ctx condition same =
    evaluate_match-cong draw other ctx condition (match_random_condition condition) same

lookup-assign {ℓ} :
    {A : Type ℓ} (entries : List (Bytes × A)) (name other : Bytes) (value : A)
    → lookup other (assign name value entries)
      ≡ (if equal other name then some value else lookup other entries)
unfolding lookup assign
lookup-assign [] name other value = elim (Bool-cases (equal other name)) [
  | inl e ↦ rw (e, lookup)
  | inr e ↦ rw (e, lookup)
]
lookup-assign ((key, old) ∷ entries) name other value = elim (Bool-cases (equal name key)) [
  | inl e ↦
      let same : name ≡ key = (equal_iff name key).0 e in
      elim (Bool-cases (equal other key)) [
        | inl k ↦ rw (e, k, same, lookup, assign) (rw k)
        | inr k ↦ rw (e, k, same, lookup, assign) (rw k)
      ]
  | inr e ↦ elim (Bool-cases (equal other key)) [
    | inl k ↦
        let found : other ≡ key = (equal_iff other key).0 k in
        elim (Bool-cases (equal other name)) [
          | inl m ↦
              let clash = (equal_iff name key).1 (sym ((equal_iff other name).0 m) ∙ found) in
              absurd (ground (arith, clash, e))
          | inr m ↦ rw (e, m, lookup, assign) (rw (k, lookup))
        ]
    | inr k ↦ rw (e, k, lookup, assign) (lookup-assign entries name other value)
  ]
]

or_zero-if :
    (b : Bool) (value : ℤ) (old : Option ℤ)
    → or_zero (if b then some value else old) ≡ (if b then value else or_zero old)
or_zero-if true value old = refl
or_zero-if false value old = refl

-- A variable that has been set is read back, and the others keep their values.
pub get_variable-set_variable :
    (ctx : Context) (name other : Bytes) (value : ℤ)
    → get_variable (set_variable name value ctx) other
      ≡ (if equal other name then value else get_variable ctx other)
unfolding get_variable set_variable
get_variable-set_variable ctx name other value =
    ap or_zero (lookup-assign ctx.variables name other value)
    ∙ or_zero-if (equal other name) value (lookup other ctx.variables)
