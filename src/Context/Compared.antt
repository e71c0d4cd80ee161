-- ===== src/Context/Compared.antt =====
-- What a condition of src/commands/IfCommand.cpp decides, by the order of the integers.
use ahk_unix.Base.{Bool, true, ◌≡◌, arith, Bytes, ok, subst, ◌↔◌, inl, inr, Bool-cases}
use ahk_unix.Base.Int.{ℤ, IsInt, ◌≤ℤ◌, leb_ℤ, eq_of_parts}
use ahk_unix.Context.{Context, get_variable}
use ahk_unix.Context.Condition.{
  Op, equals, differs, greater, less, at_least, at_most, compare_with, evaluate_condition,
}
use ahk_unix.Context.Written.{IsName, condition_text, evaluate_condition-text}

-- The relation that an operator names.
unfoldable pub Holds : Op → ℤ → ℤ → Type 0
Holds equals x v = x ≡ v
Holds differs x v = ¬ (x ≡ v)
Holds greater x v = ¬ (x ≤ℤ v)
Holds less x v = ¬ (v ≤ℤ x)
Holds at_least x v = v ≤ℤ x
Holds at_most x v = x ≤ℤ v

leb_refl : (x v : ℤ) → x ≡ v → (leb_ℤ x v ≡ true) × (leb_ℤ v x ≡ true)
leb_refl x v e = subst (λ y. (leb_ℤ x y ≡ true) × (leb_ℤ y x ≡ true)) e (ground arith, ground arith)

compare_with-Holds : (op : Op) (x v : ℤ) → (compare_with op x v ≡ true) ↔ Holds op x v
unfolding compare_with Holds
compare_with-Holds equals x v =
    ((λ h. eq_of_parts x v (ground (arith, h))), (λ e. ground (arith, leb_refl x v e)))
compare_with-Holds differs x v = (
  (λ h e. ground (arith, h, leb_refl x v e)),
  (λ differ. elim (Bool-cases (compare_with differs x v)) [
    | inl e ↦ e
    | inr e ↦ absurd (differ (eq_of_parts x v (ground (arith, e))))
  ]),
)
compare_with-Holds greater x v = ((λ h k. ground (arith, h, k)), (λ h. ground (arith, h)))
compare_with-Holds less x v = ((λ h k. ground (arith, h, k)), (λ h. ground (arith, h)))
compare_with-Holds at_least x v = ((λ h. ground (arith, h)), (λ h. ground (arith, h)))
compare_with-Holds at_most x v = ((λ h. ground (arith, h)), (λ h. ground (arith, h)))

-- A condition that is written as the name of a variable, a space, one of `=`, `!=`, `>`, `<`, `>=` and
-- `<=`, a space and an int always evaluates, to true exactly if the value of the int variable of that name
-- (0 if there is none) is equal to the int, differs from it, is above, below, not below or not above it,
-- in the order of the integers.
pub evaluate_condition-Holds :
    (draw : ℤ → ℤ → ℤ) (ctx : Context) (name : Bytes) (op : Op) (v : ℤ)
    → IsName name
    → IsInt v
    → (b : Bool) × (evaluate_condition draw ctx (condition_text name op v) ≡ ok b)
      × ((b ≡ true) ↔ Holds op (get_variable ctx name) v)
evaluate_condition-Holds draw ctx name op v h k = (
  compare_with op (get_variable ctx name) v,
  evaluate_condition-text draw ctx name op v h k,
  compare_with-Holds op (get_variable ctx name) v,
)
