-- ===== src/Context/Interpolate.antt =====
-- `Context::interpolate` of src/commands/IfCommand.cpp. A `long long` that overflows is the error
-- `undefined`.
use ahk_unix.Base.{
  ℕ, zero, suc, Bool, true, false, none, some, if◌then◌else◌, Bytes, Result, ok, err, undefined,
  ◌>>=◌, ◌&&◌,
}
use ahk_unix.Base.Int.{ℤ, pos, ◌+ℤ◌, ◌-ℤ◌, ◌*ℤ◌, quot_ℤ, leb_ℤ, long_min, long_max, in_range}
use ahk_unix.Text.Number.{stoll, to_string}
use ahk_unix.Context.{Context}
use ahk_unix.Context.Time.{Clock, get_variable_str}
use ahk_unix.Context.Condition.{clamp}
use ahk_unix.Context.Matchers.{match_reference, Sign, plus, minus, times, over, match_math}
use ahk_unix.Context.Replace.{Matcher, replace_all}

unfoldable pub variable_matcher : Clock → Context → Matcher
unfolding match_reference get_variable_str
variable_matcher clock ctx text = elim (match_reference text) [
  | none ↦ none
  | some (name, rest) ↦ some (ok (get_variable_str clock ctx name), rest)
]

-- `try { a = std::stoll(...); } catch (...) { a = 0; }`
unfoldable pub operand : Result ℤ → ℤ
operand (ok v) = v
operand (err e) = pos 0

-- A `long long` result.
unfoldable pub checked : ℤ → Result ℤ
checked v = if in_range long_min long_max v then ok v else err undefined

abbrev is_zero : ℤ → Bool
is_zero v = leb_ℤ v (pos 0) && leb_ℤ (pos 0) v

unfoldable pub apply : Sign → ℤ → ℤ → Result ℤ
unfolding checked
apply plus a b = checked (a +ℤ b)
apply minus a b = checked (a -ℤ b)
apply times a b = checked (a *ℤ b)
apply over a b = if is_zero b then ok (pos 0) else checked (quot_ℤ a b)

-- The text that stands for `(a op b)`.
unfoldable pub calculate : Sign → ℤ → ℤ → Result Bytes
unfolding apply clamp to_string
calculate op a b = do r ← apply op a b; ok (to_string (clamp r))

unfoldable pub math_matcher : Matcher
unfolding match_math calculate operand
math_matcher text = elim (match_math text) [
  | none ↦ none
  | some (a, op, b, rest) ↦ some (calculate op (operand (stoll a)) (operand (stoll b)), rest)
]

-- At most `passes` rounds, and none behind a round without a match.
unfoldable pub math_passes : ℕ → Bytes → Result Bytes
unfolding math_matcher replace_all
math_passes zero current = ok current
math_passes (suc passes) current = replace_all math_matcher current >>= λ (found_any, replaced).
    elim found_any [ true ↦ math_passes passes replaced | false ↦ ok replaced ]

abbrev pub max_passes : ℕ
max_passes = 16

unfoldable pub interpolate : Clock → Context → Bytes → Result Bytes
unfolding variable_matcher replace_all math_passes
interpolate clock ctx input = replace_all (variable_matcher clock ctx) input >>= λ (_, after_vars).
    math_passes max_passes after_vars
