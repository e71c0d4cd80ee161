-- ===== src/Context/Condition.antt =====
-- `IfCommand::evaluate_condition` of src/commands/IfCommand.cpp, with its two regular expressions. The
-- parameter `draw` is one call of `std::uniform_int_distribution`.
use ahk_unix.Base.{
  Bool, not, [], ◌∷◌, Option, none, some, if◌then◌else◌, ◌==◌, Bytes, codes, Result, ok, err, throw,
  ◌&&◌,
}
use ahk_unix.Base.Int.{ℤ, pos, int_min, int_max, ltb_ℤ, leb_ℤ}
use ahk_unix.Text.Number.{stoll}
use ahk_unix.Text.Regex.{
  skip_space, match_char, match_icase, match_ident, match_int, match_end, ◌>>=◌,
}
use ahk_unix.Context.{Context, get_variable}

-- `(==|=|!=|>=|<=|>|<)`: the code compares alike for `=` and `==`.
pub data Op : Type 0 where
  equals : Op
  differs : Op
  greater : Op
  less : Op
  at_least : Op
  at_most : Op

-- The operator after its first byte, with or without a `=` behind that.
abbrev with_equals : Op → Op → Bytes → Op × Bytes
with_equals long short [] = (short, [])
with_equals long short (c ∷ s) = if c == b'=' then (long, s) else (short, c ∷ s)

unfoldable pub match_op : Bytes → Option (Op × Bytes)
unfolding match_char
match_op [] = none
match_op (c ∷ s) =
    if c == b'='
    then some (with_equals equals equals s)
    else if c == b'!'
    then (match_char b'=' s >>= λ rest. some (differs, rest))
    else if c == b'>'
    then some (with_equals at_least greater s)
    else if c == b'<'
    then some (with_equals at_most less s)
    else none

-- `\s*(==|=|!=|>=|<=|>|<)\s*(-?\d+)\s*$`
unfoldable pub match_comparison : Bytes → Option (Op × Bytes)
unfolding match_op match_int
match_comparison s = do
  (op, s) ← match_op (skip_space s)
  (number, s) ← match_int (skip_space s)
  match_end (op, number) (skip_space s)

-- `^\s*random\(\s*(-?\d+)\s*,\s*(-?\d+)\s*\)`, in either case of letters, and a comparison
unfoldable pub match_random_condition : Bytes → Option (Bytes × Bytes × Op × Bytes)
unfolding match_icase match_char match_int match_comparison
match_random_condition condition = do
  s ← match_icase (codes "random") (skip_space condition)
  s ← match_char b'(' s
  (lo, s) ← match_int (skip_space s)
  s ← match_char b',' (skip_space s)
  (hi, s) ← match_int (skip_space s)
  s ← match_char b')' (skip_space s)
  (op, number) ← match_comparison s
  some (lo, hi, op, number)

-- `^\s*([A-Za-z_]\w*)` and a comparison
unfoldable pub match_var_condition : Bytes → Option (Bytes × Op × Bytes)
unfolding match_ident match_comparison
match_var_condition condition = do
  (name, s) ← match_ident (skip_space condition)
  (op, number) ← match_comparison s
  some (name, op, number)

unfoldable pub clamp : ℤ → ℤ
clamp v = if ltb_ℤ int_max v then int_max else if ltb_ℤ v int_min then int_min else v

unfoldable pub clamped : Result ℤ → ℤ
unfolding clamp
clamped (ok v) = clamp v
clamped (err e) = pos 0

unfoldable pub safe_stoi : Bytes → ℤ
unfolding clamped
safe_stoi s = clamped (stoll s)

unfoldable pub compare_with : Op → ℤ → ℤ → Bool
compare_with equals value cmp = leb_ℤ value cmp && leb_ℤ cmp value
compare_with differs value cmp = not (leb_ℤ value cmp && leb_ℤ cmp value)
compare_with greater value cmp = ltb_ℤ cmp value
compare_with less value cmp = ltb_ℤ value cmp
compare_with at_least value cmp = leb_ℤ cmp value
compare_with at_most value cmp = leb_ℤ value cmp

-- `random_range` of the two bounds, swapped if they are out of order
unfoldable pub ordered_draw : (ℤ → ℤ → ℤ) → ℤ → ℤ → ℤ
ordered_draw draw min_val max_val =
    if ltb_ℤ max_val min_val then draw max_val min_val else draw min_val max_val

unfoldable pub evaluate_variable : Context → Bytes → Result Bool
unfolding match_var_condition compare_with get_variable safe_stoi
evaluate_variable ctx condition = elim (match_var_condition condition) [
  | some (name, op, number) ↦ ok (compare_with op (get_variable ctx name) (safe_stoi number))
  | none ↦ throw "cannot evaluate condition: " condition
]

-- `evaluate_condition`, for what the first expression has matched
unfoldable pub evaluate_match :
    (ℤ → ℤ → ℤ) → Context → Bytes → Option (Bytes × Bytes × Op × Bytes) → Result Bool
unfolding ordered_draw compare_with safe_stoi evaluate_variable
evaluate_match draw ctx condition (some (lo, hi, op, number)) =
    ok (compare_with op (ordered_draw draw (safe_stoi lo) (safe_stoi hi)) (safe_stoi number))
evaluate_match draw ctx condition none = evaluate_variable ctx condition

unfoldable pub evaluate_condition : (ℤ → ℤ → ℤ) → Context → Bytes → Result Bool
unfolding match_random_condition evaluate_match
evaluate_condition draw ctx condition =
    evaluate_match draw ctx condition (match_random_condition condition)
