-- ===== src/Context/Matchers.antt =====
-- The two regular expressions of `Context::interpolate` (src/commands/IfCommand.cpp).
use ahk_unix.Base.{ℕ, not, ◌||◌, [], ◌∷◌, Option, none, some, if◌then◌else◌, ◌==◌, Bytes, is_empty}
use ahk_unix.Text.Chars.{is_space}
use ahk_unix.Text.Number.{span}
use ahk_unix.Text.Regex.{skip_space, match_char, match_int, ◌>>=◌}

-- `[^%\s]+`
unfoldable pub match_name : Bytes → Option (Bytes × Bytes)
unfolding span is_space
match_name s =
    let (name, rest) = span (λ c. not (c == b'%' || is_space c)) s in
    if is_empty name then none else some (name, rest)

-- `%([^%\s]+)%`: the name and what is behind the match
unfoldable pub match_reference : Bytes → Option (Bytes × Bytes)
unfolding match_char match_name
match_reference text = do
  s ← match_char b'%' text
  (name, s) ← match_name s
  s ← match_char b'%' s
  some (name, s)

pub data Sign : Type 0 where
  plus : Sign
  minus : Sign
  times : Sign
  over : Sign

abbrev pub sign_char : Sign → ℕ
sign_char plus = b'+'
sign_char minus = b'-'
sign_char times = b'*'
sign_char over = b'/'

-- `([+\-*/])`
unfoldable pub match_sign : Bytes → Option (Sign × Bytes)
match_sign [] = none
match_sign (c ∷ s) =
    if c == b'+'
    then some (plus, s)
    else if c == b'-'
    then some (minus, s)
    else if c == b'*'
    then some (times, s)
    else if c == b'/'
    then some (over, s)
    else none

-- `\(\s*(-?\d+)\s*([+\-*/])\s*(-?\d+)\s*\)`: the operands, the operator, and what is behind
unfoldable pub match_math : Bytes → Option (Bytes × Sign × Bytes × Bytes)
unfolding match_char match_int match_sign
match_math text = do
  s ← match_char b'(' text
  (a, s) ← match_int (skip_space s)
  (op, s) ← match_sign (skip_space s)
  (b, s) ← match_int (skip_space s)
  s ← match_char b')' (skip_space s)
  some (a, op, b, s)
