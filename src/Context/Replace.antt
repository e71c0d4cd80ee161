-- ===== src/Context/Replace.antt =====
-- The loop over `std::sregex_iterator` in `Context::interpolate`: the matches from left to right, each
-- behind the one before, with the text between them copied.
use ahk_unix.Base.{
  ℕ, zero, suc, ◌-◌, Bool, true, false, [], ◌∷◌, ◌++◌, Option, none, some, Bytes, length, Result,
  ok, ◌>>=◌,
}

-- What stands for the match at the front of a text, and the text behind the match.
abbrev pub Matcher : Type 0
Matcher = Bytes → Option (Result Bytes × Bytes)

-- `skip` bytes of the last match are still to be passed. Whether there was a match, and the new text.
unfoldable pub replace_loop : Matcher → ℕ → Bytes → Result (Bool × Bytes)
replace_loop found skip [] = ok (false, [])
replace_loop found (suc skip) (c ∷ s) = replace_loop found skip s
replace_loop found zero (c ∷ s) = elim (found (c ∷ s)) [
  | none ↦ (replace_loop found zero s >>= λ (any, text). ok (any, c ∷ text))
  | some (replacement, rest) ↦
      (replacement >>= λ text.
      replace_loop found (length s - length rest) s >>= λ (_, more). ok (true, text ++ more))
]

unfoldable pub replace_all : Matcher → Bytes → Result (Bool × Bytes)
unfolding replace_loop
replace_all found s = replace_loop found zero s
