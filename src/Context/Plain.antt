-- ===== src/Context/Plain.antt =====
-- What `interpolate` of src/commands/IfCommand.cpp makes of a text without references and expressions.
use ahk_unix.Base.{
  ℕ, zero, suc, ◌≤◌, false, [], ◌∷◌, ◌≡◌, refl, ◌∙◌, arith, none, ◌==◌, Bytes, ok, length,
}
use ahk_unix.Text.Find.{Lacks}
use ahk_unix.Text.Regex.{match_char}
use ahk_unix.Context.{Context}
use ahk_unix.Context.Time.{Clock}
use ahk_unix.Context.Matchers.{match_reference, match_math}
use ahk_unix.Context.Replace.{Matcher, replace_loop, replace_all}
use ahk_unix.Context.Interpolate.{
  variable_matcher, math_matcher, math_passes, max_passes, interpolate,
}

-- Without the byte that each match begins with there is no match.
replace_loop-Lacks :
    (found : Matcher) (first : ℕ)
    → ((c : ℕ) (s : Bytes) → (c == first) ≡ false → found (c ∷ s) ≡ none)
    → (s : Bytes) → Lacks first s
    → replace_loop found 0 s ≡ ok (false, s)
unfolding replace_loop
replace_loop-Lacks found first only [] h = refl
replace_loop-Lacks found first only (c ∷ s) h =
    rw (only c s h.0, replace_loop-Lacks found first only s h.1, replace_loop)

pub replace_loop-skip :
    (found : Matcher) (skip : ℕ) (s : Bytes)
    → length s ≤ skip
    → replace_loop found skip s ≡ ok (false, [])
unfolding replace_loop
replace_loop-skip found skip [] h = refl
replace_loop-skip found zero (c ∷ s) h = absurd (omega arith)
replace_loop-skip found (suc skip) (c ∷ s) h = replace_loop-skip found skip s (omega (arith, h))

variable_matcher-none :
    (clock : Clock) (ctx : Context) (c : ℕ) (s : Bytes)
    → (c == b'%') ≡ false
    → variable_matcher clock ctx (c ∷ s) ≡ none
unfolding variable_matcher match_reference match_char
variable_matcher-none clock ctx c s h = rw (h, match_char, variable_matcher)

pub math_matcher-none : (c : ℕ) (s : Bytes) → (c == b'(') ≡ false → math_matcher (c ∷ s) ≡ none
unfolding math_matcher match_math match_char
math_matcher-none c s h = rw (h, match_char, math_matcher)

pub math_passes-Lacks : (passes : ℕ) (s : Bytes) → Lacks b'(' s → math_passes (suc passes) s ≡ ok s
unfolding math_passes replace_all
math_passes-Lacks passes s h = rw (replace_loop-Lacks math_matcher b'(' math_matcher-none s h)

pub after_vars-Lacks :
    (clock : Clock) (ctx : Context) (s : Bytes)
    → Lacks b'%' s
    → interpolate clock ctx s ≡ math_passes max_passes s
unfolding interpolate replace_all
after_vars-Lacks clock ctx s h =
    rw (replace_loop-Lacks (variable_matcher clock ctx) b'%' (variable_matcher-none clock ctx) s h)

-- A text without a percent sign and without a parenthesis stays as it is.
pub interpolate-Lacks :
    (clock : Clock) (ctx : Context) (s : Bytes)
    → Lacks b'%' s
    → Lacks b'(' s
    → interpolate clock ctx s ≡ ok s
interpolate-Lacks clock ctx s h k = after_vars-Lacks clock ctx s h ∙ math_passes-Lacks 15 s k
