-- ===== src/Context/Math.antt =====
-- What `interpolate` of src/commands/IfCommand.cpp makes of an expression of two numbers.
use ahk_unix.Base.{
  ℕ, suc, ◌-◌, true, false, [], ◌∷◌, ◌++◌, ◌≡◌, refl, ap, ◌∙◌, sym, subst, arith, some, ◌==◌, Bytes,
  Result, ok, err, ◌>>=◌, length, append-nil,
}
use ahk_unix.Base.Int.{ℤ, pos, negsuc, ◌≤ℤ◌, long_min, long_max}
use ahk_unix.Text.Chars.{is_digit, is_space}
use ahk_unix.Text.Trim.{drop_while}
use ahk_unix.Text.Find.{Lacks, Lacks-append}
use ahk_unix.Text.Number.{decimal, to_string, stoll}
use ahk_unix.Text.Decimal.{AllDigits, decimal-AllDigits, sto-to_string}
use ahk_unix.Text.Regex.{skip_space, match_char}
use ahk_unix.Context.{Context}
use ahk_unix.Context.Time.{Clock}
use ahk_unix.Context.Matchers.{Sign, plus, minus, times, over, sign_char, match_sign, match_math}
use ahk_unix.Context.Replace.{Matcher, replace_loop, replace_all}
use ahk_unix.Context.Interpolate.{operand, calculate, math_matcher, math_passes, interpolate}
use ahk_unix.Context.Numbers.{match_int-to_string, skip_space-to_string}
use ahk_unix.Context.Bounds.{calculate-IsInt}
use ahk_unix.Context.Plain.{replace_loop-skip, math_passes-Lacks, after_vars-Lacks}

-- A byte that no printed number holds.
abbrev Foreign : ℕ → Type 0
Foreign c = (is_digit c ≡ false) × ((b'-' == c) ≡ false)

AllDigits-Lacks : (c : ℕ) (s : Bytes) → Foreign c → AllDigits s → Lacks c s
unfolding is_digit
AllDigits-Lacks c [] f h = tt
AllDigits-Lacks c (x ∷ s) f h = (ground (arith, f.0, h.0), AllDigits-Lacks c s f h.1)

to_string-Lacks : (c : ℕ) (v : ℤ) → Foreign c → Lacks c (to_string v)
unfolding to_string
to_string-Lacks c (pos n) f = AllDigits-Lacks c (decimal n) f (decimal-AllDigits n)
to_string-Lacks c (negsuc n) f =
    (f.1, AllDigits-Lacks c (decimal (suc n)) f (decimal-AllDigits (suc n)))

-- `(a op b)`, without spaces
abbrev pub math_text : Sign → ℤ → ℤ → Bytes
math_text op a b = b'(' ∷ (to_string a ++ (sign_char op ∷ (to_string b ++ (b')' ∷ []))))

match_sign-char :
    (op : Sign) (s : Bytes) → match_sign (skip_space (sign_char op ∷ s)) ≡ some (op, s)
unfolding match_sign drop_while is_space
match_sign-char plus s = refl
match_sign-char minus s = refl
match_sign-char times s = refl
match_sign-char over s = refl

sign-not_digit : (op : Sign) → is_digit (sign_char op) ≡ false
unfolding is_digit
sign-not_digit plus = refl
sign-not_digit minus = refl
sign-not_digit times = refl
sign-not_digit over = refl

match_math-text :
    (op : Sign) (a b : ℤ) → match_math (math_text op a b) ≡ some (to_string a, op, to_string b, [])
unfolding match_math match_char drop_while is_space is_digit
match_math-text op a b =
    let close : Bytes = b')' ∷ [] in
    let tail : Bytes = sign_char op ∷ (to_string b ++ close) in
    rw (
      skip_space-to_string a tail,
      match_int-to_string a tail (sign-not_digit op),
      match_sign-char op (to_string b ++ close),
      skip_space-to_string b close,
      match_int-to_string b close refl,
    )

math_matcher-text :
    (op : Sign) (a b : ℤ)
    → (long_min ≤ℤ a) × (a ≤ℤ long_max)
    → (long_min ≤ℤ b) × (b ≤ℤ long_max)
    → math_matcher (math_text op a b) ≡ some (calculate op a b, [])
unfolding math_matcher operand
math_matcher-text op a b h k =
    rw (match_math-text op a b, math_matcher)
      (ap (λ r. some (calculate op (operand r) (operand (stoll (to_string b))), []))
          (sto-to_string long_min long_max a h.0 h.1)
        ∙ ap (λ r. some (calculate op a (operand r), []))
            (sto-to_string long_min long_max b k.0 k.1))

-- The text is one match.
replace_loop-whole :
    (found : Matcher) (c : ℕ) (s : Bytes) (replacement : Result Bytes)
    → found (c ∷ s) ≡ some (replacement, [])
    → replace_loop found 0 (c ∷ s) ≡ (replacement >>= λ text. ok (true, text))
unfolding replace_loop
replace_loop-whole found c s (err e) h = rw (h, replace_loop)
replace_loop-whole found c s (ok text) h =
    rw (h, replace_loop-skip found (length s - 0) s (omega arith), replace_loop)
      (ap (λ t. ok (true, t)) (append-nil text))

math_text-Lacks : (op : Sign) (a b : ℤ) → Lacks b'%' (math_text op a b)
unfolding is_digit
math_text-Lacks op a b = (
  refl,
  Lacks-append b'%' (to_string a) (sign_char op ∷ (to_string b ++ (b')' ∷ [])))
      (to_string-Lacks b'%' a (refl, refl))
      (
        sign-Lacks op,
        Lacks-append b'%' (to_string b) (b')' ∷ []) (to_string-Lacks b'%' b (refl, refl))
            (refl, tt),
      ),
)
  where
    sign-Lacks : (op : Sign) → (sign_char op == b'%') ≡ false
    sign-Lacks plus = refl
    sign-Lacks minus = refl
    sign-Lacks times = refl
    sign-Lacks over = refl

-- The result of an expression holds no expression.
math_passes-result :
    (op : Sign) (a b : ℤ) (r : Result Bytes)
    → calculate op a b ≡ r
    → (r >>= λ text. math_passes 15 text) ≡ r
unfolding is_digit
math_passes-result op a b (err e) h = refl
math_passes-result op a b (ok text) h =
    let (v, _, same) = calculate-IsInt op a b h in
    math_passes-Lacks 14 text (subst (Lacks b'(') (sym same) (to_string-Lacks b'(' v (refl, refl)))

math_passes-found :
    (s : Bytes) (r : Result Bytes)
    → replace_all math_matcher s ≡ (r >>= λ text. ok (true, text))
    → math_passes 16 s ≡ (r >>= λ text. math_passes 15 text)
unfolding math_passes
math_passes-found s (err e) h = rw h
math_passes-found s (ok text) h = rw h

-- An expression of two numbers in the range of `long long` becomes what it evaluates to.
pub interpolate-math_text :
    (clock : Clock) (ctx : Context) (op : Sign) (a b : ℤ)
    → (long_min ≤ℤ a) × (a ≤ℤ long_max)
    → (long_min ≤ℤ b) × (b ≤ℤ long_max)
    → interpolate clock ctx (math_text op a b) ≡ calculate op a b
unfolding replace_all
interpolate-math_text clock ctx op a b h k =
    after_vars-Lacks clock ctx (math_text op a b) (math_text-Lacks op a b)
    ∙ math_passes-found (math_text op a b) (calculate op a b)
        (replace_loop-whole math_matcher b'(' _ (calculate op a b) (math_matcher-text op a b h k))
    ∙ math_passes-result op a b (calculate op a b) refl
