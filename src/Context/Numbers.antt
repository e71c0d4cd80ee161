-- ===== src/Context/Numbers.antt =====
-- What the matchers of src/commands/IfCommand.cpp take of a number that `std::to_string` has printed.
use ahk_unix.Base.{
  ℕ, suc, Bool, true, false, [], ◌∷◌, ◌++◌, ◌≡◌, refl, arith, some, Bytes, is_empty, ◌==◌,
}
use ahk_unix.Base.Int.{ℤ, pos, negsuc}
use ahk_unix.Text.Chars.{is_space, is_digit}
use ahk_unix.Text.Trim.{drop_while}
use ahk_unix.Text.Number.{span, decimal, to_string}
use ahk_unix.Text.Decimal.{AllDigits, decimal-AllDigits, is_empty-decimal}
use ahk_unix.Text.Regex.{skip_space, match_digits, match_int}

-- The text does not begin with a byte of the class.
abbrev pub Stops : (ℕ → Bool) → Bytes → Type 0
Stops p [] = Unit
Stops p (c ∷ s) = p c ≡ false

abbrev pub AllOf : (ℕ → Bool) → Bytes → Type 0
AllOf p [] = Unit
AllOf p (c ∷ s) = (p c ≡ true) × AllOf p s

pub span-AllOf :
    (p : ℕ → Bool) (s rest : Bytes) → AllOf p s → Stops p rest → span p (s ++ rest) ≡ (s, rest)
unfolding span
span-AllOf p [] [] h k = refl
span-AllOf p [] (c ∷ rest) h k = rw (k, span)
span-AllOf p (c ∷ s) rest h k = rw (h.0, span-AllOf p s rest h.1 k, span)

AllDigits→AllOf : (s : Bytes) → AllDigits s → AllOf is_digit s
AllDigits→AllOf [] h = tt
AllDigits→AllOf (c ∷ s) h = (h.0, AllDigits→AllOf s h.1)

match_digits-AllOf :
    (s rest : Bytes)
    → AllOf is_digit s
    → is_empty s ≡ false
    → Stops is_digit rest
    → match_digits (s ++ rest) ≡ some (s, rest)
unfolding match_digits
match_digits-AllOf s rest h e k = rw (span-AllOf is_digit s rest h k, e, match_digits)

match_int-AllOf :
    (s rest : Bytes)
    → AllOf is_digit s
    → is_empty s ≡ false
    → Stops is_digit rest
    → match_int (s ++ rest) ≡ some (s, rest)
unfolding match_int is_digit
match_int-AllOf [] rest h e k = absurd (ground (arith, e))
match_int-AllOf (c ∷ s) rest h e k =
    let first : (c == b'-') ≡ false = ground (arith, h.0) in
    rw (first, match_int) (match_digits-AllOf (c ∷ s) rest h e k)

pub match_int-to_string :
    (v : ℤ) (rest : Bytes)
    → Stops is_digit rest
    → match_int (to_string v ++ rest) ≡ some (to_string v, rest)
unfolding to_string match_int
match_int-to_string (pos n) rest k =
    match_int-AllOf (decimal n) rest (AllDigits→AllOf _ (decimal-AllDigits n)) (is_empty-decimal n)
      k
match_int-to_string (negsuc n) rest k = rw (
  match_digits-AllOf (decimal (suc n)) rest (AllDigits→AllOf _ (decimal-AllDigits (suc n)))
      (is_empty-decimal (suc n)) k,
  match_int,
)

skip_space-AllOf :
    (s rest : Bytes) → AllOf is_digit s → is_empty s ≡ false → skip_space (s ++ rest) ≡ s ++ rest
unfolding drop_while is_space is_digit
skip_space-AllOf [] rest h e = absurd (ground (arith, e))
skip_space-AllOf (c ∷ s) rest h e = ground (arith, h.0)

pub skip_space-to_string :
    (v : ℤ) (rest : Bytes) → skip_space (to_string v ++ rest) ≡ to_string v ++ rest
unfolding to_string drop_while is_space
skip_space-to_string (pos n) rest =
    skip_space-AllOf (decimal n) rest (AllDigits→AllOf _ (decimal-AllDigits n)) (is_empty-decimal n)
skip_space-to_string (negsuc n) rest = refl
