-- ===== src/Text/Regex.antt =====
-- The pieces of the regular expressions of the program, as matchers that return what is behind the
-- match. Neighbouring pieces of its patterns share no character, so the longest match of a piece is
-- the only one that a match of the whole pattern can take.
use ahk_unix.Base.{ℕ, [], ◌∷◌, Option, none, some, ◌==◌, if◌then◌else◌, Bytes, is_empty}
use ahk_unix.Text.Chars.{is_space, is_digit, is_ident_start, is_word, to_lower}
use ahk_unix.Text.Trim.{drop_while}
use ahk_unix.Text.Number.{span}

infixl 5 ◌>>=◌ ◌>>◌
abbrev pub ◌>>=◌ {ℓ κ} : {A : Type ℓ} {B : Type κ} → Option A → (A → Option B) → Option B
none >>= f = none
some a >>= f = f a

abbrev pub ◌>>◌ {ℓ κ} : {A : Type ℓ} {B : Type κ} → Option A → Option B → Option B
m >> k = m >>= λ _. k

-- `\s*`
abbrev pub skip_space : Bytes → Bytes
skip_space = drop_while is_space

-- a character
unfoldable pub match_char : ℕ → Bytes → Option Bytes
match_char c [] = none
match_char c (x ∷ s) = if x == c then some s else none

-- a word, in either case of letters
unfoldable pub match_icase : Bytes → Bytes → Option Bytes
unfolding to_lower
match_icase [] s = some s
match_icase (c ∷ p) [] = none
match_icase (c ∷ p) (x ∷ s) = let rest = match_icase p s in if to_lower x == c then rest else none

-- `([A-Za-z_]\w*)`: the name and what is behind it
unfoldable pub match_ident : Bytes → Option (Bytes × Bytes)
unfolding is_ident_start is_word span
match_ident [] = none
match_ident (c ∷ s) =
    let (word, rest) = span is_word s in if is_ident_start c then some (c ∷ word, rest) else none

-- `\d+`
unfoldable pub match_digits : Bytes → Option (Bytes × Bytes)
unfolding is_digit span
match_digits s =
    let (digits, rest) = span is_digit s in if is_empty digits then none else some (digits, rest)

-- `(-?\d+)`
unfoldable pub match_int : Bytes → Option (Bytes × Bytes)
unfolding match_digits
match_int [] = none
match_int (c ∷ s) =
    if c == b'-'
    then (match_digits s >>= λ (digits, rest). some (b'-' ∷ digits, rest))
    else match_digits (c ∷ s)

-- `$`
abbrev pub match_end {ℓ} : {A : Type ℓ} → A → Bytes → Option A
match_end a [] = some a
match_end a (c ∷ s) = none
