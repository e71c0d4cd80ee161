-- ===== src/Script/Headers.antt =====
-- The lines `if (...) {`, `else if (...) {` and `else {` as the parser of blocks reads them.
use ahk_unix.Base.{
  ℕ, ◌+◌, ◌-◌, Bool, true, false, List, [], ◌∷◌, ◌++◌, none, some, ◌≡◌, refl, sym, ap, ◌∙◌, arith,
  Bytes, length, take, ok, codes, length-append, append_assoc,
}
use ahk_unix.Text.Chars.{starts_with}
use ahk_unix.Text.Find.{find, rfind, Lacks, Lacks-append}
use ahk_unix.Text.Trim.{trim, drop_last_while, drop_while, is_leading, is_trailing}
use ahk_unix.Script.Lines.{starts_with_command, at_boundary}
use ahk_unix.Script.Blocks.{
  extract_condition, has_inline_open_brace, strip_else, is_else_if, expect_brace, parse_if_header,
}

-- `(condition) {` behind a command word
abbrev pub guarded : Bytes → Bytes
guarded condition = codes " (" ++ (condition ++ codes ") {")

abbrev pub if_line : Bytes → Bytes
if_line condition = codes "if" ++ guarded condition

abbrev pub else_if_line : Bytes → Bytes
else_if_line condition = codes "else " ++ if_line condition

abbrev pub else_line : Bytes
else_line = codes "else {"

rfind-Lacks : (c : ℕ) (b : Bytes) → Lacks c b → rfind c b ≡ none
unfolding rfind
rfind-Lacks c [] h = refl
rfind-Lacks c (x ∷ b) h = ground (arith, rfind-Lacks c b)

pub rfind-append : (c : ℕ) (a b : Bytes) → Lacks c b → rfind c (a ++ c ∷ b) ≡ some (length a)
unfolding rfind
rfind-append c [] b h = ground (arith, rfind-Lacks c b h)
rfind-append c (x ∷ a) b h = ground (arith, rfind-append c a b h)

find_brace : (s rest : Bytes) → Lacks b'{' s → find (codes "{") (s ++ b'{' ∷ rest) ≡ some (length s)
unfolding find starts_with
find_brace [] rest h = refl
find_brace (x ∷ s) rest h = ground (arith, find_brace s rest h.1)

take-length : (a b : Bytes) → take (length a) (a ++ b) ≡ a
take-length [] b = refl
take-length (x ∷ a) b = ap (◌∷◌ x) (take-length a b)

drop_last_while_concat :
    (p : ℕ → Bool) (s : Bytes) (c : ℕ) → p c ≡ false → drop_last_while p (s ++ c ∷ []) ≡ s ++ c ∷ []
unfolding drop_last_while
drop_last_while_concat p [] c h = ground (arith, h)
drop_last_while_concat p (x ∷ []) c h = ground (arith, h)
drop_last_while_concat p (x ∷ y ∷ s) c h = rw (drop_last_while_concat p (y ∷ s) c h)

rfind-if_line : (condition : Bytes) → rfind b')' (if_line condition) ≡ some (4 + length condition)
rfind-if_line condition =
    rfind-append b')' (codes "if (" ++ condition) (codes " {") (refl, (refl, tt))
    ∙ ap some (omega arith)

pub extract_condition-if_line :
    (condition : Bytes) → extract_condition (if_line condition) ≡ ok (trim condition)
unfolding extract_condition find starts_with
extract_condition-if_line condition =
    let n = length condition in
    let cut : take (4 + n - 3 - 1) (condition ++ codes ") {") ≡ condition =
      ap (λ k. take k (condition ++ codes ") {")) {y = n} (omega arith)
      ∙ take-length condition (codes ") {") in
    ground (arith, rfind-if_line condition, cut)

pub has_inline_open_brace-if_line :
    (condition : Bytes) → Lacks b'{' condition → has_inline_open_brace (if_line condition) ≡ true
unfolding has_inline_open_brace
has_inline_open_brace-if_line condition h =
    let at : find (codes "{") (if_line condition) ≡ some (6 + length condition) =
      ap (find (codes "{")) {y = (codes "if (" ++ (condition ++ codes ") ")) ++ b'{' ∷ []}
        (ap (λ s. codes "if (" ++ s) (sym (append_assoc condition (codes ") ") (codes "{"))))
      ∙ find_brace (codes "if (" ++ (condition ++ codes ") ")) [] (
        refl,
        (refl, (refl, (refl, Lacks-append b'{' condition (codes ") ") h (refl, (refl, tt))))),
      )
      ∙ ap some (omega (arith, length-append condition (codes ") "))) in
    ground (arith, rfind-if_line condition, at)

-- The brace is the last character of the line.
if_line-concat :
    (condition : Bytes)
    → if_line condition ≡ (codes "if (" ++ (condition ++ codes ") ")) ++ b'{' ∷ []
if_line-concat condition =
    ap (λ s. codes "if (" ++ s) (sym (append_assoc condition (codes ") ") (codes "{")))

trim-if_line : (condition : Bytes) → trim (b' ' ∷ if_line condition) ≡ if_line condition
unfolding trim
trim-if_line condition =
    let inner = codes " if (" ++ (condition ++ codes ") ") in
    let whole : b' ' ∷ if_line condition ≡ inner ++ b'{' ∷ [] =
      ap (◌∷◌ b' ') (if_line-concat condition) in
    ap (drop_while is_leading) (
      ap (drop_last_while is_trailing) whole
      ∙ drop_last_while_concat is_trailing inner b'{' refl
      ∙ sym whole)

-- Behind `else` stands the `if` line.
pub strip_else-else_if_line :
    (condition : Bytes) → strip_else (else_if_line condition) ≡ if_line condition
unfolding strip_else starts_with_command starts_with at_boundary
strip_else-else_if_line condition = ground (arith, trim-if_line condition)

pub is_else_if-else_if_line : (condition : Bytes) → is_else_if (else_if_line condition) ≡ true
unfolding is_else_if starts_with_command starts_with at_boundary
is_else_if-else_if_line condition = ground (arith, trim-if_line condition)

pub strip_else-if_line : (condition : Bytes) → strip_else (if_line condition) ≡ if_line condition
unfolding strip_else starts_with_command starts_with at_boundary
strip_else-if_line condition = ground arith

pub if_line-starts :
    (condition : Bytes) → starts_with_command (if_line condition) (codes "if") ≡ true
unfolding starts_with_command starts_with at_boundary
if_line-starts condition = refl

-- The header of a chain is read from the `if` line that it holds.
pub parse_if_header-if_line :
    (line condition : Bytes) (rest : List Bytes)
    → strip_else line ≡ if_line condition
    → Lacks b'{' condition
    → parse_if_header line rest ≡ ok (trim condition, rest)
unfolding parse_if_header expect_brace
parse_if_header-if_line line condition rest e h = ground (
  arith,
  e,
  extract_condition-if_line condition,
  has_inline_open_brace-if_line condition h,
  if_line-starts condition,
)

pub else_if_line-starts :
    (condition : Bytes) → starts_with_command (else_if_line condition) (codes "else") ≡ true
unfolding starts_with_command starts_with at_boundary
else_if_line-starts condition = refl
