-- ===== src/Context/Written.antt =====
-- A condition that is written as a name, an operator and a number, read by `evaluate_condition` of
-- src/commands/IfCommand.cpp.
use ahk_unix.Base.{
  ℕ, true, false, [], ◌∷◌, ◌++◌, ◌≡◌, refl, ap, ◌∙◌, ◌⊎◌, inl, inr, arith, none, some, ◌==◌, Bytes,
  Bool-cases, append-nil, subst, ok, codes,
}
use ahk_unix.Base.Int.{ℤ, IsInt}
use ahk_unix.Text.Chars.{is_space, is_digit, is_ident_start, is_word, to_lower}
use ahk_unix.Text.Trim.{drop_while}
use ahk_unix.Text.Number.{to_string}
use ahk_unix.Text.Regex.{skip_space, match_char, match_icase, match_ident, match_int}
use ahk_unix.Context.{Context, get_variable}
use ahk_unix.Context.Condition.{
  Op, equals, differs, greater, less, at_least, at_most, match_op, match_comparison,
  match_random_condition, match_var_condition, compare_with, evaluate_variable, evaluate_match,
  evaluate_condition,
}
use ahk_unix.Context.Numbers.{AllOf, span-AllOf, match_int-to_string, skip_space-to_string}
use ahk_unix.Context.Bounds.{safe_stoi-to_string}

abbrev pub op_text : Op → Bytes
op_text equals = codes "="
op_text differs = codes "!="
op_text greater = codes ">"
op_text less = codes "<"
op_text at_least = codes ">="
op_text at_most = codes "<="

-- A name of a variable.
abbrev pub IsName : Bytes → Type 0
IsName [] = ⊥
IsName (c ∷ name) = (is_ident_start c ≡ true) × AllOf is_word name

-- `name op number`, with a space between them.
abbrev pub condition_text : Bytes → Op → ℤ → Bytes
condition_text name op number = name ++ (b' ' ∷ (op_text op ++ (b' ' ∷ to_string number)))

match_op-text :
    (op : Op) (rest : Bytes) → match_op (op_text op ++ b' ' ∷ rest) ≡ some (op, b' ' ∷ rest)
unfolding match_op match_char
match_op-text equals rest = refl
match_op-text differs rest = refl
match_op-text greater rest = refl
match_op-text less rest = refl
match_op-text at_least rest = refl
match_op-text at_most rest = refl

skip_space-op :
    (op : Op) (rest : Bytes) → skip_space (b' ' ∷ op_text op ++ rest) ≡ op_text op ++ rest
unfolding drop_while is_space
skip_space-op equals rest = refl
skip_space-op differs rest = refl
skip_space-op greater rest = refl
skip_space-op less rest = refl
skip_space-op at_least rest = refl
skip_space-op at_most rest = refl

skip_space-number : (v : ℤ) → skip_space (b' ' ∷ to_string v) ≡ to_string v
unfolding drop_while is_space
skip_space-number v =
    let plain = skip_space-to_string v [] in
    subst (λ t. skip_space t ≡ t) (append-nil (to_string v)) plain

match_int-number : (v : ℤ) → match_int (to_string v) ≡ some (to_string v, [])
match_int-number v =
    subst (λ t. match_int t ≡ some (to_string v, [])) (append-nil (to_string v))
      (match_int-to_string v [] tt)

match_comparison-text :
    (op : Op) (v : ℤ)
    → match_comparison (b' ' ∷ op_text op ++ b' ' ∷ to_string v) ≡ some (op, to_string v)
unfolding match_comparison drop_while
match_comparison-text op v = rw (
  skip_space-op op (b' ' ∷ to_string v),
  match_op-text op (to_string v),
  skip_space-number v,
  match_int-number v,
)

not_space : (c : ℕ) → is_word c ≡ true → (b' ' == c) ≡ false
unfolding is_word is_ident_start is_digit
not_space c h = ground (arith, h)

random-AllOf : AllOf is_word (codes "random")
unfolding is_word is_ident_start is_digit
random-AllOf = ground arith

-- The letters of `random` are in a name's alphabet, the space behind the name is not.
match_icase-word :
    (p w t : Bytes)
    → AllOf is_word p
    → AllOf is_word w
    → (match_icase p (w ++ b' ' ∷ t) ≡ none)
      ⊎ ((v : Bytes) × AllOf is_word v × (match_icase p (w ++ b' ' ∷ t) ≡ some (v ++ b' ' ∷ t)))
unfolding match_icase
match_icase-word [] w t h k = inr (w, k, refl)
match_icase-word (c ∷ p) [] t h k = inl (rw (not_space c h.0, match_icase))
match_icase-word (c ∷ p) (x ∷ w) t h k = elim (Bool-cases (to_lower x == c)) [
  | inr e ↦ inl (rw (e, match_icase))
  | inl e ↦ elim (match_icase-word p w t h.1 k.1) [
    | inl m ↦ inl (rw (e, match_icase) m)
    | inr (v, l, m) ↦ inr (v, l, rw (e, match_icase) m)
  ]
]

match_char-word : (w t : Bytes) → AllOf is_word w → match_char b'(' (w ++ b' ' ∷ t) ≡ none
unfolding match_char is_word is_ident_start is_digit
match_char-word [] t h = refl
match_char-word (x ∷ w) t h = ground (arith, h.0)

skip_space-name : (name t : Bytes) → IsName name → skip_space (name ++ t) ≡ name ++ t
unfolding drop_while is_space is_ident_start
skip_space-name [] t h = elim h [ ]
skip_space-name (c ∷ name) t h = ground (arith, h.0)

match_ident-name :
    (name t : Bytes) → IsName name → match_ident (name ++ b' ' ∷ t) ≡ some (name, b' ' ∷ t)
unfolding match_ident
match_ident-name [] t h = elim h [ ]
match_ident-name (c ∷ name) t h = rw (
  h.0,
  span-AllOf is_word name (b' ' ∷ t) h.1 (unfold is_word is_ident_start is_digit in refl),
  match_ident,
)

IsName-AllOf : (name : Bytes) → IsName name → AllOf is_word name
unfolding is_word
IsName-AllOf [] h = elim h [ ]
IsName-AllOf (c ∷ name) h = (ground (arith, h.0), h.1)

pub match_random_condition-name :
    (name t : Bytes) → IsName name → match_random_condition (name ++ b' ' ∷ t) ≡ none
unfolding match_random_condition
match_random_condition-name name t h =
    elim (match_icase-word (codes "random") name t random-AllOf (IsName-AllOf name h)) [
      | inl e ↦ rw (skip_space-name name (b' ' ∷ t) h, e)
      | inr (v, k, e) ↦ rw (skip_space-name name (b' ' ∷ t) h, e, match_char-word v t k)
    ]

match_var_condition-text :
    (name : Bytes) (op : Op) (v : ℤ)
    → IsName name
    → match_var_condition (condition_text name op v) ≡ some (name, op, to_string v)
unfolding match_var_condition
match_var_condition-text name op v h =
    let t = op_text op ++ (b' ' ∷ to_string v) in
    rw (skip_space-name name (b' ' ∷ t) h, match_ident-name name t h, match_comparison-text op v)

-- The condition `name op number`, with a name of a variable and an int, compares the variable's value
-- with the number.
pub evaluate_condition-text :
    (draw : ℤ → ℤ → ℤ) (ctx : Context) (name : Bytes) (op : Op) (v : ℤ)
    → IsName name
    → IsInt v
    → evaluate_condition draw ctx (condition_text name op v)
      ≡ ok (compare_with op (get_variable ctx name) v)
unfolding evaluate_condition evaluate_match evaluate_variable
evaluate_condition-text draw ctx name op v h k =
    let text = condition_text name op v in
    ap (evaluate_match draw ctx text)
      (match_random_condition-name name (op_text op ++ b' ' ∷ to_string v) h)
    ∙ rw (match_var_condition-text name op v h, evaluate_variable)
        (ap (λ n. ok (compare_with op (get_variable ctx name) n)) (safe_stoi-to_string v k))
