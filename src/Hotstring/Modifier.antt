-- ===== src/Hotstring/Modifier.antt =====
-- What `parse_trigger_expr` makes of `Mod & Key` triggers, and of Latin text.
use ahk_unix.Base.{
  ℕ, suc, ◌<◌, false, List, [], ◌∷◌, ◌++◌, none, ◌≡◌, refl, arith, Bytes, length, ok, err, ◌>>=◌,
  throw,
}
use ahk_unix.Text.Chars.{equal, is_digit}
use ahk_unix.Text.Find.{Lacks, split_at-append, split_at-Lacks}
use ahk_unix.Text.Trim.{trim}
use ahk_unix.Layout.{
  Table, lookup, russian_qwerty, special_keys, key_for_utf8_char, parse_special_key, modifier_keys,
  parse_modifier_key,
}
use ahk_unix.Hotstring.Trigger.{
  utf8_length, split_loop, split_utf8, keys_of, modifiers_of, parse_keys, trigger_loop,
  parse_trigger_expr,
}

-- The modifier that a text names, if it names one.
abbrev pub named_modifier : Bytes → List ℕ
named_modifier text = elim (parse_modifier_key text) [ ok m ↦ m ∷ [] | err e ↦ [] ]

modifiers_of-named_modifier : (text : Bytes) → modifiers_of text ≡ ok (named_modifier text)
unfolding modifiers_of parse_modifier_key lookup modifier_keys
modifiers_of-named_modifier [] = refl
modifiers_of-named_modifier (c ∷ text) = ground arith

-- `Mod & Key` with a special key: the key, and the modifier if the text before the first `&` names
-- one. Any other text there is dropped, and leaves a hotkey without modifier.
pub parse_trigger_expr_modifier :
    (layout : Table) (before after : Bytes) (key : ℕ)
    → Lacks b'&' before
    → parse_special_key (trim after) ≡ ok key
    → parse_trigger_expr layout (before ++ b'&' ∷ after)
      ≡ ok (key ∷ [], named_modifier (trim before))
unfolding parse_trigger_expr trigger_loop
parse_trigger_expr_modifier layout before after key h e =
    ground
      (arith, split_at-append b'&' before after h, e, modifiers_of-named_modifier (trim before))

-- No ASCII character but a digit has a key.
lookup_ascii : (c : ℕ) → is_digit c ≡ false → lookup (c ∷ []) russian_qwerty ≡ none
unfolding lookup russian_qwerty equal is_digit
lookup_ascii c h = ground arith

utf8_length_ascii : (c : ℕ) → c < 128 → utf8_length c ≡ 1
unfolding utf8_length
utf8_length_ascii c h = ground arith

split_utf8_ascii :
    (c : ℕ) (s : Bytes)
    → c < 128
    → (f : ℕ) → split_loop (suc f) (c ∷ s) ≡ (split_loop f s >>= λ out. ok ((c ∷ []) ∷ out))
unfolding split_loop
split_utf8_ascii c s h f = rw (utf8_length_ascii c h) (ground arith)

keys_of_ascii :
    (c : ℕ) (expr : Bytes) (chars : List Bytes)
    → is_digit c ≡ false
    → keys_of russian_qwerty expr ((c ∷ []) ∷ chars) ≡ throw "cannot parse trigger: " expr
unfolding keys_of key_for_utf8_char
keys_of_ascii c expr chars h = ground (arith, lookup_ascii c h)

parse_keys_ascii :
    (c : ℕ) (s : Bytes)
    → c < 128
    → is_digit c ≡ false
    → lookup (c ∷ s) special_keys ≡ none
    → (chars : List Bytes) → split_utf8 s ≡ ok chars
    → parse_keys russian_qwerty (c ∷ s) ≡ throw "cannot parse trigger: " (c ∷ s)
unfolding parse_keys split_utf8 parse_special_key
parse_keys_ascii c s h d unnamed chars e =
    ground
      (arith, unnamed, split_utf8_ascii c s h (suc (length s)), e, keys_of_ascii c (c ∷ s) chars d)

-- With the layout of the program, a trigger text that names no special key and begins with an ASCII
-- character other than a digit and `&` is refused: no such text can be a hotstring.
pub parse_trigger_expr_latin :
    (c : ℕ) (s : Bytes) (chars : List Bytes)
    → c < 128
    → is_digit c ≡ false
    → Lacks b'&' (c ∷ s)
    → lookup (c ∷ s) special_keys ≡ none
    → split_utf8 s ≡ ok chars
    → parse_trigger_expr russian_qwerty (c ∷ s) ≡ throw "cannot parse trigger: " (c ∷ s)
unfolding parse_trigger_expr trigger_loop
parse_trigger_expr_latin c s chars h d lacks unnamed e =
    ground (arith, split_at-Lacks b'&' (c ∷ s) lacks, parse_keys_ascii c s h d unnamed chars e)
