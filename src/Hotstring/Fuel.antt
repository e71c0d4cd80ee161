-- ===== src/Hotstring/Fuel.antt =====
-- Every trigger line is parsed to the end: no loop of its parser runs out of fuel.
use ahk_unix.Base.{
  ℕ, zero, suc, ◌<◌, List, [], ◌∷◌, ◌≢◌, arith, inl, inr, Option-cases, Result-cases, Bytes, length,
  err, Error, codes,
}
use ahk_unix.Text.Chars.{starts_with}
use ahk_unix.Text.Find.{split_at, length-split_at}
use ahk_unix.Text.Trim.{trim, length-trim}
use ahk_unix.Layout.{Table, key_for_utf8_char, parse_special_key, parse_modifier_key}
use ahk_unix.Hotstring.{empty_hotstring}
use ahk_unix.Hotstring.Trigger.{
  split_utf8, keys_of, modifiers_of, parse_keys, trigger_loop, parse_trigger_expr,
}
use ahk_unix.Hotstring.Utf8.{split_utf8-fuel}
use ahk_unix.Hotstring.Tails.{parse_replacement-fuel}
use ahk_unix.Hotstring.Line.{split_line, parse_hotstring_line}
use ahk_unix.Script.Fuel.{Returns}

parse_special_key-Returns : (name : Bytes) → Returns (parse_special_key name)
unfolding parse_special_key
parse_special_key-Returns name = ground arith

keys_of-Returns :
    (layout : Table) (expr : Bytes) (chars : List Bytes) → Returns (keys_of layout expr chars)
unfolding keys_of key_for_utf8_char
keys_of-Returns layout expr [] = tt
keys_of-Returns layout expr (ch ∷ chars) = ground (arith, keys_of-Returns layout expr chars)

split_utf8-Returns : (s : Bytes) → Returns (split_utf8 s)
split_utf8-Returns s = ground (arith, split_utf8-fuel s)

modifiers_of-Returns : (s : Bytes) → Returns (modifiers_of s)
unfolding modifiers_of parse_modifier_key
modifiers_of-Returns s = ground arith

parse_keys-Returns : (layout : Table) (expr : Bytes) → Returns (parse_keys layout expr)
unfolding parse_keys
parse_keys-Returns layout expr = elim (Result-cases (split_utf8 expr)) [
  | inl (chars, e) ↦
      ground (arith, e, keys_of-Returns layout expr chars, parse_special_key-Returns expr)
  | inr (w, e) ↦ ground (arith, e, parse_special_key-Returns expr, split_utf8-Returns expr)
]

trigger_loop-Returns :
    (f : ℕ) (layout : Table) (expr : Bytes) → length expr < f → Returns (trigger_loop f layout expr)
unfolding trigger_loop key_for_utf8_char
trigger_loop-Returns zero layout expr l = elim l [ ]
trigger_loop-Returns (suc f) layout expr l = elim (Option-cases (split_at b'&' expr)) [
  | inl e ↦ ground (arith, e, parse_keys-Returns layout expr)
  | inr ((before, after), e) ↦
      let shorter = length-split_at b'&' expr e in
      let nested = trigger_loop-Returns f layout (trim after) (omega (arith, length-trim after)) in
      ground (
        arith,
        e,
        modifiers_of-Returns (trim before),
        nested,
        parse_special_key-Returns (trim after),
      )
]

parse_trigger_expr-Returns :
    (layout : Table) (expr : Bytes) → Returns (parse_trigger_expr layout expr)
unfolding parse_trigger_expr
parse_trigger_expr-Returns layout expr = trigger_loop-Returns _ layout expr (omega arith)

split_line-Returns : (line : Bytes) → Returns (split_line line)
unfolding split_line
split_line-Returns line = ground arith

-- The fuel of `parse_hotstring_line` is enough for every layout and line.
pub parse_hotstring_line-fuel :
    (layout : Table) (line : Bytes) → parse_hotstring_line layout line ≢ err Error.out_of_fuel
unfolding parse_hotstring_line
parse_hotstring_line-fuel layout line = elim (Result-cases (split_line line)) [
  | inr (w, e) ↦ ground (arith, e, split_line-Returns line)
  | inl ((trigger, replacement), e) ↦
      let parsed = parse_trigger_expr-Returns layout (trim trigger) in
      elim (Result-cases (parse_trigger_expr layout (trim trigger))) [
        | inr (w, e') ↦ ground (arith, e, e', parsed)
        | inl ((keys, modifiers), e') ↦
            let hs = record empty_hotstring {
              trigger_keys = keys;
              trigger_modifiers = modifiers;
              erase_trigger = starts_with line (codes ":");
            } in
            ground (arith, e, e', parse_replacement-fuel replacement hs)
      ]
]
