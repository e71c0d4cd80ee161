-- ===== src/Hotstring/Trigger.antt =====
-- `AhkParser::split_utf8` and `AhkParser::parse_trigger_expr`. The keys of a trigger come first in
-- the pair, its modifiers second.
use ahk_unix.Base.{
  ℕ, zero, suc, ◌/◌, Bool, false, List, [], ◌∷◌, none, some, ltb, ◌==◌, if◌then◌else◌, Bytes,
  is_empty, length, take, drop, Result, ok, err, Error, ◌>>=◌, throw, catch,
}
use ahk_unix.Text.Trim.{trim}
use ahk_unix.Text.Find.{split_at}
use ahk_unix.Layout.{Table, key_for_utf8_char, parse_special_key, parse_modifier_key}

-- The length that the first byte of a character announces: (c & 0xE0) == 0xC0, (c & 0xF0) == 0xE0
-- and (c & 0xF8) == 0xF0 compare the high bits of a byte.
unfoldable pub utf8_length : ℕ → ℕ
utf8_length c = if c / 32 == 6 then 2 else if c / 16 == 14 then 3 else if c / 8 == 30 then 4 else 1

unfoldable pub split_loop : ℕ → Bytes → Result (List Bytes)
unfolding utf8_length
split_loop zero s = err Error.out_of_fuel
split_loop (suc f) [] = ok []
split_loop (suc f) (c ∷ s) =
    let len = utf8_length c in
    let rest = do out ← split_loop f (drop len (c ∷ s)); ok (take len (c ∷ s) ∷ out)
    in if ltb (length (c ∷ s)) len then throw "invalid UTF-8 in trigger" [] else rest

unfoldable pub split_utf8 : Bytes → Result (List Bytes)
split_utf8 s = split_loop (suc (length s)) s

-- The keys of the characters of `expr`, one after another.
unfoldable pub keys_of : Table → Bytes → List Bytes → Result (List ℕ)
keys_of layout expr [] = ok []
keys_of layout expr (ch ∷ chars) = do
  key ← catch (key_for_utf8_char layout ch) (throw "cannot parse trigger: " expr)
  keys ← keys_of layout expr chars
  ok (key ∷ keys)

-- The modifier before `&`, if it is one: what it throws is swallowed.
unfoldable pub modifiers_of : Bytes → Result (List ℕ)
modifiers_of mod_part =
    if is_empty mod_part
    then ok []
    else catch (do key ← parse_modifier_key mod_part; ok (key ∷ [])) (ok [])

unfoldable pub is_ascii_char : Bytes → Bool
is_ascii_char (c ∷ []) = ltb c 128
is_ascii_char _ = false

-- The part of `parse_trigger_expr` behind the modifier syntax.
unfoldable pub parse_keys : Table → Bytes → Result (List ℕ)
parse_keys layout expr =
    catch (do key ← parse_special_key expr; ok (key ∷ []))
      (do chars ← split_utf8 expr; keys_of layout expr chars)

unfoldable pub trigger_loop : ℕ → Table → Bytes → Result (List ℕ × List ℕ)
trigger_loop zero layout expr = err Error.out_of_fuel
trigger_loop (suc f) layout expr = elim (split_at b'&' expr) [
  | none ↦ do keys ← parse_keys layout expr; ok (keys, [])
  | some (before, after) ↦
      let key_part = trim after in
      let nested = trigger_loop f layout key_part in
      do
        modifiers ← modifiers_of (trim before)
        keys ←
            catch (do key ← parse_special_key key_part; ok (key ∷ []))
              (if is_ascii_char key_part
                then catch (do key ← key_for_utf8_char layout key_part; ok (key ∷ []))
                    (throw "cannot parse key after &: " key_part)
                else (do (keys, _) ← nested; ok keys))
        ok (keys, modifiers)
]

unfoldable pub parse_trigger_expr : Table → Bytes → Result (List ℕ × List ℕ)
parse_trigger_expr layout expr = trigger_loop (suc (length expr)) layout expr
