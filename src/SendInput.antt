-- ===== src/SendInput.antt =====
-- The parser of src/commands/SendInputCommand.cpp. The text still unread, `sequence_.substr(pos)`,
-- stands for the position `pos`; the fuel counts the rounds of the loop.
pub mod Parts
pub mod Escapes
mod Tests
use ahk_unix.Base.{
  ℕ, zero, suc, ◌+◌, Bool, true, false, ◌||◌, List, [], ◌∷◌, ◌++◌, Option, none, some,
  if◌then◌else◌, Bytes, is_empty, length, Result, ok, err, Error, ◌>>=◌, throw, codes,
}
use ahk_unix.Base.Int.{ℤ, pos, ltb_ℤ}
use ahk_unix.Text.Chars.{equal}
use ahk_unix.Text.Token.{plain, unterminated, token, scan}
use ahk_unix.Text.Number.{extract_word, extract_int}
use ahk_unix.Layout.{parse_special_key}
use ahk_unix.Command.{Part, text_part, key_part}

-- The escaped literals: {!} {+} {^} {#} {{} {}}
unfoldable pub is_literal : Bytes → Bool
unfolding equal
is_literal cmd =
    equal cmd (codes "!")
    || equal cmd (codes "+")
    || equal cmd (codes "^")
    || equal cmd (codes "#")
    || equal cmd (codes "{")
    || equal cmd (codes "}")

-- Text goes onto the last part if that is a text, and into a new part else.
unfoldable pub append_nonempty : List Part → Bytes → List Part
append_nonempty [] s = text_part s ∷ []
append_nonempty (text_part t ∷ []) s = text_part (t ++ s) ∷ []
append_nonempty (key_part k n ∷ []) s = key_part k n ∷ text_part s ∷ []
append_nonempty (p ∷ q ∷ parts) s = p ∷ append_nonempty (q ∷ parts) s

-- The lambda `append_text`.
unfoldable pub append_text : List Part → Bytes → List Part
unfolding append_nonempty
append_text parts s = if is_empty s then parts else append_nonempty parts s

abbrev at_least_one : ℤ → ℤ
at_least_one n = if ltb_ℤ n (pos 1) then pos 1 else n

-- `{Name count}`
unfoldable pub special_part : Bytes → Result Part
special_part cmd =
    let (key_name, rest) = extract_word cmd in
    do
      key_code ← parse_special_key key_name
      ok (key_part key_code (at_least_one (extract_int (pos 1) rest)))

-- The body of the loop at `before{cmd}`: the parts so far, and what it appends to them.
unfoldable pub parse_token : List Part → Bytes → Bytes → Result (List Part)
unfolding is_literal append_text
parse_token parts before cmd =
    let opened = append_text parts before in
    if is_literal cmd
    then ok (append_text opened cmd)
    else do p ← special_part cmd; ok (opened ++ p ∷ [])

unfoldable pub parse_loop : ℕ → Bytes → List Part → Result (List Part)
parse_loop zero rest parts = err Error.out_of_fuel
parse_loop (suc f) rest parts = elim (scan rest) [
  | plain ↦ ok (append_text parts rest)
  | unterminated ↦ throw "unterminated { in SendInput sequence" []
  | token before cmd next ↦ do longer ← parse_token parts before cmd; parse_loop f next longer
]

-- `SendInputCommand::parse_sequence`
unfoldable pub parse_sequence : Bytes → Result (List Part)
parse_sequence sequence = parse_loop (suc (length sequence)) sequence []
