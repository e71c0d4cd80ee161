-- ===== src/Hotstring/Replacement.antt =====
-- `AhkParser::parse_replacement`: the text to paste, and the keys to tap behind it. The text still
-- unread stands for the position `pos`; the fuel counts the rounds of the loop.
use ahk_unix.Base.{
  ℕ, zero, suc, ◌||◌, List, [], ◌∷◌, ◌++◌, if◌then◌else◌, Bytes, length, Result, ok, err, Error,
  ◌>>=◌, throw, codes,
}
use ahk_unix.Base.Int.{ℤ, pos}
use ahk_unix.Keys.{
  key_left, key_right, key_up, key_down, key_home, key_end, key_delete, key_backspace, key_enter,
  key_tab, key_esc, key_space,
}
use ahk_unix.Text.Chars.{equal}
use ahk_unix.Text.Token.{plain, unterminated, token, scan}
use ahk_unix.Text.Number.{extract_word, extract_int}
use ahk_unix.SendInput.{is_literal}
use ahk_unix.Hotstring.{Hotstring}

-- The branch of the chain of comparisons that a command's name takes: a key with a count, a key
-- tapped once, or none.
unfoldable pub tail_key : Bytes → ℤ → Result (ℕ × ℤ) → Result (ℕ × ℤ)
tail_key name count unknown =
    if equal name (codes "Left")
    then ok (key_left, count)
    else if equal name (codes "Right")
    then ok (key_right, count)
    else if equal name (codes "Up")
    then ok (key_up, count)
    else if equal name (codes "Down")
    then ok (key_down, count)
    else if equal name (codes "Home")
    then ok (key_home, count)
    else if equal name (codes "End")
    then ok (key_end, count)
    else if equal name (codes "Delete") || equal name (codes "Del")
    then ok (key_delete, count)
    else if equal name (codes "Backspace") || equal name (codes "BS")
    then ok (key_backspace, count)
    else if equal name (codes "Enter") || equal name (codes "Return")
    then ok (key_enter, pos 1)
    else if equal name (codes "Tab")
    then ok (key_tab, pos 1)
    else if equal name (codes "Escape") || equal name (codes "Esc")
    then ok (key_esc, pos 1)
    else if equal name (codes "Space") || equal name (codes "SPACE")
    then ok (key_space, pos 1)
    else unknown

unfoldable pub tail_command : Bytes → Result (ℕ × ℤ)
tail_command cmd =
    let (cmd_name, rest) = extract_word cmd in
    tail_key cmd_name (extract_int (pos 1) rest)
      (throw "unknown tail command: {" (cmd ++ codes "}"))

abbrev pub Tail : Type 0
Tail = Bytes × List (ℕ × ℤ)

-- The body of the loop at `before{cmd}`: the text and the keys so far, and what it appends.
unfoldable pub replacement_token : Tail → Bytes → Bytes → Result Tail
replacement_token (text, tail_keys) before cmd =
    if is_literal cmd
    then ok (text ++ before ++ cmd, tail_keys)
    else do key ← tail_command cmd; ok (text ++ before, tail_keys ++ key ∷ [])

unfoldable pub replacement_loop : ℕ → Bytes → Tail → Result Tail
replacement_loop zero rest tail = err Error.out_of_fuel
replacement_loop (suc f) rest tail = elim (scan rest) [
  | plain ↦ ok (tail.0 ++ rest, tail.1)
  | unterminated ↦ throw "unterminated { in replacement" []
  | token before cmd next ↦ do
    longer ← replacement_token tail before cmd
    replacement_loop f next longer
]

-- The hotstring `hs` with its replacement.
unfoldable pub parse_replacement : Bytes → Hotstring → Result Hotstring
parse_replacement replacement hs = do
  (text, tail_keys) ← replacement_loop (suc (length replacement)) replacement ([], hs.tail_keys)
  ok (record hs { replacement_utf8 = text; tail_keys = tail_keys })
