-- ===== src/ScriptFile/Loop.antt =====
-- The loop of `parse_file`. The lines still unread and the number of the first of them stand for the
-- index into the lines; the fuel counts the rounds.
use ahk_unix.Base.{
  ℕ, zero, suc, ◌+◌, ◌-◌, Bool, false, ◌||◌, not, List, [], ◌∷◌, ◌++◌, map, Option, none, some,
  is_some, if◌then◌else◌, Bytes, is_empty, length, Result, ok, err, Error, ◌>>=◌, throw, codes,
}
use ahk_unix.Text.Chars.{starts_with}
use ahk_unix.Text.Find.{find, find_from}
use ahk_unix.Text.Trim.{trim}
use ahk_unix.Layout.{Table}
use ahk_unix.Hotstring.{Hotstring, empty_hotstring}
use ahk_unix.Hotstring.Line.{parse_hotstring_line}
use ahk_unix.ScriptFile.Classify.{
  get_lines, is_comment_or_empty, looks_like_trigger_line, assignment,
}
use ahk_unix.ScriptFile.Body.{next_is_trigger, collect_block, parse_body}

-- `pending_triggers`: each with the index of its line. `globals`: the text variables of the context
-- that all hotstrings of the file share, the last assignment in front.
pub record FileState : Type 0 where
  pub hotstrings : List Hotstring
  pub pending : List (Hotstring × ℕ)
  pub globals : List (Bytes × Bytes)
  pub in_multiline_comment : Bool

-- A pending trigger with the body of the template.
abbrev pub with_body : Hotstring → Hotstring × ℕ → Hotstring
with_body tpl (hs, source_line) = record hs {
  commands = tpl.commands;
  replacement_utf8 = tpl.replacement_utf8;
  tail_keys = tpl.tail_keys;
}

unfoldable pub flush_pending : Hotstring → FileState → FileState
flush_pending tpl st = record st {
  hotstrings = st.hotstrings ++ map (with_body tpl) st.pending;
  pending = [];
}

-- An exception of the parser of a line, with the place in front of its text.
unfoldable pub located {ℓ} : {A : Type ℓ} → Bytes → ℕ → Result A → Result A
located path line (ok a) = ok a
located path line (err Error.out_of_fuel) = err Error.out_of_fuel
located path line (err Error.undefined) = err Error.undefined
located path line (err e) = err (Error.at_line path (line + 1) e)

-- The line of the first pending trigger.
abbrev pub front_line : List (Hotstring × ℕ) → ℕ
front_line [] = 0
front_line ((hs, source_line) ∷ pending) = source_line

abbrev pub is_inline : Hotstring → Bool
is_inline hs = not (is_empty hs.replacement_utf8) || not (is_empty hs.tail_keys)

-- A trigger line with its index, in front of the lines `rest`: the lines that it leaves.
unfoldable pub trigger_line :
    Bytes → ℕ → Hotstring → List Bytes → FileState → Result (FileState × List Bytes)
trigger_line path i hs rest st =
    let waiting = record st { pending = st.pending ++ (hs, i) ∷ [] } in
    let flushed = if is_empty st.pending then st else flush_pending empty_hotstring st in
    let block = collect_block 0 rest in
    if is_inline hs
    then ok (record flushed { hotstrings = flushed.hotstrings ++ hs ∷ [] }, rest)
    else if next_is_trigger rest
    then ok (waiting, rest)
    else do
      tpl ← located path (front_line waiting.pending) (parse_body block)
      ok (flush_pending tpl waiting, block.behind)

-- One round of the loop.
unfoldable pub file_step :
    Table → Bytes → ℕ → Bytes → List Bytes → FileState → Result (FileState × List Bytes)
file_step layout path i raw rest st =
    let line = trim raw in
    let closes = is_some (find (codes "*/") line) in
    let stays_open = not (is_some (find_from (codes "*/") line 2)) in
    if st.in_multiline_comment
    then ok (record st { in_multiline_comment = not closes }, rest)
    else if starts_with line (codes "/*")
    then ok (record st { in_multiline_comment = stays_open }, rest)
    else if is_comment_or_empty line
    then ok (st, rest)
    else elim (assignment line) [
      | some (name, value) ↦ ok (record st { globals = (name, value) ∷ st.globals }, rest)
      | none ↦ if not (looks_like_trigger_line line) then ok (st, rest) else do
        hs ← located path i (parse_hotstring_line layout line)
        trigger_line path i hs rest st
    ]

unfoldable pub file_loop : ℕ → Table → Bytes → ℕ → List Bytes → FileState → Result FileState
file_loop zero layout path i lines st = err Error.out_of_fuel
file_loop (suc f) layout path i [] st = ok st
file_loop (suc f) layout path i (raw ∷ rest) st = do
  (next, left) ← file_step layout path i raw rest st
  file_loop f layout path (i + (length (raw ∷ rest) - length left)) left next

abbrev pub initial_state : FileState
initial_state = record { hotstrings = []; pending = []; globals = []; in_multiline_comment = false }

-- The hotstrings of a script, and the text variables of their context.
pub record ScriptFile : Type 0 where
  pub hotstrings : List Hotstring
  pub globals : List (Bytes × Bytes)

unfoldable pub finish : Bytes → FileState → Result ScriptFile
finish path st =
    let flushed = flush_pending empty_hotstring st in
    if is_empty flushed.hotstrings
    then throw "script has no supported hotstrings: " path
    else ok (record { hotstrings = flushed.hotstrings; globals = flushed.globals })

-- `contents` is what the file holds, if it can be opened.
unfoldable pub parse_file : Table → Bytes → Option Bytes → Result ScriptFile
parse_file layout path none = err (Error.sys_error (codes "open script " ++ path))
parse_file layout path (some contents) =
    let raw_lines = get_lines [] contents in
    do st ← file_loop (suc (length raw_lines)) layout path 0 raw_lines initial_state; finish path st
