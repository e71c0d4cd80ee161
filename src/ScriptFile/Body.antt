-- ===== src/ScriptFile/Body.antt =====
-- The body of a trigger: the lines that belong to it, and the hotstring that it stands for.
use ahk_unix.Base.{
  ℕ, suc, ◌-◌, Bool, true, false, ◌&&◌, ◌||◌, List, [], ◌∷◌, ◌++◌, ltb, ◌==◌, if◌then◌else◌, Bytes,
  any, Result, ok, ◌>>=◌, codes,
}
use ahk_unix.Text.Chars.{equal}
use ahk_unix.Text.Trim.{trim}
use ahk_unix.Script.Blocks.{parse_action_block}
use ahk_unix.Hotstring.{Hotstring, empty_hotstring}
use ahk_unix.Hotstring.Replacement.{parse_replacement}
use ahk_unix.ScriptFile.Classify.{
  is_comment_or_empty, starts_with_command_ci, looks_like_action_line, looks_like_trigger_line,
}

-- Is the next line that is no comment a trigger line?
unfoldable pub next_is_trigger : List Bytes → Bool
next_is_trigger [] = false
next_is_trigger (line ∷ rest) =
    let later = next_is_trigger rest in
    if is_comment_or_empty (trim line) then later else looks_like_trigger_line (trim line)

unfoldable pub next_depth : ℕ → Bytes → ℕ
next_depth depth t =
    if equal t (codes "{")
    then suc depth
    else if equal t (codes "}") && ltb 0 depth
    then depth - 1
    else depth

-- The lines of the block, whether `Return` ended it, and the lines behind it.
pub record Block : Type 0 where
  pub block_lines : List Bytes
  pub saw_return : Bool
  pub behind : List Bytes

unfoldable pub collect_block : ℕ → List Bytes → Block
collect_block brace_depth [] = record { block_lines = []; saw_return = false; behind = [] }
collect_block brace_depth (raw ∷ rest) =
    let t = trim raw in
    let depth = next_depth brace_depth t in
    let later = collect_block depth rest in
    if starts_with_command_ci t (codes "Return") && depth == 0
    then record { block_lines = []; saw_return = true; behind = rest }
    else if depth == 0 && looks_like_trigger_line t
    then record { block_lines = []; saw_return = false; behind = raw ∷ rest }
    else record later { block_lines = raw ∷ later.block_lines }

-- The lines with a newline between them.
unfoldable pub join : List Bytes → Bytes
join [] = []
join (line ∷ []) = line
join (line ∷ next ∷ lines) = line ++ b'\n' ∷ join (next ∷ lines)

-- The template `tpl` that holds the shared body.
unfoldable pub parse_body : Block → Result Hotstring
parse_body block =
    let joined = join block.block_lines in
    if block.saw_return || any looks_like_action_line block.block_lines
    then (do
      commands ← parse_action_block joined
      ok (record empty_hotstring { commands = commands }))
    else parse_replacement joined empty_hotstring
