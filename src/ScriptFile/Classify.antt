-- ===== src/ScriptFile/Classify.antt =====
-- The lambdas of `parse_file` that look at one line.
use ahk_unix.Base.{
  ℕ, Bool, true, false, ◌&&◌, ◌||◌, not, List, [], ◌∷◌, ◌++◌, Option, none, some, is_some, ◌==◌,
  if◌then◌else◌, Bytes, is_empty, any, length, take, drop, codes,
}
use ahk_unix.Text.Chars.{is_space, to_lower, equal, starts_with}
use ahk_unix.Text.Find.{find, split_at}
use ahk_unix.Text.Trim.{trim}
use ahk_unix.Script.Lines.{at_boundary}

-- `std::getline` until the end: a last line without a newline counts if it is not empty.
unfoldable pub get_lines : Bytes → Bytes → List Bytes
get_lines current [] = if is_empty current then [] else current ∷ []
get_lines current (c ∷ s) = elim (c == b'\n') [
  | true ↦ current ∷ get_lines [] s
  | false ↦ get_lines (current ++ c ∷ []) s
]

unfoldable pub is_comment_or_empty : Bytes → Bool
is_comment_or_empty line =
    let t = trim line in is_empty t || starts_with t (codes ";") || starts_with t (codes "#")

-- The loop of `starts_with_command_ci`.
unfoldable pub starts_with_ci : Bytes → Bytes → Bool
starts_with_ci text [] = true
starts_with_ci [] (c ∷ command) = false
starts_with_ci (a ∷ text) (c ∷ command) = to_lower a == to_lower c && starts_with_ci text command

unfoldable pub starts_with_command_ci : Bytes → Bytes → Bool
starts_with_command_ci text command =
    starts_with_ci text command && at_boundary (drop (length command) text)

abbrev pub action_words : List Bytes
action_words =
    codes "SendInput"
    ∷ codes "Sleep"
    ∷ codes "Random"
    ∷ codes "Cancel"
    ∷ codes "Pause"
    ∷ codes "If"
    ∷ codes "Else"
    ∷ codes "SendMessage"
    ∷ codes "Input"
    ∷ codes "Return"
    ∷ []

-- The test that `looks_like_trigger_line` and `looks_like_action_line` share.
unfoldable pub is_action : Bytes → Bool
is_action t =
    any (starts_with_command_ci t) action_words || equal t (codes "{") || equal t (codes "}")

unfoldable pub looks_like_action_line : Bytes → Bool
looks_like_action_line line = let t = trim line in not (is_empty t) && is_action t

abbrev pub contains : Bytes → ℕ → Bool
contains s c = is_some (split_at c s)

unfoldable pub is_trigger_name : Bytes → Bool
is_trigger_name lhs =
    not (is_empty lhs) && not (contains lhs b'{' || contains lhs b'}' || contains lhs b',')

unfoldable pub looks_like_trigger_line : Bytes → Bool
looks_like_trigger_line line =
    let t = trim line in
    if is_empty t || is_action t then false else elim (find (codes "::") t) [
      | none ↦ false
      | some sep ↦ if starts_with t (codes ":") then true else is_trigger_name (trim (take sep t))
    ]

-- `name = value`, on a line without `::`, where the name is not empty and holds no space.
unfoldable pub assignment : Bytes → Option (Bytes × Bytes)
assignment line = elim (split_at b'=' line) [
  | none ↦ none
  | some (before, after) ↦
      let name = trim before in
      if is_some (find (codes "::") line) || any is_space name || is_empty name
      then none
      else some (name, trim after)
]
