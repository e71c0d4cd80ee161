-- ===== src/Script/Lines.antt =====
-- `ScriptParser::preprocess_lines`: comments go, closing braces get lines of their own, and command
-- words are put in lower case.
use mathlib.Core.Option
use ahk_unix.Base.{
  ℕ, zero, suc, ◌-◌, Bool, true, false, ◌&&◌, ◌||◌, List, [], ◌∷◌, ◌++◌, map, Option, none, some,
  ◌==◌, if◌then◌else◌, Bytes, is_empty, length, take, drop, codes,
}
use ahk_unix.Text.Chars.{is_space, to_lower, equal, starts_with}
use ahk_unix.Text.Trim.{trim, drop_while}

unfoldable pub is_command_boundary : ℕ → Bool
unfolding is_space
is_command_boundary c = is_space c || c == b',' || c == b'(' || c == b'{'

-- What stands behind a command word: nothing, or a boundary.
unfoldable pub at_boundary : Bytes → Bool
unfolding is_command_boundary
at_boundary [] = true
at_boundary (c ∷ s) = is_command_boundary c

unfoldable pub starts_with_command : Bytes → Bytes → Bool
unfolding starts_with at_boundary
starts_with_command line command =
    starts_with line command && at_boundary (drop (length command) line)

-- The comparison loop of `normalize_command_at`.
unfoldable pub lower_starts_with : Bytes → Bytes → Bool
unfolding to_lower
lower_starts_with s [] = true
lower_starts_with [] (c ∷ p) = false
lower_starts_with (x ∷ s) (c ∷ p) = to_lower x == c && lower_starts_with s p

-- `normalize_command_at` at `pos`: `some` new line if it returns true, which it does where the
-- command stands at `pos`.
unfoldable pub normalize_command_at : Bytes → ℕ → Bytes → Option Bytes
unfolding lower_starts_with at_boundary
normalize_command_at line pos command =
    let rest = drop pos line in
    let n = length command in
    if lower_starts_with rest command && at_boundary (drop n rest)
    then some (take pos line ++ (map to_lower (take n rest) ++ drop n rest))
    else none

unfoldable pub command_words : List Bytes
command_words =
    codes "showmarkdown"
    ∷ codes "sendinput"
    ∷ codes "sendmessage"
    ∷ codes "random"
    ∷ codes "return"
    ∷ codes "cancel"
    ∷ codes "sleep"
    ∷ codes "pause"
    ∷ codes "input"
    ∷ codes "else"
    ∷ codes "if"
    ∷ []

-- Behind `else` an `if` is put in lower case too.
unfoldable pub normalize_else_if : Bytes → Bytes
unfolding normalize_command_at drop_while is_space
normalize_else_if line =
    let n = length (codes "else") in
    let behind = drop n line in
    let if_pos = length line - length (drop_while is_space behind) in
    Option.get_or (normalize_command_at line if_pos (codes "if")) line

unfoldable pub normalize_with : List Bytes → Bytes → Bytes
unfolding normalize_else_if normalize_command_at equal
normalize_with [] line = line
normalize_with (command ∷ commands) line =
    let later = normalize_with commands line in
    elim (normalize_command_at line 0 command) [
      | none ↦ later
      | some lowered ↦ if equal command (codes "else") then normalize_else_if lowered else lowered
    ]

unfoldable pub normalize_command_tokens : Bytes → Bytes
unfolding normalize_with command_words
normalize_command_tokens line = normalize_with command_words line

-- `while (!line.empty() && line.front() == '}')`, from a line that may begin with braces: the lines
-- pushed, and the rest of the line.
unfoldable pub strip_braces : ℕ → Bytes → List Bytes × Bytes
unfolding trim
strip_braces zero line = ([], line)
strip_braces (suc f) [] = ([], [])
strip_braces (suc f) (c ∷ line) =
    let (braces, rest) = strip_braces f (trim line) in
    if c == b'}' then (codes "}" ∷ braces, rest) else ([], c ∷ line)

-- The lambda `push_processed_line`: the lines that it pushes.
unfoldable pub processed_line : Bytes → List Bytes
unfolding trim starts_with strip_braces normalize_command_tokens
processed_line raw =
    let line = trim raw in
    let (braces, rest) = strip_braces (length line) line in
    if is_empty line || starts_with line (codes ";") || starts_with line (codes "#")
    then []
    else if is_empty rest
    then braces
    else braces ++ normalize_command_tokens rest ∷ []

unfoldable pub preprocess_loop : Bytes → Bytes → List Bytes
unfolding processed_line
preprocess_loop current [] = if is_empty current then [] else processed_line current
preprocess_loop current (ch ∷ block) = elim (ch == b'\r') [
  | true ↦ preprocess_loop current block
  | false ↦ elim (ch == b'\n') [
    | true ↦ processed_line current ++ preprocess_loop [] block
    | false ↦ preprocess_loop (current ++ ch ∷ []) block
  ]
]

unfoldable pub preprocess_lines : Bytes → List Bytes
unfolding preprocess_loop
preprocess_lines = preprocess_loop []
