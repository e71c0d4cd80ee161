-- ===== src/Script/Blocks.antt =====
-- `ScriptParser::parse_if_chain` and `parse_block_lines`. The lines still unread stand for the
-- index into them; both functions return those that they leave. The fuel counts nested calls and
-- rounds of the loop.
use ahk_unix.Base.{
  ℕ, zero, suc, ◌+◌, ◌*◌, ◌-◌, Bool, true, false, ◌&&◌, not, List, [], ◌∷◌, Option, none, some,
  is_some, ltb, leb, if◌then◌else◌, Bytes, length, drop, Result, ok, err, Error, ◌>>=◌, throw,
  codes,
}
use ahk_unix.Text.Chars.{equal}
use ahk_unix.Text.Trim.{trim}
use ahk_unix.Text.Find.{find, rfind, substr}
use ahk_unix.Command.{Command, if_command, Commands, nil, cons}
use ahk_unix.Script.Lines.{starts_with_command, preprocess_lines}
use ahk_unix.Script.Simple.{parse_simple_command}

unfoldable pub extract_condition : Bytes → Result Bytes
extract_condition line = elim (find (codes "(") line) [
  | none ↦ throw "If condition must be in parentheses: " line
  | some open_at ↦ elim (rfind b')' line) [
    | none ↦ throw "If condition must be in parentheses: " line
    | some close_at ↦
        if leb close_at open_at
        then throw "If condition must be in parentheses: " line
        else ok (trim (substr line (open_at + 1) (close_at - open_at - 1)))
  ]
]

unfoldable pub has_inline_open_brace : Bytes → Bool
has_inline_open_brace line = elim (rfind b')' line) [
  | none ↦ false
  | some close_at ↦ elim (find (codes "{") line) [ none ↦ false | some brace ↦ ltb close_at brace ]
]

-- The line `else if` without its `else`; any other line as it is.
unfoldable pub strip_else : Bytes → Bytes
strip_else line =
    let maybe_if = trim (drop (length (codes "else")) line) in
    if starts_with_command line (codes "else") && starts_with_command maybe_if (codes "if")
    then maybe_if
    else line

unfoldable pub is_else_if : Bytes → Bool
is_else_if line = starts_with_command (trim (drop (length (codes "else")) line)) (codes "if")

-- The opening brace, where it is not on the line itself: the lines behind it.
unfoldable pub expect_brace : Bool → Result (List Bytes) → List Bytes → Result (List Bytes)
unfolding equal
expect_brace true missing lines = ok lines
expect_brace false missing [] = missing
expect_brace false missing (line ∷ lines) = if equal line (codes "{") then ok lines else missing

-- `parse_if_chain` up to the opening brace: the condition, and the lines behind the brace.
unfoldable pub parse_if_header : Bytes → List Bytes → Result (Bytes × List Bytes)
parse_if_header line rest =
    let chain = strip_else line in
    if not (starts_with_command chain (codes "if"))
    then throw "expected If/Else If, got: " chain
    else do
      condition ← extract_condition chain
      body ←
          expect_brace (has_inline_open_brace chain) (throw "expected { after If condition" []) rest
      ok (condition, body)

abbrev pub contains_brace : Bytes → Bool
contains_brace line = is_some (find (codes "{") line)

-- `if (cmd) commands.push_back(cmd)`, in front of the commands that follow.
abbrev pub push : Option Command → Commands → Commands
push none commands = commands
push (some command) commands = cons command commands

abbrev pub Parsed : Type 0
Parsed = Result (Commands × List Bytes)

-- Two nested calls at most for each line, and one at the end.
abbrev pub enough_fuel : List Bytes → ℕ
enough_fuel lines = 2 * length lines + 1

unfoldable mutual
  pub parse_block_lines : ℕ → List Bytes → Bool → Parsed
  parse_block_lines zero lines stop = err Error.out_of_fuel
  parse_block_lines (suc f) [] stop = ok (nil, [])
  parse_block_lines (suc f) (line ∷ rest) stop = elim (equal line (codes "}")) [
    | true ↦ elim stop [ true ↦ ok (nil, rest) | false ↦ parse_block_lines f rest false ]
    | false ↦ elim (starts_with_command line (codes "if")) [
      | true ↦ do
        (command, behind) ← parse_if_chain f (line ∷ rest)
        (commands, left) ← parse_block_lines f behind stop
        ok (cons command commands, left)
      | false ↦ elim (starts_with_command line (codes "else")) [
        | true ↦ ok (nil, line ∷ rest)
        | false ↦ do
          simple ← parse_simple_command line
          (commands, left) ← parse_block_lines f rest stop
          ok (push simple commands, left)
      ]
    ]
  ]

  pub parse_if_chain : ℕ → List Bytes → Result (Command × List Bytes)
  parse_if_chain zero lines = err Error.out_of_fuel
  parse_if_chain (suc f) [] = throw "unexpected end of script while parsing If" []
  parse_if_chain (suc f) (line ∷ rest) = do
    (condition, body) ← parse_if_header line rest
    (true_branch, behind) ← parse_block_lines f body true
    (false_branch, left) ← parse_else f behind
    ok (if_command condition true_branch false_branch, left)

  pub parse_else : ℕ → List Bytes → Parsed
  parse_else zero lines = err Error.out_of_fuel
  parse_else (suc f) [] = ok (nil, [])
  parse_else (suc f) (line ∷ rest) = elim (starts_with_command line (codes "else")) [
    | false ↦ ok (nil, line ∷ rest)
    | true ↦ elim (is_else_if line) [
      | true ↦ do (command, left) ← parse_if_chain f (line ∷ rest); ok (cons command nil, left)
      | false ↦ do
        body ← expect_brace (contains_brace line) (throw "expected { after Else" []) rest
        parse_block_lines f body true
    ]
  ]

-- `ScriptParser::parse_action_block`
unfoldable pub parse_action_block : Bytes → Result Commands
parse_action_block block =
    let lines = preprocess_lines block in
    do (commands, left) ← parse_block_lines (enough_fuel lines) lines false; ok commands
