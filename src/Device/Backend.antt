-- ===== src/Device/Backend.antt =====
-- src/Clipboard.cpp: which program serves the clipboard, and `set_text` and `get_text`. `access`, the
-- environment and the programs are the system's; a call of a program may fail.
use ahk_unix.Base.{
  ok, Bool, true, false, ◌&&◌, List, [], ◌∷◌, ◌++◌, Option, none, some, if◌then◌else◌, ◌==◌,
  is_empty, any, Bytes, codes, Result, throw, ◌>>=◌,
}
use ahk_unix.Device.Pipes.{Spawn, Write, Wait, Piece, run_with_stdin, read_stdout}

-- The outcomes of the calls that feed a program and read one, and what a program makes of the state
-- with the text that it has received.
pub record System (State : Type 0) : Type 0 where
  pub getenv : Bytes → Option Bytes
  pub executable : Bytes → Bool
  pub spawn : List Bytes → Spawn
  pub writes : List Bytes → List Write
  pub waits : List Bytes → List Wait
  pub received : List Bytes → Bytes → State → State
  pub opened : Bytes → Bool
  pub pieces : Bytes → State → List Piece

-- The directories of PATH: its pieces between the colons.
unfoldable pub directories : Bytes → List Bytes
directories [] = [] ∷ []
directories (c ∷ s) = elim (directories s) [
  | [] ↦ [] ∷ []
  | dir ∷ dirs ↦ if c == b':' then [] ∷ dir ∷ dirs else (c ∷ dir) ∷ dirs
]

-- `dir / name` of std::filesystem
abbrev ends_in_slash : Bytes → Bool
ends_in_slash [] = false
ends_in_slash (c ∷ []) = c == b'/'
ends_in_slash (c ∷ d ∷ s) = ends_in_slash (d ∷ s)

unfoldable pub candidate : Bytes → Bytes → Bytes
candidate dir name =
    let base = if is_empty dir then codes "." else dir in
    if ends_in_slash base then base ++ name else base ++ codes "/" ++ name

pub data Backend : Type 0 where
  wl_copy : Backend
  xclip : Backend
  xsel : Backend

module _ {State : Type 0} (system : System State) where
  unfoldable pub command_exists : Bytes → Bool
  unfolding directories candidate
  command_exists name = elim (system.getenv (codes "PATH")) [
    | none ↦ false
    | some paths ↦ any (λ dir. system.executable (candidate dir name)) (directories paths)
  ]

  unfoldable pub has_env : Bytes → Bool
  has_env name = elim (system.getenv name) [
    | none ↦ false
    | some value ↦ elim value [ [] ↦ false | c ∷ s ↦ true ]
  ]

  -- The tests that `set_text` and `get_text` make alike.
  unfoldable pub backend : Option Backend
  unfolding command_exists has_env
  backend =
      if command_exists (codes "wl-copy") && has_env (codes "WAYLAND_DISPLAY")
      then some wl_copy
      else if command_exists (codes "xclip") && has_env (codes "DISPLAY")
      then some xclip
      else if command_exists (codes "xsel") && has_env (codes "DISPLAY")
      then some xsel
      else none

  -- `run_with_stdin` on the state
  unfoldable pub run : List Bytes → Bytes → State → Result State
  unfolding run_with_stdin
  run arguments text state = do
    text ←
        run_with_stdin (system.spawn arguments) (system.writes arguments) (system.waits arguments)
          text
    ok (system.received arguments text state)

  -- `read_stdout` on the state
  unfoldable pub output : Bytes → State → Bytes
  unfolding read_stdout
  output command state = read_stdout (system.opened command) (system.pieces command state)

  unfoldable pub set_text : Bytes → State → Result State
  unfolding backend run
  set_text text state = elim backend [
    | some wl_copy ↦ run (codes "wl-copy" ∷ []) text state
    | some xclip ↦ run (codes "xclip" ∷ codes "-selection" ∷ codes "clipboard" ∷ []) text state
    | some xsel ↦ run (codes "xsel" ∷ codes "--clipboard" ∷ codes "--input" ∷ []) text state
    | none ↦ throw "no clipboard backend found: install wl-clipboard, xclip, or xsel" []
  ]

  unfoldable pub get_text : State → Bytes
  unfolding backend command_exists output
  get_text state = elim backend [
    | some wl_copy ↦
        if command_exists (codes "wl-paste")
        then output (codes "wl-paste --no-newline 2>/dev/null") state
        else []
    | some xclip ↦ output (codes "xclip -o -selection clipboard 2>/dev/null") state
    | some xsel ↦ output (codes "xsel --clipboard --output 2>/dev/null") state
    | none ↦ []
  ]
