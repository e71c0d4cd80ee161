-- ===== src/Cli/Lint.antt =====
-- `run_lint` of src/cli/main.cpp. The strict mode is read and passed to `parse_file`, which ignores it.
use ahk_unix.Base.{
  Bool, true, false, List, [], ◌∷◌, Bytes, is_empty, if◌then◌else◌, codes, Result, ok, throw, ◌>>=◌,
}
use ahk_unix.Text.Chars.{equal, starts_with}
use ahk_unix.Layout.{russian_qwerty}
use ahk_unix.ScriptFile.Loop.{parse_file}
use ahk_unix.Cli.{System, Ended, cout}

-- The strict mode and the path, behind the arguments read so far.
unfoldable pub lint_loop : List Bytes → Bool × Bytes → Result (Bool × Bytes)
unfolding equal starts_with
lint_loop [] (strict_mode, script) = ok (strict_mode, script)
lint_loop (arg ∷ args) (strict_mode, script) = elim (equal arg (codes "--strict")) [
  | true ↦ lint_loop args (true, script)
  | false ↦ elim (starts_with arg (codes "--")) [
    | true ↦ throw "unknown lint option: " arg
    | false ↦ elim (is_empty script) [
      | false ↦ throw "multiple script paths provided" []
      | true ↦ lint_loop args (strict_mode, arg)
    ]
  ]
]

unfoldable pub run_lint : System → List Bytes → Result Ended
unfolding lint_loop
run_lint system args = do
  (strict_mode, script) ← lint_loop args (false, [])
  if is_empty script then throw "lint requires a script path" [] else do
    _ ← parse_file russian_qwerty script (system.contents script)
    ok (record { status = 0; output = cout (codes "Lint OK\n") })
