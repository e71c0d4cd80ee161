-- ===== src/Startup/Arguments.antt =====
-- `parse_options` of src/daemon/main.cpp, and the start of its `main` up to the socket check.
use ahk_unix.Base.{
  ℕ, Bool, true, false, ◌||◌, List, [], ◌∷◌, Option, none, some, Bytes, is_empty, if◌then◌else◌,
  codes, Result, ok, err, throw, ◌>>=◌,
}
use ahk_unix.Text.Chars.{equal, starts_with}
use ahk_unix.Layout.{russian_qwerty}
use ahk_unix.Hotstring.{Hotstring}
use ahk_unix.ScriptFile.Loop.{parse_file}
use ahk_unix.Device.Detect.{autodetect_keyboard}
use ahk_unix.Startup.{Options}

-- One argument that takes none behind it: `none` for a word that prints the usage and exits.
unfoldable pub read_argument : Bytes → Options → Result (Option Options)
unfolding equal starts_with
read_argument arg options =
    if equal arg (codes "--foreground") || equal arg (codes "--no-daemon")
    then ok (some (record options { foreground = true }))
    else if equal arg (codes "--strict")
    then ok (some (record options { strict_mode = true }))
    else if equal arg (codes "--device")
    then throw "--device requires a path" []
    else if equal arg (codes "--help") || equal arg (codes "-h")
    then ok none
    else if starts_with arg (codes "--")
    then throw "unknown option: " arg
    else if is_empty options.script
    then ok (some (record options { script = arg }))
    else throw "multiple script paths provided" []

unfoldable pub options_loop : List Bytes → Options → Result (Option Options)
unfolding equal read_argument
options_loop [] options = ok (some options)
options_loop (arg ∷ []) options = read_argument arg options
options_loop (arg ∷ next ∷ args) options = elim (equal arg (codes "--device")) [
  | true ↦ options_loop args (record options { device = next })
  | false ↦ elim (read_argument arg options) [
    | err e ↦ err e
    | ok none ↦ ok none
    | ok (some read) ↦ options_loop (next ∷ args) read
  ]
]

-- `none`: the usage is printed and the program exits with 0.
unfoldable pub parse_options : List Bytes → Result (Option Options)
unfolding options_loop
parse_options args =
    options_loop args (record { device = []; script = []; foreground = false; strict_mode = false })

-- How `main` goes on: it exits with a status, or the daemon starts with these hotstrings.
pub data Start : Type 0 where
  exits : ℕ → Start
  starts : Options → List Hotstring → Start

-- What `main` asks the system: a file's contents, the lines of /proc/bus/input/devices, and whether a
-- daemon answers on the socket.
pub record Surroundings : Type 0 where
  pub contents : Bytes → Option Bytes
  pub input_devices : Option (List Bytes)
  pub socket_answers : Bool

unfoldable pub script_hotstrings : Surroundings → Options → Result (List Hotstring)
script_hotstrings system options = elim (is_empty options.script) [
  | true ↦ ok []
  | false ↦
      (parse_file russian_qwerty options.script (system.contents options.script) >>= λ f.
      ok f.hotstrings)
]

unfoldable pub with_device : Surroundings → Options → Result Options
unfolding autodetect_keyboard
with_device system options = elim (is_empty options.device) [
  | true ↦
      (autodetect_keyboard system.input_devices >>= λ device.
      ok (record options { device = device }))
  | false ↦ ok options
]

unfoldable pub start_with : Surroundings → Option Options → Result Start
unfolding script_hotstrings with_device
start_with system none = ok (exits 0)
start_with system (some options) = do
  hotstrings ← script_hotstrings system options
  found ← with_device system options
  ok (if system.socket_answers then exits 1 else starts found hotstrings)

unfoldable pub start : Surroundings → List Bytes → Start
unfolding parse_options start_with
start system args = elim (parse_options args >>= start_with system) [
  | ok next ↦ next
  | err e ↦ exits 1
]
