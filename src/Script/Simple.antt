-- ===== src/Script/Simple.antt =====
-- `ScriptParser::parse_simple_command`. `ok none` is the null pointer.
use ahk_unix.Base.{
  ℕ, ◌||◌, [], ◌∷◌, Option, none, some, ◌==◌, if◌then◌else◌, Bytes, is_empty, length, drop, Result,
  ok, ◌>>=◌, throw, codes,
}
use ahk_unix.Base.Int.{ℤ, pos, ltb_ℤ}
use ahk_unix.Text.Trim.{trim}
use ahk_unix.Text.Number.{stoi}
use ahk_unix.Command.{Command, send_input, sleep, random_assign, increment, cancel, show_markdown}
use ahk_unix.SendInput.{parse_sequence}
use ahk_unix.Script.Lines.{starts_with_command}
use ahk_unix.Script.Patterns.{match_random, match_increment}

unfoldable pub strip_comma : Bytes → Bytes
unfolding trim
strip_comma [] = []
strip_comma (c ∷ s) = if c == b',' then trim s else c ∷ s

-- The text behind a command word of `n` characters, without its comma.
unfoldable pub arguments : ℕ → Bytes → Bytes
arguments n line = strip_comma (trim (drop n line))

unfoldable pub parse_send_input : Bytes → Result (Option Command)
parse_send_input line =
    let args = arguments (length (codes "sendinput")) line in
    if is_empty args
    then throw "SendInput requires arguments" []
    else do parts ← parse_sequence args; ok (some (send_input args parts))

-- `SleepCommand::SleepCommand`
abbrev pub sleep_command : ℤ → Command
sleep_command milliseconds = sleep (if ltb_ℤ milliseconds (pos 0) then pos 0 else milliseconds)

unfoldable pub parse_sleep : Bytes → Result (Option Command)
parse_sleep line =
    let args = arguments (length (codes "sleep")) line in
    if is_empty args
    then throw "Sleep requires milliseconds value" []
    else do n ← stoi args; ok (some (sleep_command n))

unfoldable pub parse_random : Bytes → Result (Option Command)
parse_random line = elim (match_random line) [
  | none ↦ throw "invalid Random syntax: " line
  | some (name, lo, hi) ↦ do
    min_val ← stoi lo
    max_val ← stoi hi
    ok (some (random_assign name min_val max_val))
]

unfoldable pub parse_show_markdown : Bytes → Result (Option Command)
parse_show_markdown line =
    let args = arguments (length (codes "showmarkdown")) line in
    if is_empty args
    then throw "ShowMarkdown requires a file path argument" []
    else ok (some (show_markdown args))

unfoldable pub parse_increment : Bytes → Result (Option Command)
parse_increment line = elim (match_increment line) [
  | none ↦ ok none
  | some name ↦ ok (some (increment name))
]

unfoldable pub parse_simple_command : Bytes → Result (Option Command)
parse_simple_command line =
    if starts_with_command line (codes "sendinput")
    then parse_send_input line
    else if starts_with_command line (codes "sleep")
    then parse_sleep line
    else if starts_with_command line (codes "random")
    then parse_random line
    else if starts_with_command line (codes "sendmessage")
        || starts_with_command line (codes "input")
        || starts_with_command line (codes "return")
    then ok none
    else if starts_with_command line (codes "cancel") || starts_with_command line (codes "pause")
    then ok (some cancel)
    else if starts_with_command line (codes "showmarkdown")
    then parse_show_markdown line
    else parse_increment line
