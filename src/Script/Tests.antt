-- ===== src/Script/Tests.antt =====
-- Examples of command blocks.
use ahk_unix.Base.{[], ◌≡◌, ◌≢◌, refl, codes, some, ok, err, Error, false}
use ahk_unix.Base.Int.{pos}
use ahk_unix.Command.{sleep, cancel}
use ahk_unix.Text.Chars.{equal, starts_with}
use ahk_unix.Text.Number.{read_signed, convert, sto}
use ahk_unix.Script.Simple.{strip_comma, arguments, parse_sleep, parse_simple_command}
use ahk_unix.Script.Lines.{starts_with_command}
use ahk_unix.Script.Blocks.{parse_block_lines, enough_fuel, parse_action_block}
use ahk_unix.Script.Nesting.{
  plain, chain, Statements, done, then_do, else_do, else_if, lines_of, meaning, AllFine, fine_done,
  fine_then, fine_plain, fine_chain, fine_else, fine_else_if,
}
use ahk_unix.Script.RoundTrip.{parse_block_lines-lines_of}
use ahk_unix.Script.Fuel.{parse_action_block-fuel}

-- A line `sleep 5` or `pause`.
abbrev pause_line : Statements
pause_line = then_do (plain (codes "pause") (some cancel)) done

abbrev sleep_line : Statements
sleep_line = then_do (plain (codes "sleep 5") (some (sleep (pos 5)))) done

abbrev statements : Statements
statements =
    then_do (chain (codes "x=1") sleep_line (else_if (codes "x=2") pause_line (else_do sleep_line)))
      pause_line

pause-AllFine : AllFine pause_line
unfolding starts_with_command starts_with equal parse_simple_command parse_sleep arguments
    strip_comma sto convert
pause-AllFine =
    fine_then
      (fine_plain (record { no_brace = refl; no_if = refl; no_else_line = refl; reads = refl }))
      fine_done

sleep_reads : parse_simple_command (codes "sleep 5") ≡ ok (some (sleep (pos 5)))
unfolding parse_simple_command starts_with_command starts_with parse_sleep arguments strip_comma sto
    convert read_signed
sleep_reads = refl

sleep-AllFine : AllFine sleep_line
unfolding starts_with_command starts_with equal parse_simple_command parse_sleep arguments
    strip_comma sto convert
sleep-AllFine =
    fine_then
      (fine_plain
        (record { no_brace = refl; no_if = refl; no_else_line = refl; reads = sleep_reads }))
      fine_done

statements-AllFine : AllFine statements
statements-AllFine =
    fine_then
      (fine_chain (refl, (refl, (refl, tt))) sleep-AllFine
        (fine_else_if (refl, (refl, (refl, tt))) pause-AllFine (fine_else sleep-AllFine)))
      pause-AllFine

parse_block_lines-lines_of_example :
    let lines = lines_of statements [] in
    parse_block_lines (enough_fuel lines) lines false ≡ ok (meaning statements, [])
parse_block_lines-lines_of_example = parse_block_lines-lines_of statements statements-AllFine

parse_action_block-fuel_example : parse_action_block (codes "if (x=1)") ≢ err Error.out_of_fuel
parse_action_block-fuel_example = parse_action_block-fuel (codes "if (x=1)")
