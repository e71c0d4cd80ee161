-- ===== src/ScriptFile/Tests.antt =====
-- An example of a script.
use ahk_unix.Base.{false, [], ◌∷◌, ◌≡◌, refl, map, is_empty, Bytes, codes, some, ok}
use ahk_unix.Layout.{russian_qwerty}
use ahk_unix.Hotstring.{empty_hotstring}
use ahk_unix.Text.Chars.{to_lower, equal, starts_with}
use ahk_unix.Text.Find.{find, split_at}
use ahk_unix.Text.Token.{scan}
use ahk_unix.Text.Trim.{trim}
use ahk_unix.Layout.{lookup, special_keys, parse_special_key}
use ahk_unix.Hotstring.Trigger.{parse_keys, trigger_loop, parse_trigger_expr}
use ahk_unix.Hotstring.Replacement.{replacement_loop, parse_replacement}
use ahk_unix.Hotstring.Line.{split_line, parse_hotstring_line}
use ahk_unix.ScriptFile.Classify.{
  get_lines, is_comment_or_empty, starts_with_ci, starts_with_command_ci, is_action,
  is_trigger_name, looks_like_trigger_line, assignment,
}
use ahk_unix.ScriptFile.Loop.{
  flush_pending, located, trigger_line, file_step, file_loop, finish, ScriptFile, parse_file,
}
use ahk_unix.ScriptFile.Order.{trigger_of}
use ahk_unix.ScriptFile.Picks.{Picks, parse_file-Picks}
use ahk_unix.ScriptFile.Fuel.{parse_file-fuel}
use ahk_unix.Base.{◌≢◌, err, Error}

abbrev pub script : Bytes
script = codes "F5::a"

abbrev pub parsed : ScriptFile
parsed = record {
  hotstrings =
      (record empty_hotstring {
        trigger_keys = 63 ∷ [];
        erase_trigger = false;
        replacement_utf8 = codes "a";
      })
      ∷ [];
  globals = [];
}

pub script-parsed : parse_file russian_qwerty [] (some script) ≡ ok parsed
unfolding parse_file file_loop get_lines file_step starts_with trim is_comment_or_empty assignment
    split_at looks_like_trigger_line is_action starts_with_command_ci starts_with_ci to_lower equal
    find is_trigger_name located parse_hotstring_line split_line parse_trigger_expr trigger_loop
    parse_special_key lookup special_keys parse_replacement replacement_loop scan trigger_line
    flush_pending finish parse_keys
script-parsed = refl

parse_file-Picks_example :
    (is_empty parsed.hotstrings ≡ false)
    × Picks russian_qwerty (get_lines [] script) (map trigger_of parsed.hotstrings)
parse_file-Picks_example = parse_file-Picks russian_qwerty [] script parsed script-parsed

parse_file-fuel_example : parse_file russian_qwerty [] (some script) ≢ err Error.out_of_fuel
parse_file-fuel_example = parse_file-fuel russian_qwerty [] (some script)
