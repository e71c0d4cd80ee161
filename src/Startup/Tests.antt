-- ===== src/Startup/Tests.antt =====
-- An example of options.
use ahk_unix.Base.{true, false, ◌≡◌, refl, codes, some, ok}
use ahk_unix.Text.Chars.{starts_with, equal}
use ahk_unix.Startup.{Options}
use ahk_unix.Startup.Arguments.{parse_options}
use ahk_unix.Startup.Written.{arguments_of, parse_options-arguments_of}

abbrev options : Options
options = record {
  device = codes "/dev/x";
  script = codes "a.ahkl";
  foreground = true;
  strict_mode = false;
}

parse_options-arguments_of_example : parse_options (arguments_of options) ≡ ok (some options)
unfolding starts_with equal
parse_options-arguments_of_example = parse_options-arguments_of options (refl, refl)
