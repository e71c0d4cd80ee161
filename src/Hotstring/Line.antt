-- ===== src/Hotstring/Line.antt =====
-- `AhkParser::parse_hotstring_line`.
use ahk_unix.Base.{
  ℕ, ◌+◌, ◌-◌, ◌%◌, ◌^◌, true, false, [], Option, none, some, ◌==◌, if◌then◌else◌, Bytes, take,
  drop, Result, ok, ◌>>=◌, throw, codes,
}
use ahk_unix.Text.Chars.{starts_with}
use ahk_unix.Text.Find.{find, rfind, substr}
use ahk_unix.Text.Trim.{trim}
use ahk_unix.Layout.{Table}
use ahk_unix.Hotstring.{Hotstring, empty_hotstring}
use ahk_unix.Hotstring.Trigger.{parse_trigger_expr}
use ahk_unix.Hotstring.Replacement.{parse_replacement}

-- `std::size_t` arithmetic: a - b, modulo 2^64.
abbrev pub sub_size : ℕ → ℕ → ℕ
sub_size a b = (a + 2 ^ 64 - b) % 2 ^ 64

-- `line.rfind(':', pos - 1)`: for `pos = 0` the position wraps to `npos`, and the whole line is
-- searched.
unfoldable pub rfind_before : Bytes → ℕ → Option ℕ
rfind_before line pos = rfind b':' (if pos == 0 then line else take pos line)

-- The trigger and the replacement of a line.
unfoldable pub split_line : Bytes → Result (Bytes × Bytes)
split_line line = elim (find (codes "::") line) [
  | none ↦ throw "AHK hotstring has no trigger separator" []
  | some separator ↦ elim (starts_with line (codes ":")) [
    | true ↦ elim (rfind_before line separator) [
      | none ↦ throw "AHK hotstring has malformed options" []
      | some trigger_start ↦ ok (
        substr line (trigger_start + 1) (sub_size (sub_size separator trigger_start) 1),
        drop (separator + 2) line,
      )
    ]
    | false ↦ ok (take separator line, drop (separator + 2) line)
  ]
]

unfoldable pub parse_hotstring_line : Table → Bytes → Result Hotstring
parse_hotstring_line layout line = do
  (trigger, replacement) ← split_line line
  (trigger_keys, modifiers) ← parse_trigger_expr layout (trim trigger)
  parse_replacement replacement (record empty_hotstring {
    trigger_keys = trigger_keys;
    trigger_modifiers = modifiers;
    erase_trigger = starts_with line (codes ":");
  })
