-- ===== src/Hotstring.antt =====
-- include/ahkunix/Hotstring.hpp, and the parser of one trigger line in src/AhkParser.cpp:
-- `split_utf8`, `parse_trigger_expr`, `parse_replacement` and `parse_hotstring_line`.
pub mod Trigger
pub mod Replacement
pub mod Line
pub mod Utf8
pub mod Split
pub mod Modifier
pub mod Tails
pub mod Fuel
mod Tests
use ahk_unix.Base.{ℕ, Bool, true, List, [], Bytes}
use ahk_unix.Base.Int.{ℤ}
use ahk_unix.Command.{Commands, nil}

-- The field `require_all_modifiers` is never read and is left out. `context` is shared by all
-- hotstrings of a file: ScriptFile.antt returns it beside them.
pub record Hotstring : Type 0 where
  pub trigger_keys : List ℕ
  pub trigger_modifiers : List ℕ
  pub erase_trigger : Bool
  pub commands : Commands
  pub replacement_utf8 : Bytes
  pub tail_keys : List (ℕ × ℤ)

-- `Hotstring hs;`
abbrev pub empty_hotstring : Hotstring
empty_hotstring = record {
  trigger_keys = [];
  trigger_modifiers = [];
  erase_trigger = true;
  commands = nil;
  replacement_utf8 = [];
  tail_keys = [];
}
