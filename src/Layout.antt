-- ===== src/Layout.antt =====
-- src/LayoutProfile.cpp: which key types a character, and the names of special and modifier keys.
-- Each table stands for one map or one chain of comparisons, in the order of the source.
pub mod Facts
mod Tests
use ahk_unix.Base.{
  ℕ, Bool, true, false, List, [], ◌∷◌, Option, none, some, if◌then◌else◌, Bytes, Result, ok, err,
  codes, throw,
}
use ahk_unix.Keys.{
  key_leftalt, key_leftctrl, key_leftshift, key_leftmeta, key_left, key_right, key_up, key_down,
  key_home, key_end, key_delete, key_space, key_enter, key_tab, key_backspace, key_esc,
}
use ahk_unix.Text.Chars.{equal}

abbrev pub Table : Type 0
Table = List (Bytes × ℕ)

unfoldable pub lookup : Bytes → Table → Option ℕ
unfolding equal
lookup name [] = none
lookup name ((k, v) ∷ t) = if equal name k then some v else lookup name t

-- The value found, or a `runtime_error` whose text ends with the name.
abbrev pub or_throw : Option ℕ → Result ℕ → Result ℕ
or_throw (some v) e = ok v
or_throw none e = e

-- A Cyrillic letter in UTF-8.
abbrev letter : ℕ → ℕ → Bytes
letter a b = a ∷ b ∷ []

-- `LayoutProfile::russian_qwerty`: KEY_Q to KEY_RIGHTBRACE, KEY_A to KEY_APOSTROPHE, KEY_Z to
-- KEY_DOT, and the digits.
unfoldable pub russian_qwerty : Table
russian_qwerty =
    (letter 0xD0 0xB9, 16)
    ∷ (letter 0xD1 0x86, 17)
    ∷ (letter 0xD1 0x83, 18)
    ∷ (letter 0xD0 0xBA, 19)
    ∷ (letter 0xD0 0xB5, 20)
    ∷ (letter 0xD0 0xBD, 21)
    ∷ (letter 0xD0 0xB3, 22)
    ∷ (letter 0xD1 0x88, 23)
    ∷ (letter 0xD1 0x89, 24)
    ∷ (letter 0xD0 0xB7, 25)
    ∷ (letter 0xD1 0x85, 26)
    ∷ (letter 0xD1 0x8A, 27)
    ∷ (letter 0xD1 0x84, 30)
    ∷ (letter 0xD1 0x8B, 31)
    ∷ (letter 0xD0 0xB2, 32)
    ∷ (letter 0xD0 0xB0, 33)
    ∷ (letter 0xD0 0xBF, 34)
    ∷ (letter 0xD1 0x80, 35)
    ∷ (letter 0xD0 0xBE, 36)
    ∷ (letter 0xD0 0xBB, 37)
    ∷ (letter 0xD0 0xB4, 38)
    ∷ (letter 0xD0 0xB6, 39)
    ∷ (letter 0xD1 0x8D, 40)
    ∷ (letter 0xD1 0x8F, 44)
    ∷ (letter 0xD1 0x87, 45)
    ∷ (letter 0xD1 0x81, 46)
    ∷ (letter 0xD0 0xBC, 47)
    ∷ (letter 0xD0 0xB8, 48)
    ∷ (letter 0xD1 0x82, 49)
    ∷ (letter 0xD1 0x8C, 50)
    ∷ (letter 0xD0 0xB1, 51)
    ∷ (letter 0xD1 0x8E, 52)
    ∷ (codes "1", 2)
    ∷ (codes "2", 3)
    ∷ (codes "3", 4)
    ∷ (codes "4", 5)
    ∷ (codes "5", 6)
    ∷ (codes "6", 7)
    ∷ (codes "7", 8)
    ∷ (codes "8", 9)
    ∷ (codes "9", 10)
    ∷ (codes "0", 11)
    ∷ []

unfoldable pub key_for_utf8_char : Table → Bytes → Result ℕ
key_for_utf8_char layout ch =
    or_throw (lookup ch layout) (throw "no key mapping for trigger char: " ch)

unfoldable pub special_keys : Table
special_keys =
    (codes "NumPad0", 82)
    ∷ (codes "Numpad0", 82)
    ∷ (codes "NumPad1", 79)
    ∷ (codes "Numpad1", 79)
    ∷ (codes "NumPad2", 80)
    ∷ (codes "Numpad2", 80)
    ∷ (codes "NumPad3", 81)
    ∷ (codes "Numpad3", 81)
    ∷ (codes "NumPad4", 75)
    ∷ (codes "Numpad4", 75)
    ∷ (codes "NumPad5", 76)
    ∷ (codes "Numpad5", 76)
    ∷ (codes "NumPad6", 77)
    ∷ (codes "Numpad6", 77)
    ∷ (codes "NumPad7", 71)
    ∷ (codes "Numpad7", 71)
    ∷ (codes "NumPad8", 72)
    ∷ (codes "Numpad8", 72)
    ∷ (codes "NumPad9", 73)
    ∷ (codes "Numpad9", 73)
    ∷ (codes "NumPadAdd", 78)
    ∷ (codes "NumPadMult", 55)
    ∷ (codes "NumPadDiv", 98)
    ∷ (codes "NumPadSub", 74)
    ∷ (codes "F1", 59)
    ∷ (codes "F2", 60)
    ∷ (codes "F3", 61)
    ∷ (codes "F4", 62)
    ∷ (codes "F5", 63)
    ∷ (codes "F6", 64)
    ∷ (codes "F7", 65)
    ∷ (codes "F8", 66)
    ∷ (codes "F9", 67)
    ∷ (codes "F10", 68)
    ∷ (codes "F11", 87)
    ∷ (codes "F12", 88)
    ∷ (codes "Left", key_left)
    ∷ (codes "Right", key_right)
    ∷ (codes "Up", key_up)
    ∷ (codes "Down", key_down)
    ∷ (codes "Home", key_home)
    ∷ (codes "End", key_end)
    ∷ (codes "PageUp", 104)
    ∷ (codes "PageDown", 109)
    ∷ (codes "Insert", 110)
    ∷ (codes "Delete", key_delete)
    ∷ (codes "Del", key_delete)
    ∷ (codes "Space", key_space)
    ∷ (codes "Enter", key_enter)
    ∷ (codes "Return", key_enter)
    ∷ (codes "Tab", key_tab)
    ∷ (codes "Backspace", key_backspace)
    ∷ (codes "BS", key_backspace)
    ∷ (codes "Escape", key_esc)
    ∷ (codes "Esc", key_esc)
    ∷ []

unfoldable pub parse_special_key : Bytes → Result ℕ
parse_special_key key_name =
    or_throw (lookup key_name special_keys) (throw "unknown special key: " key_name)

unfoldable pub modifier_keys : Table
modifier_keys =
    (codes "Alt", key_leftalt)
    ∷ (codes "LCtrl", key_leftctrl)
    ∷ (codes "Ctrl", key_leftctrl)
    ∷ (codes "Shift", key_leftshift)
    ∷ (codes "Meta", key_leftmeta)
    ∷ (codes "Super", key_leftmeta)
    ∷ (codes "Win", key_leftmeta)
    ∷ []

unfoldable pub parse_modifier_key : Bytes → Result ℕ
parse_modifier_key mod_name =
    or_throw (lookup mod_name modifier_keys) (throw "unknown modifier key: " mod_name)
