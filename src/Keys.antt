-- ===== src/Keys.antt =====
-- The key codes of <linux/input-event-codes.h> that the program names, KEY_LEFT as `key_left`.
-- The values are those that the kernel's interface fixes; the tables of Layout.antt write the rest
-- of them in place, each beside the text that it belongs to.
use ahk_unix.Base.{ℕ}

abbrev pub key_backspace : ℕ
key_backspace = 14

abbrev pub key_tab : ℕ
key_tab = 15

abbrev pub key_enter : ℕ
key_enter = 28

abbrev pub key_space : ℕ
key_space = 57

abbrev pub key_esc : ℕ
key_esc = 1

abbrev pub key_left : ℕ
key_left = 105

abbrev pub key_right : ℕ
key_right = 106

abbrev pub key_up : ℕ
key_up = 103

abbrev pub key_down : ℕ
key_down = 108

abbrev pub key_home : ℕ
key_home = 102

abbrev pub key_end : ℕ
key_end = 107

abbrev pub key_delete : ℕ
key_delete = 111

abbrev pub key_v : ℕ
key_v = 47

abbrev pub key_leftctrl : ℕ
key_leftctrl = 29

abbrev pub key_rightctrl : ℕ
key_rightctrl = 97

abbrev pub key_leftalt : ℕ
key_leftalt = 56

abbrev pub key_rightalt : ℕ
key_rightalt = 100

abbrev pub key_leftshift : ℕ
key_leftshift = 42

abbrev pub key_rightshift : ℕ
key_rightshift = 54

abbrev pub key_leftmeta : ℕ
key_leftmeta = 125

abbrev pub key_rightmeta : ℕ
key_rightmeta = 126

-- Event types: EV_SYN and EV_KEY.
abbrev pub ev_syn : ℕ
ev_syn = 0

abbrev pub ev_key : ℕ
ev_key = 1
