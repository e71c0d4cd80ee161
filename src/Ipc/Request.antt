-- ===== src/Ipc/Request.antt =====
-- The texts of src/daemon/IpcServer.cpp: `trim_copy`, `single_line_error` and `normalize_command`.
use ahk_unix.Base.{ℕ, Bool, not, [], ◌∷◌, ◌++◌, arith, ◌==◌, if◌then◌else◌, Bytes}
use ahk_unix.Text.Chars.{is_space, to_upper}
use ahk_unix.Text.Trim.{drop_while, drop_last_while}
use ahk_unix.Text.Number.{span}
use ahk_unix.Text.Find.{Lacks}

unfoldable pub trim_copy : Bytes → Bytes
unfolding drop_last_while drop_while is_space
trim_copy text = drop_last_while is_space (drop_while is_space text)

abbrev pub blank_newline : ℕ → ℕ
blank_newline c = if c == b'\n' then b' ' else if c == b'\r' then b' ' else c

unfoldable pub single_line_error : Bytes → Bytes
single_line_error [] = []
single_line_error (c ∷ message) = blank_newline c ∷ single_line_error message

unfoldable pub is_verb_char : ℕ → Bool
unfolding is_space
is_verb_char c = not (is_space c)

-- `std::transform` of the verb
unfoldable pub upper : Bytes → Bytes
unfolding to_upper
upper [] = []
upper (c ∷ s) = to_upper c ∷ upper s

unfoldable pub upper_verb : Bytes → Bytes
unfolding upper span is_verb_char
upper_verb text = let (verb, rest) = span is_verb_char text in upper verb ++ rest

unfoldable pub normalize_command : Bytes → Bytes
unfolding upper_verb trim_copy
normalize_command command = upper_verb (trim_copy command)

pub single_line_error-Lacks : (message : Bytes) → Lacks b'\n' (single_line_error message)
unfolding single_line_error
single_line_error-Lacks [] = tt
single_line_error-Lacks (c ∷ message) = (ground arith, single_line_error-Lacks message)
