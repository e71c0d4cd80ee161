-- ===== src/Script/Patterns.antt =====
-- The two regular expressions of `ScriptParser::parse_simple_command`.
use ahk_unix.Base.{[], ◌∷◌, Option, some, Bytes, codes}
use ahk_unix.Text.Regex.{skip_space, match_char, match_ident, match_int, match_end, ◌>>=◌}

-- A literal word, as it stands.
unfoldable pub match_word : Bytes → Bytes → Option Bytes
unfolding match_char
match_word [] s = some s
match_word (c ∷ p) s = match_char c s >>= match_word p

-- `^\s*random\s*,\s*([A-Za-z_]\w*)\s*,\s*(-?\d+)\s*,\s*(-?\d+)\s*$`
unfoldable pub match_random : Bytes → Option (Bytes × Bytes × Bytes)
unfolding match_word match_char match_ident match_int
match_random line = do
  s ← match_word (codes "random") (skip_space line)
  s ← match_char b',' (skip_space s)
  (name, s) ← match_ident (skip_space s)
  s ← match_char b',' (skip_space s)
  (lo, s) ← match_int (skip_space s)
  s ← match_char b',' (skip_space s)
  (hi, s) ← match_int (skip_space s)
  match_end (name, lo, hi) (skip_space s)

-- `^\s*([A-Za-z_]\w*)\+\+\s*$`
unfoldable pub match_increment : Bytes → Option Bytes
unfolding match_char match_ident
match_increment line = do
  (name, s) ← match_ident (skip_space line)
  s ← match_char b'+' s
  s ← match_char b'+' s
  match_end name (skip_space s)
