-- ===== src/SendInput/Tests.antt =====
-- Examples of `SendInput` sequences.
use ahk_unix.Base.{List, [], ◌∷◌, ◌≡◌, refl, Bytes, codes, ok}
use ahk_unix.Base.Int.{pos}
use ahk_unix.Command.{Part, text_part, key_part}
use ahk_unix.Text.Find.{split_at}
use ahk_unix.Text.Token.{scan}
use ahk_unix.Text.Number.{extract_word, extract_int}
use ahk_unix.Layout.{lookup, special_keys, parse_special_key}
use ahk_unix.SendInput.{special_part, parse_token, parse_loop, parse_sequence}
use ahk_unix.SendInput.Parts.{IsNormal, parse_sequence-IsNormal}
use ahk_unix.SendInput.Escapes.{escape, one_text, parse_sequence-escape}

abbrev sequence : Bytes
sequence = codes "a{Left 2}b{!}"

abbrev parts : List Part
parts = text_part (codes "a") ∷ key_part 105 (pos 2) ∷ text_part (codes "b!") ∷ []

sequence-parts : parse_sequence sequence ≡ ok parts
unfolding parse_sequence parse_loop scan split_at parse_token special_part parse_special_key lookup
    special_keys extract_word extract_int
sequence-parts = refl

parse_sequence-IsNormal_example : IsNormal parts
parse_sequence-IsNormal_example = parse_sequence-IsNormal sequence {out = parts} sequence-parts

parse_sequence-escape_example : parse_sequence (escape (codes "a{b")) ≡ ok (one_text (codes "a{b"))
parse_sequence-escape_example = parse_sequence-escape (codes "a{b")
