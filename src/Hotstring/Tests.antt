-- ===== src/Hotstring/Tests.antt =====
-- Examples of trigger lines.
use ahk_unix.Base.{List, [], ◌∷◌, ◌++◌, ◌≡◌, refl, arith, Bytes, codes, none, ok}
use ahk_unix.Base.Int.{pos}
use ahk_unix.Text.Chars.{equal}
use ahk_unix.Text.Number.{extract_word, extract_int}
use ahk_unix.Text.Trim.{trim}
use ahk_unix.Layout.{lookup, special_keys, parse_special_key}
use ahk_unix.SendInput.{is_literal}
use ahk_unix.Hotstring.{empty_hotstring}
use ahk_unix.Hotstring.Trigger.{split_loop, split_utf8}
use ahk_unix.Hotstring.Replacement.{tail_key, tail_command, parse_replacement}
use ahk_unix.Hotstring.Line.{split_line}
use ahk_unix.Hotstring.Split.{bare_line, split_line-bare_line}
use ahk_unix.Hotstring.Tails.{
  Piece, raw, literal, tap, written, text_of, keys_of, parse_replacement-written,
}

abbrev chars : List Bytes
chars = (104 ∷ []) ∷ (208 ∷ 185 ∷ []) ∷ []

chars_split : split_utf8 (104 ∷ 208 ∷ 185 ∷ []) ≡ ok chars
unfolding split_utf8 split_loop
chars_split = refl

split_line-bare_line_example :
    split_line (bare_line (codes "btw") (codes "by"))
    ≡ ok (codes "by", codes "btw" ++ (codes "::" ++ codes "by"))
split_line-bare_line_example =
    split_line-bare_line (codes "btw") (codes "by") (refl, (refl, tt)) (omega arith)

f1_key : parse_special_key (trim (codes " F1")) ≡ ok 59
unfolding parse_special_key lookup special_keys trim
f1_key = refl

hlo_unnamed : lookup (codes "hlo") special_keys ≡ none
unfolding lookup special_keys
hlo_unnamed = refl

lo_split : split_utf8 (codes "lo") ≡ ok (codes "l" ∷ codes "o" ∷ [])
unfolding split_utf8 split_loop
lo_split = refl

abbrev pieces : List Piece
pieces = raw (codes "a") ∷ literal (codes "!") ∷ tap (codes "Left 2") (105, pos 2) ∷ []

left_key : tail_command (codes "Left 2") ≡ ok (105, pos 2)
unfolding tail_command tail_key equal extract_word extract_int
left_key = refl

parse_replacement-written_example :
    parse_replacement (written pieces) empty_hotstring
    ≡ ok (record empty_hotstring {
      replacement_utf8 = text_of pieces;
      tail_keys = [] ++ keys_of pieces;
    })
unfolding is_literal equal
parse_replacement-written_example = parse_replacement-written pieces empty_hotstring (
  (refl, tt),
  ((refl, (refl, tt)), ((refl, (refl, (refl, (refl, (refl, (refl, (refl, tt)))))), left_key), tt)),
)
