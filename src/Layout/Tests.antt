-- ===== src/Layout/Tests.antt =====
-- Examples of the key tables.
use ahk_unix.Base.{[], ◌∷◌, ◌≡◌, refl, Bytes, ok}
use ahk_unix.Layout.{russian_qwerty, lookup, key_for_utf8_char}

abbrev short_i : Bytes
short_i = 208 ∷ 185 ∷ []

short_i_key : key_for_utf8_char russian_qwerty short_i ≡ ok 16
unfolding key_for_utf8_char russian_qwerty lookup
short_i_key = refl
