-- ===== src/Layout/Facts.antt =====
-- What the tables of src/LayoutProfile.cpp guarantee to the parser and to the daemon.
use ahk_unix.Base.{ℕ, Bool, true, ◌&&◌, not, [], ◌∷◌, ◌≡◌, refl, some, arith, ◌==◌, Bytes, ok}
use ahk_unix.Text.Chars.{equal_iff}
use ahk_unix.Layout.{Table, lookup, russian_qwerty, key_for_utf8_char}

-- Every value of the table passes a test.
all_values : (ℕ → Bool) → Table → Bool
all_values p [] = true
all_values p ((k, v) ∷ t) = p v && all_values p t

all_values-lookup :
    (p : ℕ → Bool) (t : Table) (name : Bytes) (v : ℕ)
    → all_values p t ≡ true
    → lookup name t ≡ some v
    → p v ≡ true
unfolding all_values lookup
all_values-lookup p [] name v h e = cc
all_values-lookup p ((k, w) ∷ t) name v h e = ground (arith, all_values-lookup p t name v)

-- No value occurs twice in the table.
distinct : Table → Bool
unfolding all_values
distinct [] = true
distinct ((k, v) ∷ t) = all_values (λ w. not (w == v)) t && distinct t

distinct-lookup :
    (t : Table) (a b : Bytes) (v : ℕ)
    → distinct t ≡ true
    → lookup a t ≡ some v
    → lookup b t ≡ some v
    → a ≡ b
unfolding distinct lookup
distinct-lookup [] a b v d ea eb = cc
distinct-lookup ((k, w) ∷ t) a b v d ea eb = ground (
  arith,
  equal_iff a k,
  equal_iff b k,
  all_values-lookup (λ x. not (x == w)) t a v,
  all_values-lookup (λ x. not (x == w)) t b v,
  distinct-lookup t a b v,
)

lookup-or_throw :
    (layout : Table) (ch : Bytes) {v : ℕ}
    → key_for_utf8_char layout ch ≡ ok v
    → lookup ch layout ≡ some v
unfolding key_for_utf8_char
lookup-or_throw layout ch e = ground arith

russian_qwerty-distinct : distinct russian_qwerty ≡ true
unfolding distinct russian_qwerty
russian_qwerty-distinct = refl

-- No two characters of the layout have the same key, so the keys of a trigger determine its text.
pub key_for_utf8_char_injective :
    (a b : Bytes) {v : ℕ}
    → key_for_utf8_char russian_qwerty a ≡ ok v
    → key_for_utf8_char russian_qwerty b ≡ ok v
    → a ≡ b
key_for_utf8_char_injective a b {v} ea eb =
    distinct-lookup russian_qwerty a b v russian_qwerty-distinct
      (lookup-or_throw russian_qwerty a ea) (lookup-or_throw russian_qwerty b eb)
