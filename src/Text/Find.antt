-- ===== src/Text/Find.antt =====
-- `find`, `rfind` and `substr` of std::string. A position is an index, and `none` is `npos`.
use mathlib.Core.Option
use ahk_unix.Base.{
  ℕ, suc, ◌+◌, ◌<◌, false, [], ◌∷◌, ◌++◌, ◌≡◌, refl, Option, none, some, arith, ◌==◌, if◌then◌else◌,
  Bytes, take, drop, length, Option-cases, inl, inr,
}
use ahk_unix.Text.Chars.{starts_with}

-- `s.find(p)`
unfoldable pub find : Bytes → Bytes → Option ℕ
unfolding starts_with
find p [] = if starts_with [] p then some 0 else none
find p (x ∷ s) =
    let later = find p s in if starts_with (x ∷ s) p then some 0 else Option.map suc later

-- `s.find(p, pos)`
unfoldable pub find_from : Bytes → Bytes → ℕ → Option ℕ
unfolding find
find_from p s pos = Option.map (λ i. pos + i) (find p (drop pos s))

-- `s.rfind(c)`
unfoldable pub rfind : ℕ → Bytes → Option ℕ
rfind c [] = none
rfind c (x ∷ s) = elim (rfind c s) [
  | some i ↦ some (suc i)
  | none ↦ if x == c then some 0 else none
]

-- `s.substr(pos, len)`, where `pos` is at most `s.size()` at every call of the program.
abbrev pub substr : Bytes → ℕ → ℕ → Bytes
substr s pos len = take len (drop pos s)

-- The text before the first `c`, and the text behind it.
unfoldable pub split_at : ℕ → Bytes → Option (Bytes × Bytes)
split_at c [] = none
split_at c (x ∷ s) = elim (split_at c s) [
  | none ↦ if x == c then some ([], s) else none
  | some (a, b) ↦ if x == c then some ([], s) else some (x ∷ a, b)
]

-- No `c` occurs in the text.
abbrev pub Lacks : ℕ → Bytes → Type 0
Lacks c [] = Unit
Lacks c (x ∷ s) = ((x == c) ≡ false) × Lacks c s

pub Lacks-append : (c : ℕ) (a b : Bytes) → Lacks c a → Lacks c b → Lacks c (a ++ b)
Lacks-append c [] b h k = k
Lacks-append c (x ∷ a) b h k = (h.0, Lacks-append c a b h.1 k)

-- What `split_at` finds is the first `c`.
pub split_at-eq-some :
    (c : ℕ) (s : Bytes) {a b : Bytes} → split_at c s ≡ some (a, b) → (s ≡ a ++ c ∷ b) × Lacks c a
unfolding split_at
split_at-eq-some c [] e = cc
split_at-eq-some c (x ∷ s) {a} {b} e = elim (Option-cases (split_at c s)) [
  | inl h ↦ ground (arith, h)
  | inr ((a', b'), h) ↦ ground (arith, h, split_at-eq-some c s h)
]

pub split_at-append : (c : ℕ) (a b : Bytes) → Lacks c a → split_at c (a ++ c ∷ b) ≡ some (a, b)
unfolding split_at
split_at-append c [] b h = ground arith
split_at-append c (x ∷ a) b h = rw (split_at-append c a b h.1, split_at) (ground arith)

pub split_at-Lacks : (c : ℕ) (s : Bytes) → Lacks c s → split_at c s ≡ none
unfolding split_at
split_at-Lacks c [] h = refl
split_at-Lacks c (x ∷ s) h = ground (arith, split_at-Lacks c s h.1)

pub Lacks-split_at : (c : ℕ) (s : Bytes) → split_at c s ≡ none → Lacks c s
unfolding split_at
Lacks-split_at c [] h = tt
Lacks-split_at c (x ∷ s) h = elim (Option-cases (split_at c s)) [
  | inl e ↦ (ground (arith, e), Lacks-split_at c s e)
  | inr ((a', b'), e) ↦ absurd (ground (arith, e))
]

-- The parts are shorter than the text.
pub length-split_at :
    (c : ℕ) (s : Bytes) {a b : Bytes} → split_at c s ≡ some (a, b) → length b < length s
unfolding split_at
length-split_at c [] e = cc
length-split_at c (x ∷ s) {a} {b} e = elim (Option-cases (split_at c s)) [
  | inl h ↦ ground (arith, h)
  | inr ((a', b'), h) ↦ ground (arith, h, length-split_at c s h)
]
