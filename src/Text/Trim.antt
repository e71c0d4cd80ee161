-- ===== src/Text/Trim.antt =====
-- `trim` of src/StringUtil.cpp.
use ahk_unix.Base.{
  ℕ, Bool, ◌&&◌, ◌||◌, [], ◌∷◌, ◌≡◌, refl, ap, ◌∙◌, arith, ◌==◌, if◌then◌else◌, Bytes, is_empty,
  length, ◌≤◌,
}

-- What is taken off at the end, and at the start.
unfoldable pub is_trailing : ℕ → Bool
is_trailing c = c == b'\r' || c == b'\n' || c == b' ' || c == b'\t'

unfoldable pub is_leading : ℕ → Bool
is_leading c = c == b' ' || c == b'\t'

-- `while (!s.empty() && p(s.back())) s.pop_back();`
unfoldable pub drop_last_while : (ℕ → Bool) → Bytes → Bytes
drop_last_while p [] = []
drop_last_while p (c ∷ s) =
    let rest = drop_last_while p s in if is_empty rest && p c then [] else c ∷ rest

unfoldable pub drop_while : (ℕ → Bool) → Bytes → Bytes
drop_while p [] = []
drop_while p (c ∷ s) = let rest = drop_while p s in if p c then rest else c ∷ s

unfoldable pub trim : Bytes → Bytes
unfolding is_trailing is_leading drop_last_while drop_while
trim s = drop_while is_leading (drop_last_while is_trailing s)

pub drop_last_while_idem :
    (p : ℕ → Bool) (s : Bytes) → drop_last_while p (drop_last_while p s) ≡ drop_last_while p s
unfolding drop_last_while
drop_last_while_idem p [] = refl
drop_last_while_idem p (c ∷ s) = ground (arith, drop_last_while_idem p s)

pub drop_while_idem : (p : ℕ → Bool) (s : Bytes) → drop_while p (drop_while p s) ≡ drop_while p s
unfolding drop_while
drop_while_idem p [] = refl
drop_while_idem p (c ∷ s) = ground (arith, drop_while_idem p s)

pub tail-drop_last_while :
    (p : ℕ → Bool) (c : ℕ) (s : Bytes) → drop_last_while p (c ∷ s) ≡ c ∷ s → drop_last_while p s ≡ s
unfolding drop_last_while
tail-drop_last_while p c s h = ground arith

pub drop_last_while-drop_while :
    (p q : ℕ → Bool) (s : Bytes)
    → drop_last_while p s ≡ s
    → drop_last_while p (drop_while q s) ≡ drop_while q s
unfolding drop_while
drop_last_while-drop_while p q [] h = h
drop_last_while-drop_while p q (c ∷ s) h =
    ground (arith, drop_last_while-drop_while p q s (tail-drop_last_while p c s h))

-- Trimming twice is trimming once.
pub trim_idem : (s : Bytes) → trim (trim s) ≡ trim s
unfolding trim
trim_idem s =
    ap (drop_while is_leading) (
      drop_last_while-drop_while is_trailing is_leading (drop_last_while is_trailing s)
        (drop_last_while_idem is_trailing s))
    ∙ drop_while_idem is_leading (drop_last_while is_trailing s)

length-drop_last_while : (p : ℕ → Bool) (s : Bytes) → length (drop_last_while p s) ≤ length s
unfolding drop_last_while
length-drop_last_while p [] = omega arith
length-drop_last_while p (c ∷ s) = ground (arith, length-drop_last_while p s)

length-drop_while : (p : ℕ → Bool) (s : Bytes) → length (drop_while p s) ≤ length s
unfolding drop_while
length-drop_while p [] = omega arith
length-drop_while p (c ∷ s) = ground (arith, length-drop_while p s)

pub length-trim : (s : Bytes) → length (trim s) ≤ length s
unfolding trim
length-trim s = omega (
  arith,
  length-drop_while is_leading (drop_last_while is_trailing s),
  length-drop_last_while is_trailing s,
)
