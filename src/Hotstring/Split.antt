-- ===== src/Hotstring/Split.antt =====
-- How `parse_hotstring_line` splits its three kinds of lines into trigger and replacement.
use ahk_unix.Base.{
  ℕ, suc, ◌+◌, ◌-◌, ◌^◌, ◌<◌, true, false, [], ◌∷◌, ◌++◌, some, ◌≡◌, ◌≢◌, refl, ap, ◌∙◌, sym, arith,
  ◌==◌, Bytes, length, take, drop, length-append, append_assoc, ok, codes, take_all,
  drop-append_add, take-append_eq,
}
use ahk_unix.Text.Chars.{starts_with}
use ahk_unix.Text.Find.{find, rfind, Lacks}
use ahk_unix.Script.Headers.{rfind-append}
use ahk_unix.Hotstring.Line.{sub_size, rfind_before, split_line}

abbrev separator : Bytes
separator = codes "::"

-- `:options:trigger::replacement`, `trigger::replacement` and `::trigger::replacement`
abbrev pub option_line : Bytes → Bytes → Bytes → Bytes
option_line options trigger replacement =
    codes ":" ++ (options ++ (codes ":" ++ (trigger ++ (codes "::" ++ replacement))))

abbrev pub key_line : Bytes → Bytes → Bytes
key_line trigger replacement = trigger ++ (codes "::" ++ replacement)

abbrev pub bare_line : Bytes → Bytes → Bytes
bare_line trigger replacement = codes "::" ++ (trigger ++ (codes "::" ++ replacement))

-- A text without a colon in front of the separator is skipped.
find_skip :
    (a s : Bytes) (k : ℕ)
    → Lacks b':' a
    → find separator s ≡ some k
    → find separator (a ++ s) ≡ some (length a + k)
unfolding find starts_with
find_skip [] s k h e = e ∙ ap some (omega arith)
find_skip (x ∷ a) s k h e = ground (arith, find_skip a s k h.1 e)

find_here : (s : Bytes) → find separator (codes "::" ++ s) ≡ some 0
unfolding find starts_with
find_here s = refl

-- So is a single colon.
find_colon :
    (x : ℕ) (s : Bytes) (k : ℕ)
    → (x == b':') ≡ false
    → find separator (x ∷ s) ≡ some k
    → find separator (b':' ∷ x ∷ s) ≡ some (suc k)
unfolding find starts_with
find_colon x s k h e = ground (arith, h, e)

-- The line `trigger::replacement` is split at the separator.
pub split_line-key_line :
    (trigger replacement : Bytes)
    → Lacks b':' trigger
    → trigger ≢ []
    → split_line (key_line trigger replacement) ≡ ok (trigger, replacement)
unfolding split_line starts_with
split_line-key_line [] replacement h ne = absurd (ne refl)
split_line-key_line (x ∷ trigger) replacement h ne =
    let n = length trigger in
    let at : find separator (key_line (x ∷ trigger) replacement) ≡ some (suc n) =
      find_skip (x ∷ trigger) (codes "::" ++ replacement) 0 h (find_here replacement)
      ∙ ap some (omega arith) in
    ground (
      arith,
      at,
      h.0,
      take-append_eq trigger (codes "::" ++ replacement) n refl,
      drop-append_add (x ∷ trigger) (codes "::" ++ replacement) 2 (suc n + 2) (omega arith),
    )

-- A line with its first separator at `sep`, and the last colon before that at `start`.
split_parts :
    (line trigger replacement : Bytes) (sep start : ℕ)
    → starts_with line (codes ":") ≡ true
    → find separator line ≡ some sep
    → rfind b':' (take sep line) ≡ some start
    → start < sep
    → sep < 2 ^ 64
    → take (sep - start - 1) (drop (start + 1) line) ≡ trigger
    → drop (sep + 2) line ≡ replacement
    → split_line line ≡ ok (trigger, replacement)
unfolding split_line rfind_before
split_parts line trigger replacement sep start old at from l small t r =
    let width : sub_size (sub_size sep start) 1 ≡ sep - start - 1 = omega arith in
    ground (arith, old, at, from, width, t, r)

-- In `:options:trigger` in front of the separator, the pieces.
module _ (o : ℕ) (options : Bytes) (x : ℕ) (trigger tail : Bytes) where
  abbrev front : Bytes
  front = codes ":" ++ (o ∷ options ++ (codes ":" ++ x ∷ trigger))

  abbrev front_line : Bytes
  front_line = codes ":" ++ (o ∷ options ++ (codes ":" ++ (x ∷ trigger ++ tail)))

  front_line-append : front_line ≡ front ++ tail
  front_line-append =
      ap (λ s. codes ":" ++ s) (sym (append_assoc (o ∷ options) (codes ":" ++ x ∷ trigger) tail))

  length-front : length front ≡ length options + length trigger + 4
  length-front = omega (arith, length-append options (codes ":" ++ x ∷ trigger))

  find-front_line :
      Lacks b':' (o ∷ options)
      → Lacks b':' (x ∷ trigger)
      → find separator tail ≡ some 0
      → find separator front_line ≡ some (length options + length trigger + 4)
  find-front_line ho ht e =
      let inner = find_skip (x ∷ trigger) tail 0 ht e in
      let colon = find_colon x (trigger ++ tail) _ ht.0 inner in
      let skipped = find_skip (o ∷ options) (codes ":" ++ (x ∷ trigger ++ tail)) _ ho colon in
      find_colon o (options ++ (codes ":" ++ (x ∷ trigger ++ tail))) _ ho.0 skipped
      ∙ ap some (omega arith)

  trigger-front_line :
      (k : ℕ)
      → k ≡ suc (length trigger)
      → take k (drop (length options + 3) front_line) ≡ x ∷ trigger
  trigger-front_line k e =
      ap (take k) (
        drop-append_add (b':' ∷ o ∷ options) (codes ":" ++ (x ∷ trigger ++ tail)) 1
          (length options + 3) (omega arith))
      ∙ take-append_eq (x ∷ trigger) tail k e

-- The line `:options:trigger::replacement` is split behind its options and at the separator.
pub split_line-option_line :
    (options trigger replacement : Bytes)
    → Lacks b':' options
    → options ≢ []
    → Lacks b':' trigger
    → trigger ≢ []
    → length (option_line options trigger replacement) < 2 ^ 64
    → split_line (option_line options trigger replacement) ≡ ok (trigger, replacement)
unfolding starts_with
split_line-option_line [] trigger replacement ho po ht pt l = absurd (po refl)
split_line-option_line (o ∷ options) [] replacement ho po ht pt l = absurd (pt refl)
split_line-option_line (o ∷ options) (x ∷ trigger) replacement ho po ht pt l =
    let p = length options in
    let n = length trigger in
    let tail = codes "::" ++ replacement in
    let line = front_line o options x trigger tail in
    let size = length-front o options x trigger tail in
    let whole = front_line-append o options x trigger tail in
    let total = ap length whole ∙ length-append (front o options x trigger tail) tail in
    split_parts line (x ∷ trigger) replacement (p + n + 4) (p + 2) refl
      (find-front_line o options x trigger tail ho ht (find_here replacement))
      (ap (rfind b':') (
          ap (take (p + n + 4)) whole
          ∙ take-append_eq (front o options x trigger tail) tail (p + n + 4) (sym size))
        ∙ rfind-append b':' (b':' ∷ o ∷ options) (x ∷ trigger) ht
        ∙ ap some (omega arith))
      (omega arith) (omega (arith, total, size))
      (ap (λ k. take (p + n + 4 - (p + 2) - 1) (drop k line)) {y = p + 3} (omega arith)
        ∙ trigger-front_line o options x trigger tail _ (omega arith))
      (ap (drop (p + n + 4 + 2)) whole
        ∙ drop-append_add (front o options x trigger tail) tail 2 (p + n + 4 + 2)
            (omega (arith, size)))

-- The line `::trigger::replacement`, whose replacement holds no colon, is split at its last colon:
-- the replacement is taken for the trigger, and the rest of the line for the replacement.
pub split_line-bare_line :
    (trigger replacement : Bytes)
    → Lacks b':' replacement
    → length (bare_line trigger replacement) < 2 ^ 64
    → split_line (bare_line trigger replacement)
      ≡ ok (replacement, trigger ++ (codes "::" ++ replacement))
unfolding split_line starts_with rfind_before
split_line-bare_line trigger replacement h l =
    let n = length trigger in
    let last : rfind b':' (bare_line trigger replacement) ≡ some (n + 3) =
      ap (rfind b':') {y = (codes "::" ++ (trigger ++ codes ":")) ++ b':' ∷ replacement}
        (ap (λ s. codes "::" ++ s) (sym (append_assoc trigger (codes ":") (b':' ∷ replacement))))
      ∙ rfind-append b':' (codes "::" ++ (trigger ++ codes ":")) replacement h
      ∙ ap some (omega (arith, length-append trigger (codes ":"))) in
    ground (
      arith,
      find_here (trigger ++ (codes "::" ++ replacement)),
      last,
      drop-append_add trigger (codes "::" ++ replacement) 2 (n + 2) refl,
      take_all (sub_size (sub_size 0 (n + 3)) 1) replacement,
      length-append trigger (codes "::" ++ replacement),
    )
