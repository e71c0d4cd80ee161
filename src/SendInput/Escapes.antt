-- ===== src/SendInput/Escapes.antt =====
-- Escaped texts in `SendInput` sequences: which texts can be written, and the escape that cannot.
use ahk_unix.Base.{
  ℕ, zero, suc, ◌<◌, ◌≤◌, true, false, List, [], ◌∷◌, ◌++◌, ◌≡◌, refl, sym, ap, ◌∙◌, arith, inl,
  inr, Bool-cases, ◌==◌, if◌then◌else◌, Bytes, length, Result, ok, throw, codes, append-nil,
  append_assoc, ==_iff,
}
use ahk_unix.Text.Find.{Lacks, Lacks-append}
use ahk_unix.Text.Chars.{equal}
use ahk_unix.Text.Number.{extract_word}
use ahk_unix.Text.Token.{scan_plain, scan_token}
use ahk_unix.Layout.{lookup, special_keys, parse_special_key}
use ahk_unix.Command.{Part, text_part}
use ahk_unix.SendInput.{
  is_literal, append_text, append_nonempty, special_part, parse_token, parse_loop, parse_sequence,
}

-- A text as a script writes it: each `{` as `{{}`.
unfoldable pub escape : Bytes → Bytes
escape [] = []
escape (c ∷ t) = let rest = escape t in if c == b'{' then codes "{{}" ++ rest else c ∷ rest

-- The parts that hold one text.
abbrev pub one_text : Bytes → List Part
one_text [] = []
one_text (c ∷ t) = text_part (c ∷ t) ∷ []

append_text-one_text : (u s : Bytes) → append_text (one_text u) s ≡ one_text (u ++ s)
unfolding append_text append_nonempty
append_text-one_text [] [] = refl
append_text-one_text [] (c ∷ s) = refl
append_text-one_text (x ∷ u) [] = rw append-nil
append_text-one_text (x ∷ u) (c ∷ s) = refl

parse_token_brace :
    (u a : Bytes) → parse_token (one_text u) a (b'{' ∷ []) ≡ ok (one_text (u ++ a ++ b'{' ∷ []))
unfolding parse_token is_literal equal
parse_token_brace u a = ap ok (
    ap (λ p. append_text p (b'{' ∷ [])) (append_text-one_text u a)
    ∙ append_text-one_text (u ++ a) (b'{' ∷ []))

Lacks-one : (c x : ℕ) → (x == c) ≡ false → Lacks c (x ∷ [])
Lacks-one c x h = (h, tt)

parse_loop_plain :
    (f : ℕ) (rest : Bytes) (parts : List Part)
    → Lacks b'{' rest
    → parse_loop (suc f) rest parts ≡ ok (append_text parts rest)
unfolding parse_loop
parse_loop_plain f rest parts h = ground (arith, scan_plain rest h)

parse_loop_token :
    (f : ℕ) (parts longer : List Part) (before cmd next : Bytes)
    → Lacks b'{' before
    → Lacks b'}' cmd
    → parse_token parts before cmd ≡ ok longer
    → parse_loop (suc f) (before ++ b'{' ∷ (cmd ++ b'}' ∷ next)) parts ≡ parse_loop f next longer
unfolding parse_loop
parse_loop_token f parts longer before cmd next h k made =
    ground (arith, scan_token before cmd next h k, made)

regroup :
    (u a : Bytes) (c : ℕ) (t : Bytes)
    → (c == b'{') ≡ true
    → u ++ a ++ b'{' ∷ [] ++ t ≡ u ++ (a ++ c ∷ t)
regroup u a c t e = rw ((==_iff c b'{').0 e) (simp append_assoc)

escape-brace : (c : ℕ) (t : Bytes) → (c == b'{') ≡ true → escape (c ∷ t) ≡ codes "{{}" ++ escape t
unfolding escape
escape-brace c t e = rw e

escape-other : (c : ℕ) (t : Bytes) → (c == b'{') ≡ false → escape (c ∷ t) ≡ c ∷ escape t
unfolding escape
escape-other c t e = rw e

parse_loop-escape :
    (t a u : Bytes) (f : ℕ)
    → Lacks b'{' a
    → length t < f
    → parse_loop f (a ++ escape t) (one_text u) ≡ ok (one_text (u ++ (a ++ t)))
parse_loop-escape t a u zero h l = elim l [ ]
parse_loop-escape [] a u (suc f) h l =
    unfold escape in
    rw append-nil (parse_loop_plain f a (one_text u) h ∙ ap ok (append_text-one_text u a))
parse_loop-escape (c ∷ t) a u (suc f) h l = elim (Bool-cases (c == b'{')) [
  | inl e ↦ parse_step (escape-brace c t e) (
      parse_loop_token f (one_text u) _ a (b'{' ∷ []) (escape t) h (Lacks-one b'}' b'{' refl)
        (parse_token_brace u a)
      ∙ parse_loop-escape t [] (u ++ a ++ b'{' ∷ []) f tt (omega arith)
      ∙ ap (λ s. ok (one_text s)) (regroup u a c t e))
  | inr e ↦ parse_step (escape-other c t e) (
      ap (λ s. parse_loop (suc f) s (one_text u)) (sym (append_assoc a (c ∷ []) (escape t)))
      ∙ parse_loop-escape t (a ++ c ∷ []) u (suc f)
          (Lacks-append b'{' a (c ∷ []) h (Lacks-one b'{' c e)) (omega arith)
      ∙ ap (λ s. ok (one_text (u ++ s))) (append_assoc a (c ∷ []) t))
]
  where
    parse_step :
        {s : Bytes} {r : Result (List Part)}
        → escape (c ∷ t) ≡ s
        → parse_loop (suc f) (a ++ s) (one_text u) ≡ r
        → parse_loop (suc f) (a ++ escape (c ∷ t)) (one_text u) ≡ r
    parse_step e p = ap (λ s. parse_loop (suc f) (a ++ s) (one_text u)) e ∙ p

length-escape : (t : Bytes) → length t ≤ length (escape t)
unfolding escape
length-escape [] = omega arith
length-escape (c ∷ t) = elim (Bool-cases (c == b'{')) [
  | inl e ↦ rw e (omega (arith, length-escape t))
  | inr e ↦ rw e (omega (arith, length-escape t))
]

-- Every text can be written: its escaped form is parsed to this one text, or to no part if the text
-- is empty.
pub parse_sequence-escape : (t : Bytes) → parse_sequence (escape t) ≡ ok (one_text t)
unfolding parse_sequence
parse_sequence-escape t = parse_loop-escape t [] [] _ tt (omega (arith, length-escape t))

special_part_nil : special_part [] ≡ throw "unknown special key: " []
unfolding special_part extract_word parse_special_key lookup special_keys
special_part_nil = refl

parse_token_nil :
    (parts : List Part) (before : Bytes)
    → parse_token parts before [] ≡ throw "unknown special key: " []
unfolding parse_token is_literal equal
parse_token_nil parts before = ground (arith, special_part_nil)

-- The escape `{}}` is never read as a `}`: where it is the first bracket of a sequence, the sequence
-- is refused with the empty text as an unknown key, whatever stands before it and behind it.
pub parse_sequence_closing_brace :
    (before next : Bytes)
    → Lacks b'{' before
    → parse_sequence (before ++ (codes "{}}" ++ next)) ≡ throw "unknown special key: " []
unfolding parse_sequence parse_loop
parse_sequence_closing_brace before next h =
    ground (arith, scan_token before [] (b'}' ∷ next) h tt, parse_token_nil [] before)
