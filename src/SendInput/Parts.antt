-- ===== src/SendInput/Parts.antt =====
-- The parts of a `SendInput` sequence are well formed.
use ahk_unix.Base.{
  ℕ, zero, suc, ◌<◌, List, [], ◌∷◌, ◌++◌, if◌then◌else◌, ◌≡◌, ◌≢◌, arith, inl, inr, Bool-cases,
  Bytes, length, ok, err, Error, >>=-eq-ok, Result-cases,
}
use ahk_unix.Base.Int.{ℤ, pos, ◌≤ℤ◌, ltb_ℤ}
use ahk_unix.Text.Token.{scan_cases}
use ahk_unix.Text.Number.{extract_word, extract_int}
use ahk_unix.Layout.{parse_special_key}
use ahk_unix.Command.{Part, text_part, key_part}
use ahk_unix.SendInput.{
  is_literal, append_nonempty, append_text, special_part, parse_token, parse_loop, parse_sequence,
}

-- No text is empty, no two texts are neighbours, and each key is tapped at least once.
abbrev pub IsNormal : List Part → Type 0
IsNormal [] = Unit
IsNormal (key_part k n ∷ parts) = (pos 1 ≤ℤ n) × IsNormal parts
IsNormal (text_part t ∷ []) = t ≢ []
IsNormal (text_part t ∷ text_part u ∷ parts) = ⊥
IsNormal (text_part t ∷ key_part k n ∷ parts) = (t ≢ []) × (pos 1 ≤ℤ n) × IsNormal parts

append_nonempty-IsNormal :
    (parts : List Part) (c : ℕ) (s : Bytes)
    → IsNormal parts
    → IsNormal (append_nonempty parts (c ∷ s))
unfolding append_nonempty
append_nonempty-IsNormal [] c s h = λ e. cc
append_nonempty-IsNormal (text_part [] ∷ []) c s h = λ e. cc
append_nonempty-IsNormal (text_part (x ∷ t) ∷ []) c s h = λ e. cc
append_nonempty-IsNormal (key_part k n ∷ []) c s h = (h.0, λ e. cc)
append_nonempty-IsNormal (text_part t ∷ text_part u ∷ parts) c s h = absurd h
append_nonempty-IsNormal (text_part t ∷ key_part k n ∷ []) c s h = (h.0, h.1, λ e. cc)
append_nonempty-IsNormal (text_part t ∷ key_part k n ∷ q ∷ parts) c s h =
    (h.0, h.1, append_nonempty-IsNormal (q ∷ parts) c s h.2)
append_nonempty-IsNormal (key_part k n ∷ q ∷ parts) c s h =
    (h.0, append_nonempty-IsNormal (q ∷ parts) c s h.1)

append_text-IsNormal :
    (parts : List Part) (s : Bytes) → IsNormal parts → IsNormal (append_text parts s)
unfolding append_text
append_text-IsNormal parts [] h = h
append_text-IsNormal parts (c ∷ s) h = append_nonempty-IsNormal parts c s h

concat-IsNormal :
    (parts : List Part) (k : ℕ) (n : ℤ)
    → IsNormal parts
    → pos 1 ≤ℤ n
    → IsNormal (parts ++ key_part k n ∷ [])
concat-IsNormal [] k n h l = (l, tt)
concat-IsNormal (text_part t ∷ []) k n h l = (h, l, tt)
concat-IsNormal (text_part t ∷ text_part u ∷ parts) k n h l = absurd h
concat-IsNormal (text_part t ∷ key_part j m ∷ parts) k n h l =
    (h.0, h.1, concat-IsNormal parts k n h.2 l)
concat-IsNormal (key_part j m ∷ parts) k n h l = (h.0, concat-IsNormal parts k n h.1 l)

at_least_one-le : (n : ℤ) → pos 1 ≤ℤ (if ltb_ℤ n (pos 1) then pos 1 else n)
at_least_one-le n = elim (Bool-cases (ltb_ℤ n (pos 1))) [
  | inl e ↦ rw e (omega arith)
  | inr e ↦ rw e (ground arith)
]

special_part-IsNormal :
    (cmd : Bytes) (parts : List Part) (p : Part)
    → special_part cmd ≡ ok p
    → IsNormal parts
    → IsNormal (parts ++ p ∷ [])
unfolding special_part
special_part-IsNormal cmd parts p e h =
    let (k, _, made) = >>=-eq-ok (parse_special_key (extract_word cmd).0) _ e in
    let count = extract_int (pos 1) (extract_word cmd).1 in
    let same : key_part k (if ltb_ℤ count (pos 1) then pos 1 else count) ≡ p =
      ground (arith, made) in
    rw (← same) (concat-IsNormal parts k _ h (at_least_one-le count))

parse_token-IsNormal :
    (parts : List Part) (before cmd : Bytes) {longer : List Part}
    → IsNormal parts
    → parse_token parts before cmd ≡ ok longer
    → IsNormal longer
unfolding parse_token
parse_token-IsNormal parts before cmd {longer} h e =
    let h' = append_text-IsNormal parts before h in
    elim (Bool-cases (is_literal cmd)) [
      | inl l ↦
          let same : append_text (append_text parts before) cmd ≡ longer = ground (arith, l) in
          rw (← same) (append_text-IsNormal _ cmd h')
      | inr l ↦
          let (p, made, rest) =
            >>=-eq-ok (special_part cmd) (λ p. ok (append_text parts before ++ p ∷ [])) {b = longer}
              (ground (arith, l)) in
          let same : append_text parts before ++ p ∷ [] ≡ longer = cc in
          rw (← same) (special_part-IsNormal cmd _ p made h')
    ]

parse_loop-IsNormal :
    (f : ℕ) (rest : Bytes) (parts : List Part) {out : List Part}
    → IsNormal parts
    → parse_loop f rest parts ≡ ok out
    → IsNormal out
unfolding parse_loop
parse_loop-IsNormal zero rest parts h e = cc
parse_loop-IsNormal (suc f) rest parts {out} h e = elim (scan_cases rest) [
  | inl (s, _) ↦
      let same : append_text parts rest ≡ out = ground (arith, s) in
      rw (← same) (append_text-IsNormal parts rest h)
  | inr (inl s) ↦ absurd (ground (arith, s))
  | inr (inr (before, cmd, next, s, _, _, _, _)) ↦
      let (longer, made, later) =
        >>=-eq-ok (parse_token parts before cmd) (parse_loop f next) {b = out}
          (ground (arith, s)) in
      parse_loop-IsNormal f next longer (parse_token-IsNormal parts before cmd h made) later
]

-- Every sequence that is parsed gives normal parts: no text is empty, no two texts are neighbours,
-- and each key is tapped at least once.
pub parse_sequence-IsNormal :
    (sequence : Bytes) {out : List Part} → parse_sequence sequence ≡ ok out → IsNormal out
unfolding parse_sequence
parse_sequence-IsNormal sequence e = parse_loop-IsNormal _ sequence [] tt e

-- The loop runs out of fuel on no text.
special_part-fuel : (cmd : Bytes) → special_part cmd ≢ err Error.out_of_fuel
unfolding special_part parse_special_key
special_part-fuel cmd = ground arith

parse_token-fuel :
    (parts : List Part) (before cmd : Bytes) → parse_token parts before cmd ≢ err Error.out_of_fuel
unfolding parse_token
parse_token-fuel parts before cmd = ground (arith, special_part-fuel cmd)

parse_loop-fuel :
    (f : ℕ) (rest : Bytes) (parts : List Part)
    → length rest < f
    → parse_loop f rest parts ≢ err Error.out_of_fuel
unfolding parse_loop
parse_loop-fuel zero rest parts l = elim l [ ]
parse_loop-fuel (suc f) rest parts l = elim (scan_cases rest) [
  | inl (s, _) ↦ ground (arith, s)
  | inr (inl s) ↦ ground (arith, s)
  | inr (inr (before, cmd, next, s, _, _, _, shorter)) ↦
      elim (Result-cases (parse_token parts before cmd)) [
        | inl (longer, made) ↦ ground (arith, s, made, parse_loop-fuel f next longer (omega arith))
        | inr (e, made) ↦ ground (arith, s, made, parse_token-fuel parts before cmd)
      ]
]

-- The fuel of `parse_sequence` is enough for every text.
pub parse_sequence-fuel : (sequence : Bytes) → parse_sequence sequence ≢ err Error.out_of_fuel
unfolding parse_sequence
parse_sequence-fuel sequence = parse_loop-fuel _ sequence [] (omega arith)
