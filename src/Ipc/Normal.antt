-- ===== src/Ipc/Normal.antt =====
-- Normal forms of requests: `normalize_command` of src/daemon/IpcServer.cpp.
use ahk_unix.Base.{
  ℕ, true, false, [], ◌∷◌, ◌≡◌, refl, ap, ◌∙◌, sym, inl, inr, arith, ◌&&◌, if◌then◌else◌, Bytes,
  is_empty, Bool-cases,
}
use ahk_unix.Text.Chars.{is_space, to_upper}
use ahk_unix.Text.Trim.{drop_while, drop_last_while, drop_last_while_idem, tail-drop_last_while}
use ahk_unix.Text.Number.{span}
use ahk_unix.Ipc.Request.{trim_copy, is_verb_char, upper, upper_verb, normalize_command}

is_space-to_upper : (c : ℕ) → is_space (to_upper c) ≡ is_space c
unfolding is_space to_upper
is_space-to_upper c = ground arith

to_upper_idem : (c : ℕ) → to_upper (to_upper c) ≡ to_upper c
unfolding to_upper
to_upper_idem c = ground arith

upper_verb-space : (c : ℕ) (s : Bytes) → is_space c ≡ true → upper_verb (c ∷ s) ≡ c ∷ s
unfolding upper_verb upper span is_verb_char
upper_verb-space c s h = rw (h, span)

upper_verb-char :
    (c : ℕ) (s : Bytes) → is_space c ≡ false → upper_verb (c ∷ s) ≡ to_upper c ∷ upper_verb s
unfolding upper_verb upper span is_verb_char
upper_verb-char c s h = rw (h, span)

upper_verb_idem : (s : Bytes) → upper_verb (upper_verb s) ≡ upper_verb s
unfolding upper_verb upper span
upper_verb_idem [] = refl
upper_verb_idem (c ∷ s) = elim (Bool-cases (is_space c)) [
  | inl e ↦ ap upper_verb (upper_verb-space c s e)
  | inr e ↦
      let first = upper_verb-char c s e in
      ap upper_verb first
      ∙ upper_verb-char (to_upper c) (upper_verb s) (is_space-to_upper c ∙ e)
      ∙ ap (λ x. x ∷ upper_verb (upper_verb s)) (to_upper_idem c)
      ∙ ap (λ t. to_upper c ∷ t) (upper_verb_idem s)
      ∙ sym first
]

-- A text that ends in no space, and one that begins with none.
drop_last_while-head :
    (c d : ℕ) (s t : Bytes)
    → is_space c ≡ is_space d
    → is_empty s ≡ is_empty t
    → drop_last_while is_space (c ∷ s) ≡ c ∷ s
    → drop_last_while is_space t ≡ t
    → drop_last_while is_space (d ∷ t) ≡ d ∷ t
unfolding drop_last_while
drop_last_while-head c d [] [] e k h last = ground (arith, e, h)
drop_last_while-head c d [] (y ∷ t) e k h last = absurd (ground arith)
drop_last_while-head c d (x ∷ s) [] e k h last = absurd (ground arith)
drop_last_while-head c d (x ∷ s) (y ∷ t) e k h last =
    ap (λ rest. if is_empty rest && is_space d then [] else d ∷ rest) last

is_empty-upper_verb : (s : Bytes) → is_empty s ≡ is_empty (upper_verb s)
unfolding upper_verb upper span
is_empty-upper_verb [] = refl
is_empty-upper_verb (c ∷ s) = elim (Bool-cases (is_space c)) [
  | inl e ↦ rw (upper_verb-space c s e)
  | inr e ↦ rw (upper_verb-char c s e)
]

drop_last_while-upper_verb :
    (s : Bytes)
    → drop_last_while is_space s ≡ s
    → drop_last_while is_space (upper_verb s) ≡ upper_verb s
unfolding upper_verb upper span
drop_last_while-upper_verb [] h = h
drop_last_while-upper_verb (c ∷ s) h = elim (Bool-cases (is_space c)) [
  | inl e ↦ rw (upper_verb-space c s e) h
  | inr e ↦ rw (upper_verb-char c s e) (
      drop_last_while-head c (to_upper c) s (upper_verb s) (sym (is_space-to_upper c))
        (is_empty-upper_verb s) h
        (drop_last_while-upper_verb s (tail-drop_last_while is_space c s h)))
]

drop_while-upper_verb :
    (s : Bytes) → drop_while is_space s ≡ s → drop_while is_space (upper_verb s) ≡ upper_verb s
unfolding upper_verb upper span drop_while
drop_while-upper_verb [] h = h
drop_while-upper_verb (c ∷ s) h = elim (Bool-cases (is_space c)) [
  | inl e ↦ rw (upper_verb-space c s e) h
  | inr e ↦ rw (upper_verb-char c s e) (ground (arith, is_space-to_upper c, e))
]

drop_while-trim_copy : (s : Bytes) → drop_while is_space (trim_copy s) ≡ trim_copy s
unfolding trim_copy drop_while drop_last_while
drop_while-trim_copy [] = refl
drop_while-trim_copy (c ∷ s) = elim (Bool-cases (is_space c)) [
  | inl e ↦ rw (e, drop_while) (drop_while-trim_copy s)
  | inr e ↦ rw (e, drop_while, drop_last_while) (ground (arith, e))
]

-- A text that neither begins nor ends with a space.
pub trim_copy-trimmed :
    (s : Bytes) → drop_while is_space s ≡ s → drop_last_while is_space s ≡ s → trim_copy s ≡ s
unfolding trim_copy
trim_copy-trimmed s h k = ap (drop_last_while is_space) h ∙ k

-- A request is normal after it has been normalized once.
pub normalize_command_idem :
    (command : Bytes) → normalize_command (normalize_command command) ≡ normalize_command command
unfolding normalize_command
normalize_command_idem command =
    ap upper_verb (
      trim_copy-trimmed (upper_verb (trim_copy command))
        (drop_while-upper_verb (trim_copy command) (drop_while-trim_copy command))
        (drop_last_while-upper_verb (trim_copy command)
          (unfold trim_copy in drop_last_while_idem is_space (drop_while is_space command))))
    ∙ upper_verb_idem (trim_copy command)
