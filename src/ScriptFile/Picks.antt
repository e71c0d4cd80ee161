-- ===== src/ScriptFile/Picks.antt =====
-- The hotstrings of a script against its lines.
use ahk_unix.Base.{
  ℕ, zero, suc, ◌+◌, ◌-◌, true, false, ◌&&◌, List, [], ◌∷◌, ◌++◌, map, some, ◌≡◌, ◌⊎◌, inl, inr,
  sym, ap, subst, ◌∙◌, arith, append-nil, append_assoc, Bool-cases, Option-cases, Result-cases,
  Bytes, is_empty, length, Result, ok, err, Error, ◌>>=◌, >>=-eq-ok, codes, ◌==◌,
}
use ahk_unix.Text.Chars.{starts_with}
use ahk_unix.Text.Trim.{trim}
use ahk_unix.Layout.{Table}
use ahk_unix.Hotstring.{Hotstring, empty_hotstring}
use ahk_unix.Hotstring.Line.{parse_hotstring_line}
use ahk_unix.ScriptFile.Classify.{
  get_lines, is_comment_or_empty, looks_like_trigger_line, assignment, starts_with_command_ci,
}
use ahk_unix.ScriptFile.Body.{collect_block, next_depth, parse_body}
use ahk_unix.ScriptFile.Loop.{
  FileState, flush_pending, located, front_line, trigger_line, file_step, file_loop, finish,
  initial_state, ScriptFile, parse_file,
}
use ahk_unix.ScriptFile.Order.{
  TriggerOf, trigger_of, triggers, trigger_line-triggers, flush_pending-triggers,
}

-- `left` is the end of the lines.
pub data Suffix (left : List Bytes) : List Bytes → Type 0 where
  here : Suffix left left
  there : {line : Bytes} {lines : List Bytes} → Suffix left lines → Suffix left (line ∷ lines)

-- The triggers are read from some of the lines, each from a trigger line of its own, in the order of
-- the lines.
pub data Picks (layout : Table) : List Bytes → List TriggerOf → Type 0 where
  stop : Picks layout [] []
  skip :
      {line : Bytes} {lines : List Bytes} {ts : List TriggerOf}
      → Picks layout lines ts
      → Picks layout (line ∷ lines) ts
  pick :
      {line : Bytes} {lines : List Bytes} {ts : List TriggerOf} (hs : Hotstring)
      → looks_like_trigger_line (trim line) ≡ true
      → parse_hotstring_line layout (trim line) ≡ ok hs
      → Picks layout lines ts
      → Picks layout (line ∷ lines) (trigger_of hs ∷ ts)

Suffix-Picks :
    {layout : Table} {left lines : List Bytes} {ts : List TriggerOf}
    → Suffix left lines
    → Picks layout left ts
    → Picks layout lines ts
Suffix-Picks here p = p
Suffix-Picks (there s) p = skip (Suffix-Picks s p)

collect_block-Suffix :
    (depth : ℕ) (lines : List Bytes) → Suffix (collect_block depth lines).behind lines
unfolding collect_block
collect_block-Suffix depth [] = here
collect_block-Suffix depth (raw ∷ rest) =
    let t = trim raw in
    let d = next_depth depth t in
    elim (Bool-cases (starts_with_command_ci t (codes "Return") && d == 0)) [
      | inl e ↦ rw e (there here)
      | inr e ↦ elim (Bool-cases (d == 0 && looks_like_trigger_line t)) [
        | inl e' ↦ rw (e, e') here
        | inr e' ↦ rw (e, e') (there (collect_block-Suffix d rest))
      ]
    ]

trigger_line-Suffix :
    (path : Bytes) (i : ℕ) (hs : Hotstring) (rest : List Bytes) (st next : FileState)
    (left : List Bytes)
    → trigger_line path i hs rest st ≡ ok (next, left)
    → (left ≡ rest) ⊎ (left ≡ (collect_block 0 rest).behind)
unfolding trigger_line
trigger_line-Suffix path i hs rest st next left e =
    let parsed =
      located path (front_line (st.pending ++ (hs, i) ∷ [])) (parse_body (collect_block 0 rest)) in
    elim (Result-cases parsed) [
      | inl (tpl, made) ↦ ground (arith, made)
      | inr (w, failed) ↦ ground (arith, failed)
    ]

Suffix_cases :
    (rest left : List Bytes)
    → (left ≡ rest) ⊎ (left ≡ (collect_block 0 rest).behind)
    → Suffix left rest
Suffix_cases rest left (inl e) = rw e here
Suffix_cases rest left (inr e) = rw e (collect_block-Suffix 0 rest)

-- One round reads no trigger, or the trigger of its line.
abbrev pub Reads : Table → Bytes → List Bytes → FileState → FileState → List Bytes → Type 0
Reads layout raw rest st next left =
    ((triggers next ≡ triggers st) × (left ≡ rest))
    ⊎ ((hs : Hotstring) × (looks_like_trigger_line (trim raw) ≡ true)
        × (parse_hotstring_line layout (trim raw) ≡ ok hs)
        × (triggers next ≡ triggers st ++ trigger_of hs ∷ [])
        × Suffix left rest)

-- A result that `located` lets through.
located-ok :
    {A : Type 0} (path : Bytes) (i : ℕ) (m : Result A) {a : A} → located path i m ≡ ok a → m ≡ ok a
unfolding located
located-ok path i (ok x) e = e
located-ok path i (err (Error.runtime_error w)) e = ground (arith, e)
located-ok path i (err Error.invalid_argument) e = ground (arith, e)
located-ok path i (err Error.out_of_range) e = ground (arith, e)
located-ok path i (err (Error.sys_error w)) e = ground (arith, e)
located-ok path i (err (Error.at_line p l w)) e = ground (arith, e)
located-ok path i (err Error.undefined) e = ground (arith, e)
located-ok path i (err Error.out_of_fuel) e = ground (arith, e)

-- The round of a trigger line.
trigger_round-Reads :
    (layout : Table) (path : Bytes) (i : ℕ) (raw : Bytes) (rest : List Bytes) (st next : FileState)
    (left : List Bytes)
    → looks_like_trigger_line (trim raw) ≡ true
    → (do
      hs ← located path i (parse_hotstring_line layout (trim raw))
      trigger_line path i hs rest st)
      ≡ ok (next, left)
    → Reads layout raw rest st next left
trigger_round-Reads layout path i raw rest st next left trigger e =
    let parsed = located path i (parse_hotstring_line layout (trim raw)) in
    let (hs, read, went) =
      >>=-eq-ok parsed (λ hs. trigger_line path i hs rest st) {b = (next, left)} e in
    inr (
      hs,
      trigger,
      located-ok path i (parse_hotstring_line layout (trim raw)) read,
      trigger_line-triggers path i hs rest st next left went,
      Suffix_cases rest left (trigger_line-Suffix path i hs rest st next left went),
    )

pub file_step-Reads :
    (layout : Table) (path : Bytes) (i : ℕ) (raw : Bytes) (rest : List Bytes) (st next : FileState)
    (left : List Bytes)
    → file_step layout path i raw rest st ≡ ok (next, left)
    → Reads layout raw rest st next left
unfolding file_step
file_step-Reads layout path i raw rest st next left e =
    let line = trim raw in
    elim (Bool-cases st.in_multiline_comment) [
      | inl c ↦ inl (ground (arith, c))
      | inr c ↦ elim (Bool-cases (starts_with line (codes "/*"))) [
        | inl o ↦ inl (ground (arith, c, o))
        | inr o ↦ elim (Bool-cases (is_comment_or_empty line)) [
          | inl k ↦ inl (ground (arith, c, o, k))
          | inr k ↦ elim (Option-cases (assignment line)) [
            | inl a ↦ elim (Bool-cases (looks_like_trigger_line line)) [
              | inl t ↦
                  trigger_round-Reads layout path i raw rest st next left t
                    (ground (arith, c, o, k, a, t))
              | inr t ↦ inl (ground (arith, c, o, k, a, t))
            ]
            | inr ((name, value), a) ↦ inl (ground (arith, c, o, k, a))
          ]
        ]
      ]
    ]

-- The triggers that the loop adds.
abbrev Added : Table → List Bytes → FileState → FileState → Type 0
Added layout lines st next =
    (ts : List TriggerOf) × (triggers next ≡ triggers st ++ ts) × Picks layout lines ts

add_round :
    (layout : Table) (raw : Bytes) (rest left : List Bytes) (st next last : FileState)
    → Reads layout raw rest st next left
    → Added layout left next last
    → Added layout (raw ∷ rest) st last
add_round layout raw rest left st next last (inl (same, all)) (ts, e, p) =
    (ts, e ∙ ap (λ t. t ++ ts) same, skip (subst (λ l. Picks layout l ts) all p))
add_round layout raw rest left st next last (inr (hs, trigger, read, more, s)) (ts, e, p) = (
  trigger_of hs ∷ ts,
  e ∙ ap (λ t. t ++ ts) more ∙ append_assoc (triggers st) (trigger_of hs ∷ []) ts,
  pick hs trigger read (Suffix-Picks s p),
)

file_loop-Added :
    (f : ℕ) (layout : Table) (path : Bytes) (i : ℕ) (lines : List Bytes) (st last : FileState)
    → file_loop f layout path i lines st ≡ ok last
    → Added layout lines st last
unfolding file_loop
file_loop-Added zero layout path i lines st last e = absurd (ground (arith, e))
file_loop-Added (suc f) layout path i [] st last e =
    let same : st ≡ last = ground (arith, e) in
    ([], ap triggers (sym same) ∙ sym (append-nil (triggers st)), stop)
file_loop-Added (suc f) layout path i (raw ∷ rest) st last e =
    let ((next, left), went, goes) =
      >>=-eq-ok (file_step layout path i raw rest st)
        (λ r. file_loop f layout path (i + (length (raw ∷ rest) - length r.1)) r.1 r.0) {b = last}
        e in
    add_round layout raw rest left st next last
      (file_step-Reads layout path i raw rest st next left went)
      (file_loop-Added f layout path (i + (length (raw ∷ rest) - length left)) left next last goes)

finish-triggers :
    (path : Bytes) (st : FileState) (f : ScriptFile)
    → finish path st ≡ ok f
    → (is_empty f.hotstrings ≡ false) × (map trigger_of f.hotstrings ≡ triggers st)
unfolding finish flush_pending
finish-triggers path st f e =
    let flushed = flush_pending empty_hotstring st in
    elim (Bool-cases (is_empty flushed.hotstrings)) [
      | inl none_found ↦ absurd (ground (arith, e, none_found))
      | inr found ↦
          let same : flushed.hotstrings ≡ f.hotstrings = ground (arith, e, found) in
          (
            rw (← same) found,
            ap (map trigger_of) (sym same)
                ∙ sym (append-nil _)
                ∙ flush_pending-triggers empty_hotstring st,
          )
    ]

-- A script that is parsed yields at least one hotstring, and the keys, modifiers and erase flags of
-- its hotstrings are those that `parse_hotstring_line` reads from some of its lines, each from a
-- trigger line of its own and in the order of the lines.
pub parse_file-Picks :
    (layout : Table) (path contents : Bytes) (f : ScriptFile)
    → parse_file layout path (some contents) ≡ ok f
    → (is_empty f.hotstrings ≡ false)
      × Picks layout (get_lines [] contents) (map trigger_of f.hotstrings)
unfolding parse_file
parse_file-Picks layout path contents f e =
    let lines = get_lines [] contents in
    let (st, looped, finished) =
      >>=-eq-ok (file_loop (suc (length lines)) layout path 0 lines initial_state) (finish path)
        {b = f} e in
    let (found, same) = finish-triggers path st f finished in
    let (ts, added, picks) =
      file_loop-Added (suc (length lines)) layout path 0 lines initial_state st looped in
    (found, subst (Picks layout lines) (sym (same ∙ added)) picks)
