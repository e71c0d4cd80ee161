-- ===== src/ScriptFile/Fuel.antt =====
-- The loop of `parse_file` ends: each round leaves fewer lines.
use ahk_unix.Base.{
  ℕ, zero, suc, ◌+◌, ◌-◌, ◌≤◌, ◌<◌, ◌||◌, List, [], ◌∷◌, ◌++◌, Option, none, some, ◌≡◌, ◌≢◌, inl,
  inr, refl, arith, Bool-cases, any, Bytes, length, Result, ok, err, Error, ◌>>=◌,
}
use ahk_unix.Text.Trim.{trim}
use ahk_unix.Layout.{Table}
use ahk_unix.Script.Blocks.{parse_action_block}
use ahk_unix.Script.Fuel.{parse_action_block-fuel}
use ahk_unix.Hotstring.{Hotstring, empty_hotstring}
use ahk_unix.Hotstring.Tails.{parse_replacement-fuel}
use ahk_unix.Hotstring.Line.{parse_hotstring_line}
use ahk_unix.Hotstring.Fuel.{parse_hotstring_line-fuel}
use ahk_unix.ScriptFile.Classify.{get_lines, looks_like_action_line}
use ahk_unix.ScriptFile.Body.{Block, collect_block, join, parse_body}
use ahk_unix.ScriptFile.Loop.{
  FileState, located, front_line, trigger_line, file_step, file_loop, initial_state, finish,
  parse_file,
}
use ahk_unix.ScriptFile.Picks.{Suffix, here, there, file_step-Reads}

abbrev Returns {ℓ} : {A : Type ℓ} → Result A → Type ℓ
Returns m = m ≢ err Error.out_of_fuel

located-Returns :
    {A : Type 0} (path : Bytes) (i : ℕ) (m : Result A) → Returns m → Returns (located path i m)
unfolding located
located-Returns path i (ok x) h = ground arith
located-Returns path i (err (Error.runtime_error w)) h = ground arith
located-Returns path i (err Error.invalid_argument) h = ground arith
located-Returns path i (err Error.out_of_range) h = ground arith
located-Returns path i (err (Error.sys_error w)) h = ground arith
located-Returns path i (err (Error.at_line p l w)) h = ground arith
located-Returns path i (err Error.undefined) h = ground arith
located-Returns path i (err Error.out_of_fuel) h = h

>>=-Returns :
    {A B : Type 0} (m : Result A) (next : A → Result B)
    → Returns m
    → ((a : A) → m ≡ ok a → Returns (next a))
    → Returns (m >>= next)
>>=-Returns (ok a) next h k = k a refl
>>=-Returns (err e) next h k = ground (arith, h)

parse_body-Returns : (block : Block) → Returns (parse_body block)
unfolding parse_body
parse_body-Returns block =
    let joined = join block.block_lines in
    elim (Bool-cases (block.saw_return || any looks_like_action_line block.block_lines)) [
      | inl e ↦ rw e (
          >>=-Returns (parse_action_block joined)
            (λ commands. ok (record empty_hotstring { commands = commands }))
            (parse_action_block-fuel joined) (λ commands _. ground arith))
      | inr e ↦ rw e (parse_replacement-fuel joined empty_hotstring)
    ]

trigger_line-Returns :
    (path : Bytes) (i : ℕ) (hs : Hotstring) (rest : List Bytes) (st : FileState)
    → Returns (trigger_line path i hs rest st)
unfolding trigger_line
trigger_line-Returns path i hs rest st =
    let body = collect_block 0 rest in
    ground (
      arith,
      located-Returns path (front_line (st.pending ++ (hs, i) ∷ [])) (parse_body body)
          (parse_body-Returns body),
    )

file_step-Returns :
    (layout : Table) (path : Bytes) (i : ℕ) (raw : Bytes) (rest : List Bytes) (st : FileState)
    → Returns (file_step layout path i raw rest st)
unfolding file_step
file_step-Returns layout path i raw rest st =
    let line = trim raw in
    let round =
      >>=-Returns (located path i (parse_hotstring_line layout line))
        (λ hs. trigger_line path i hs rest st)
        (located-Returns path i (parse_hotstring_line layout line)
          (parse_hotstring_line-fuel layout line))
        (λ hs _. trigger_line-Returns path i hs rest st) in
    ground (arith, round)

Suffix-length : {left lines : List Bytes} → Suffix left lines → length left ≤ length lines
Suffix-length here = omega arith
Suffix-length (there s) = omega (arith, Suffix-length s)

file_step-length :
    (layout : Table) (path : Bytes) (i : ℕ) (raw : Bytes) (rest : List Bytes) (st next : FileState)
    (left : List Bytes)
    → file_step layout path i raw rest st ≡ ok (next, left)
    → length left ≤ length rest
file_step-length layout path i raw rest st next left e =
    elim (file_step-Reads layout path i raw rest st next left e) [
      | inl (_, same) ↦ rw same (omega arith)
      | inr (_, _, _, _, s) ↦ Suffix-length s
    ]

file_loop-Returns :
    (f : ℕ) (layout : Table) (path : Bytes) (i : ℕ) (lines : List Bytes) (st : FileState)
    → length lines < f
    → Returns (file_loop f layout path i lines st)
unfolding file_loop
file_loop-Returns zero layout path i lines st h = elim h [ ]
file_loop-Returns (suc f) layout path i [] st h = ground arith
file_loop-Returns (suc f) layout path i (raw ∷ rest) st h =
    >>=-Returns (file_step layout path i raw rest st)
      (λ r. file_loop f layout path (i + (length (raw ∷ rest) - length r.1)) r.1 r.0)
      (file_step-Returns layout path i raw rest st)
      (λ r e.
        file_loop-Returns f layout path (i + (length (raw ∷ rest) - length r.1)) r.1 r.0
          (omega (arith, h, file_step-length layout path i raw rest st r.0 r.1 e)))

-- The fuel of `parse_file` is enough for every layout and every file: the call ends with hotstrings
-- or with an error of the script.
pub parse_file-fuel :
    (layout : Table) (path : Bytes) (contents : Option Bytes)
    → parse_file layout path contents ≢ err Error.out_of_fuel
unfolding parse_file finish
parse_file-fuel layout path none = ground arith
parse_file-fuel layout path (some contents) =
    let lines = get_lines [] contents in
    >>=-Returns (file_loop (suc (length lines)) layout path 0 lines initial_state) (finish path)
      (file_loop-Returns (suc (length lines)) layout path 0 lines initial_state (omega arith))
      (λ st _. finish-Returns st)
  where
    finish-Returns : (st : FileState) → Returns (finish path st)
    finish-Returns st = ground arith
