-- ===== src/Script/Fuel.antt =====
-- The parser of command blocks returns: its fuel is enough for every list of lines, since each
-- nested call reads a line of its own.
use ahk_unix.Base.{
  ℕ, zero, suc, ◌+◌, ◌*◌, ◌≤◌, ◌<◌, Bool, true, false, List, [], ◌∷◌, Option, none, some, ◌≡◌, ◌≢◌,
  refl, arith, inl, inr, Bool-cases, Bytes, length, Result, ok, err, Error, ◌>>=◌, throw, codes,
  Result-cases,
}
use ahk_unix.Base.Int.{ℤ, int_min, int_max}
use ahk_unix.Text.Chars.{equal}
use ahk_unix.Text.Number.{sto, convert, stoi}
use ahk_unix.Command.{Command, random_assign}
use ahk_unix.SendInput.{parse_sequence}
use ahk_unix.SendInput.Parts.{parse_sequence-fuel}
use ahk_unix.Script.Lines.{starts_with_command, preprocess_lines}
use ahk_unix.Script.Patterns.{match_random}
use ahk_unix.Script.Simple.{
  arguments, parse_send_input, parse_sleep, parse_random, parse_show_markdown, parse_increment,
  parse_simple_command,
}
use ahk_unix.Script.Blocks.{
  extract_condition, has_inline_open_brace, strip_else, expect_brace, parse_if_header, is_else_if,
  contains_brace, parse_block_lines, parse_if_chain, parse_else, enough_fuel, parse_action_block,
}

-- The call does not run out of fuel.
abbrev pub Returns {ℓ} : {A : Type ℓ} → Result A → Type 0
Returns (ok a) = Unit
Returns (err e) = e ≢ Error.out_of_fuel

Returns-bind {ℓ κ} :
    {A : Type ℓ} {B : Type κ} (m : Result A) (k : A → Result B)
    → Returns m
    → ((a : A) → m ≡ ok a → Returns (k a))
    → Returns (m >>= k)
Returns-bind (ok a) k h next = next a refl
Returns-bind (err e) k h next = h

sto-Returns : (lo hi : ℤ) (s : Bytes) → Returns (sto lo hi s)
unfolding sto convert
sto-Returns lo hi s = ground arith

parse_sequence-Returns : (s : Bytes) → Returns (parse_sequence s)
parse_sequence-Returns s = ground (arith, parse_sequence-fuel s)

parse_send_input-Returns : (line : Bytes) → Returns (parse_send_input line)
unfolding parse_send_input
parse_send_input-Returns line =
    ground (arith, parse_sequence-Returns (arguments (length (codes "sendinput")) line))

parse_sleep-Returns : (line : Bytes) → Returns (parse_sleep line)
unfolding parse_sleep
parse_sleep-Returns line =
    ground (arith, sto-Returns int_min int_max (arguments (length (codes "sleep")) line))

parse_random-Returns : (line : Bytes) → Returns (parse_random line)
unfolding parse_random
parse_random-Returns line = go (match_random line)
  where
    go :
        (m : Option (Bytes × Bytes × Bytes))
        → Returns {A = Option Command} (elim m [
          | none ↦ throw "invalid Random syntax: " line
          | some (name, lo, hi) ↦ do
            min_val ← stoi lo
            max_val ← stoi hi
            ok (some (random_assign name min_val max_val))
        ])
    go none = ground arith
    go (some (name, lo, hi)) =
        ground (arith, sto-Returns int_min int_max lo, sto-Returns int_min int_max hi)

pub parse_simple_command-Returns : (line : Bytes) → Returns (parse_simple_command line)
unfolding parse_simple_command parse_show_markdown parse_increment
parse_simple_command-Returns line =
    ground
      (arith, parse_send_input-Returns line, parse_sleep-Returns line, parse_random-Returns line)

extract_condition-Returns : (line : Bytes) → Returns (extract_condition line)
unfolding extract_condition
extract_condition-Returns line = ground arith

expect_brace-Returns :
    (b : Bool) (e : Error) (lines : List Bytes)
    → e ≢ Error.out_of_fuel
    → Returns (expect_brace b (err e) lines)
unfolding expect_brace
expect_brace-Returns true e lines h = tt
expect_brace-Returns false e [] h = h
expect_brace-Returns false e (line ∷ lines) h = ground arith

pub parse_if_header-Returns :
    (line : Bytes) (rest : List Bytes) → Returns (parse_if_header line rest)
unfolding parse_if_header
parse_if_header-Returns line rest = ground (
  arith,
  extract_condition-Returns (strip_else line),
  expect_brace-Returns (has_inline_open_brace (strip_else line))
      (Error.runtime_error (codes "expected { after If condition")) rest,
)

-- The call returns, and leaves at most `n` lines.
abbrev pub Leaves {ℓ} : {A : Type ℓ} → ℕ → Result (A × List Bytes) → Type 0
Leaves n (ok (a, left)) = length left ≤ n
Leaves n (err e) = e ≢ Error.out_of_fuel

Leaves-bind {ℓ κ} :
    {A : Type ℓ} {B : Type κ} (n p : ℕ) (m : Result (A × List Bytes))
    (k : A × List Bytes → Result (B × List Bytes))
    → Leaves n m
    → ((a : A) (left : List Bytes) → length left ≤ n → Leaves p (k (a, left)))
    → Leaves p (m >>= k)
Leaves-bind n p (ok (a, left)) k h next = next a left h
Leaves-bind n p (err e) k h next = h

Leaves-after {ℓ κ} :
    {A : Type ℓ} {B : Type κ} (p : ℕ) (m : Result A) (k : A → Result (B × List Bytes))
    → Returns m
    → ((a : A) → m ≡ ok a → Leaves p (k a))
    → Leaves p (m >>= k)
Leaves-after p (ok a) k h next = next a refl
Leaves-after p (err e) k h next = h

Leaves-mono {ℓ} :
    {A : Type ℓ} (n p : ℕ) (m : Result (A × List Bytes)) → Leaves n m → n ≤ p → Leaves p m
Leaves-mono n p (ok (a, left)) h l = omega arith
Leaves-mono n p (err e) h l = h

expect_brace-length :
    (b : Bool) (e : Error) (lines left : List Bytes)
    → expect_brace b (err e) lines ≡ ok left
    → length left ≤ length lines
unfolding expect_brace
expect_brace-length true e lines left h = ground arith
expect_brace-length false e [] left h = ground arith
expect_brace-length false e (line ∷ lines) left h = ground arith

parse_if_header-Leaves :
    (line : Bytes) (rest : List Bytes) → Leaves (length rest) (parse_if_header line rest)
unfolding parse_if_header
parse_if_header-Leaves line rest =
    let chain = strip_else line in
    let missing = Error.runtime_error (codes "expected { after If condition") in
    let inline = has_inline_open_brace chain in
    elim (Result-cases (expect_brace inline (err missing) rest)) [
      | inl (left, e) ↦ ground (
        arith,
        extract_condition-Returns chain,
        e,
        expect_brace-length inline missing rest left e,
      )
      | inr (w, e) ↦
          ground
            (arith, extract_condition-Returns chain, e, expect_brace-Returns inline missing rest)
    ]

mutual
  unfolding parse_block_lines

  parse_block_lines-Leaves :
      (f : ℕ) (lines : List Bytes) (stop : Bool)
      → 2 * length lines < f
      → Leaves (length lines) (parse_block_lines f lines stop)
  parse_block_lines-Leaves zero lines stop h = elim h [ ]
  parse_block_lines-Leaves (suc f) [] stop h = ground arith
  parse_block_lines-Leaves (suc f) (line ∷ rest) stop h =
      elim (Bool-cases (equal line (codes "}"))) [
        | inl e ↦ elim (Bool-cases stop) [
          | inl s ↦ rw (e, s, parse_block_lines) (omega arith)
          | inr s ↦
              rw (e, s, parse_block_lines)
                (Leaves-mono _ _ (parse_block_lines f rest false)
                  (parse_block_lines-Leaves f rest false (omega arith)) (omega arith))
        ]
        | inr e ↦ elim (Bool-cases (starts_with_command line (codes "if"))) [
          | inl s ↦
              rw (e, s, parse_block_lines)
                (Leaves-bind (length rest) (suc (length rest)) (parse_if_chain f (line ∷ rest)) _
                  (parse_if_chain-Leaves f line rest (omega arith))
                  λ c behind shorter.
                    Leaves-bind (length behind) (suc (length rest))
                      (parse_block_lines f behind stop) _
                      (parse_block_lines-Leaves f behind stop (omega arith))
                      λ cs left l. omega arith)
          | inr s ↦ elim (Bool-cases (starts_with_command line (codes "else"))) [
            | inl t ↦ rw (e, s, t, parse_block_lines) (omega arith)
            | inr t ↦
                rw (e, s, t, parse_block_lines)
                  (Leaves-after (suc (length rest)) (parse_simple_command line) _
                    (parse_simple_command-Returns line)
                    λ c _.
                      Leaves-bind (length rest) (suc (length rest)) (parse_block_lines f rest stop)
                        _ (parse_block_lines-Leaves f rest stop (omega arith))
                        λ cs left l. omega arith)
          ]
        ]
      ]

  parse_if_chain-Leaves :
      (f : ℕ) (line : Bytes) (rest : List Bytes)
      → 2 * length rest + 1 < f
      → Leaves (length rest) (parse_if_chain f (line ∷ rest))
  parse_if_chain-Leaves zero line rest h = elim h [ ]
  parse_if_chain-Leaves (suc f) line rest h =
      Leaves-bind (length rest) (length rest) (parse_if_header line rest) _
        (parse_if_header-Leaves line rest)
        λ condition body l.
          Leaves-bind (length body) (length rest) (parse_block_lines f body true) _
            (parse_block_lines-Leaves f body true (omega arith))
            λ yes_branch behind l'.
              Leaves-bind (length behind) (length rest) (parse_else f behind) _
                (parse_else-Leaves f behind (omega arith)) λ no_branch left l''. omega arith

  parse_else-Leaves :
      (f : ℕ) (lines : List Bytes)
      → 2 * length lines < f
      → Leaves (length lines) (parse_else f lines)
  parse_else-Leaves zero lines h = elim h [ ]
  parse_else-Leaves (suc f) [] h = ground arith
  parse_else-Leaves (suc f) (line ∷ rest) h =
      elim (Bool-cases (starts_with_command line (codes "else"))) [
        | inr e ↦ rw (e, parse_else) (omega arith)
        | inl e ↦ elim (Bool-cases (is_else_if line)) [
          | inl s ↦
              rw (e, s, parse_else)
                (Leaves-bind (length rest) (suc (length rest)) (parse_if_chain f (line ∷ rest)) _
                  (parse_if_chain-Leaves f line rest (omega arith)) λ c left l. omega arith)
          | inr s ↦
              let missing = Error.runtime_error (codes "expected { after Else") in
              rw (e, s, parse_else)
                (Leaves-after (suc (length rest))
                  (expect_brace (contains_brace line) (err missing) rest) _
                  (expect_brace-Returns (contains_brace line) missing rest (λ p. cc))
                  λ body found.
                    let l = expect_brace-length (contains_brace line) missing rest body found in
                    Leaves-mono _ _ (parse_block_lines f body true)
                      (parse_block_lines-Leaves f body true (omega arith)) (omega arith))
        ]
      ]

-- Every block is parsed to the end, to a list of commands or to an error of the script.
pub parse_action_block-fuel : (block : Bytes) → parse_action_block block ≢ err Error.out_of_fuel
unfolding parse_action_block
parse_action_block-fuel block =
    let lines = preprocess_lines block in
    let done = parse_block_lines-Leaves (enough_fuel lines) lines false (omega arith) in
    ground (arith, done)
