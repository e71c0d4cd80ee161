-- ===== src/Script/RoundTrip.antt =====
-- What the lines of nested statements are parsed to. Each lemma reads one piece in front of a tail
-- that is known to be read.
use ahk_unix.Base.{
  ℕ, zero, suc, ◌+◌, ◌*◌, ◌≤◌, ◌<◌, Bool, true, false, List, [], ◌∷◌, Option, ◌≡◌, refl, arith,
  Bytes, length, ok, codes,
}
use ahk_unix.Text.Chars.{equal, starts_with}
use ahk_unix.Text.Find.{find}
use ahk_unix.Text.Trim.{trim}
use ahk_unix.Command.{Command, if_command, Commands, nil, cons}
use ahk_unix.Script.Lines.{starts_with_command, at_boundary}
use ahk_unix.Script.Headers.{
  if_line, else_if_line, else_line, strip_else-if_line, strip_else-else_if_line,
  is_else_if-else_if_line, parse_if_header-if_line, if_line-starts, else_if_line-starts,
}
use ahk_unix.Script.Blocks.{
  parse_block_lines, parse_if_chain, parse_else, push, expect_brace, is_else_if, parse_if_header,
  enough_fuel,
}
use ahk_unix.Script.Nesting.{
  Statement, plain, chain, Statements, done, then_do, Otherwise, no_else, else_do, else_if,
  statement_lines, lines_of, otherwise_lines, meaning_onto, meaning, meaning_else, IsPlain, Fine,
  fine_plain, fine_chain, AllFine, fine_done, fine_then, FineElse, fine_none, fine_else,
  fine_else_if, NoElse, lines_of-NoElse, lines_of-length, otherwise_lines-length,
}

-- With enough fuel the lines are read as these commands, up to the lines left.
abbrev Reads : List Bytes → Bool → Commands → List Bytes → Type 0
Reads lines stop commands left =
    (g : ℕ) → 2 * length lines < g → parse_block_lines g lines stop ≡ ok (commands, left)

abbrev ReadsElse : List Bytes → Commands → List Bytes → Type 0
ReadsElse lines commands left =
    (g : ℕ) → 2 * length lines < g → parse_else g lines ≡ ok (commands, left)

brace-NoElse : (left : List Bytes) → NoElse (codes "}" ∷ left)
unfolding starts_with_command starts_with
brace-NoElse left = refl

brace-Reads : (left : List Bytes) → Reads (codes "}" ∷ left) true nil left
unfolding parse_block_lines equal
brace-Reads left zero h = elim h [ ]
brace-Reads left (suc g) h = refl

nil-Reads : (stop : Bool) → Reads [] stop nil []
unfolding parse_block_lines
nil-Reads stop zero h = elim h [ ]
nil-Reads stop (suc g) h = refl

plain-Reads :
    (line : Bytes) (c : Option Command) (tail : List Bytes) (stop : Bool) (commands : Commands)
    (left : List Bytes)
    → IsPlain line c
    → Reads tail stop commands left
    → Reads (line ∷ tail) stop (push c commands) left
unfolding parse_block_lines
plain-Reads line c tail stop commands left p r zero h = elim h [ ]
plain-Reads line c tail stop commands left p r (suc g) h =
    rw (p.no_brace, p.no_if, p.no_else_line, p.reads, r g (omega arith), parse_block_lines) refl

-- A chain whose header line stands for `if (condition) {`.
chain-Reads :
    (line condition : Bytes) (rest behind left : List Bytes) (yes_branch no_branch : Commands)
    → parse_if_header line rest ≡ ok (trim condition, rest)
    → length behind < length rest
    → Reads rest true yes_branch behind
    → ReadsElse behind no_branch left
    → (g : ℕ) → 2 * length rest + 1 < g
    → parse_if_chain g (line ∷ rest) ≡ ok (if_command (trim condition) yes_branch no_branch, left)
unfolding parse_block_lines
chain-Reads line condition rest behind left yes_branch no_branch e l r re zero h = elim h [ ]
chain-Reads line condition rest behind left yes_branch no_branch e l r re (suc g) h =
    rw (e, r g (omega arith), re g (omega arith)) refl

if-Reads :
    (condition : Bytes) (rest behind left : List Bytes) (c : Command) (commands : Commands)
    (stop : Bool)
    → length behind ≤ length rest
    → ((g : ℕ)
        → 2 * length rest + 1 < g
        → parse_if_chain g (if_line condition ∷ rest) ≡ ok (c, behind))
    → Reads behind stop commands left
    → Reads (if_line condition ∷ rest) stop (cons c commands) left
unfolding parse_block_lines equal
if-Reads condition rest behind left c commands stop l chained r zero h = elim h [ ]
if-Reads condition rest behind left c commands stop l chained r (suc g) h =
    rw (if_line-starts condition, chained g (omega arith), r g (omega arith), parse_block_lines)
      refl

none-ReadsElse : (tail : List Bytes) → NoElse tail → ReadsElse tail nil tail
unfolding parse_block_lines
none-ReadsElse tail h zero l = elim l [ ]
none-ReadsElse [] h (suc g) l = refl
none-ReadsElse (line ∷ tail) h (suc g) l = rw (h, parse_else) refl

else_do-ReadsElse :
    (rest tail : List Bytes) (commands : Commands)
    → Reads rest true commands tail
    → ReadsElse (else_line ∷ rest) commands tail
unfolding parse_block_lines starts_with_command starts_with at_boundary is_else_if trim expect_brace
    find
else_do-ReadsElse rest tail commands r zero l = elim l [ ]
else_do-ReadsElse rest tail commands r (suc g) l = r g (omega arith)

else_if-ReadsElse :
    (condition : Bytes) (rest tail : List Bytes) (c : Command)
    → ((g : ℕ)
        → 2 * length rest + 1 < g
        → parse_if_chain g (else_if_line condition ∷ rest) ≡ ok (c, tail))
    → ReadsElse (else_if_line condition ∷ rest) (cons c nil) tail
unfolding parse_block_lines
else_if-ReadsElse condition rest tail c chained zero l = elim l [ ]
else_if-ReadsElse condition rest tail c chained (suc g) l =
    rw
      (
        else_if_line-starts condition,
        is_else_if-else_if_line condition,
        chained g (omega arith),
        parse_else,
      )
      refl

mutual
  unfolding statement_lines meaning

  statement-Reads :
      (s : Statement) (tail left : List Bytes) (stop : Bool) (commands : Commands)
      → Fine s
      → NoElse tail
      → Reads tail stop commands left
      → Reads (statement_lines s tail) stop (meaning_onto s commands) left
  statement-Reads (plain line c) tail left stop commands (fine_plain p) h r =
      plain-Reads line c tail stop commands left p r
  statement-Reads (chain condition body otherwise) tail left stop commands (fine_chain k fb fo) h
        r =
      let behind = otherwise_lines otherwise tail in
      let rest = lines_of body (codes "}" ∷ behind) in
      let shorter = lines_of-length body (codes "}" ∷ behind) in
      let shortest = otherwise_lines-length otherwise tail in
      if-Reads condition rest tail left _ commands stop (omega arith)
        (chain-Reads (if_line condition) condition rest behind tail (meaning body)
          (meaning_else otherwise)
          (parse_if_header-if_line (if_line condition) condition rest (strip_else-if_line condition)
            k)
          (omega arith)
          (lines-Reads body (codes "}" ∷ behind) behind true fb (brace-NoElse behind)
            (brace-Reads behind))
          (otherwise-ReadsElse otherwise tail fo h))
        r

  lines-Reads :
      (ss : Statements) (tail left : List Bytes) (stop : Bool)
      → AllFine ss
      → NoElse tail
      → Reads tail stop nil left
      → Reads (lines_of ss tail) stop (meaning ss) left
  lines-Reads done tail left stop fine_done h r = r
  lines-Reads (then_do s ss) tail left stop (fine_then f fs) h r =
      statement-Reads s (lines_of ss tail) left stop (meaning ss) f (lines_of-NoElse ss tail fs h)
        (lines-Reads ss tail left stop fs h r)

  otherwise-ReadsElse :
      (o : Otherwise) (tail : List Bytes)
      → FineElse o
      → NoElse tail
      → ReadsElse (otherwise_lines o tail) (meaning_else o) tail
  otherwise-ReadsElse no_else tail fine_none h = none-ReadsElse tail h
  otherwise-ReadsElse (else_do body) tail (fine_else fb) h =
      else_do-ReadsElse (lines_of body (codes "}" ∷ tail)) tail (meaning body)
        (lines-Reads body (codes "}" ∷ tail) tail true fb (brace-NoElse tail) (brace-Reads tail))
  otherwise-ReadsElse (else_if condition body otherwise) tail (fine_else_if k fb fo) h =
      let behind = otherwise_lines otherwise tail in
      let rest = lines_of body (codes "}" ∷ behind) in
      else_if-ReadsElse condition rest tail _ (
        chain-Reads (else_if_line condition) condition rest behind tail (meaning body)
          (meaning_else otherwise)
          (parse_if_header-if_line (else_if_line condition) condition rest
            (strip_else-else_if_line condition) k)
          (lines_of-length body (codes "}" ∷ behind))
          (lines-Reads body (codes "}" ∷ behind) behind true fb (brace-NoElse behind)
            (brace-Reads behind))
          (otherwise-ReadsElse otherwise tail fo h))

-- The lines of well-formed nested statements are parsed, with the fuel that the program's entry
-- point gives, to the tree of commands that the statements stand for, and no line is left.
pub parse_block_lines-lines_of :
    (ss : Statements)
    → AllFine ss
    → let lines = lines_of ss [] in
      parse_block_lines (enough_fuel lines) lines false ≡ ok (meaning ss, [])
parse_block_lines-lines_of ss f =
    lines-Reads ss [] [] false f tt (nil-Reads false) (enough_fuel (lines_of ss [])) (omega arith)
