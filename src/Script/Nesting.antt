-- ===== src/Script/Nesting.antt =====
-- The block parser against the structure of a script: nested statements, written one line after
-- another, are read back as the tree of commands that they stand for.
use ahk_unix.Base.{
  ◌≤◌, ◌<◌, false, List, [], ◌∷◌, Option, ◌≡◌, refl, arith, Bytes, length, ok, codes,
}
use ahk_unix.Text.Chars.{equal, starts_with}
use ahk_unix.Text.Find.{Lacks}
use ahk_unix.Text.Trim.{trim}
use ahk_unix.Command.{Command, if_command, Commands, nil, cons}
use ahk_unix.Script.Lines.{starts_with_command}
use ahk_unix.Script.Simple.{parse_simple_command}
use ahk_unix.Script.Headers.{if_line, else_if_line, else_line}
use ahk_unix.Script.Blocks.{push}

-- A plain line, or a chain of conditions; in reverse of the parser's direction.
mutual
  pub data Statement : Type 0 where
    plain : Bytes → Option Command → Statement
    chain : Bytes → Statements → Otherwise → Statement

  pub data Statements : Type 0 where
    done : Statements
    then_do : Statement → Statements → Statements

  pub data Otherwise : Type 0 where
    no_else : Otherwise
    else_do : Statements → Otherwise
    else_if : Bytes → Statements → Otherwise → Otherwise

-- The lines of the statements, in front of `tail`.
unfoldable mutual
  pub statement_lines : Statement → List Bytes → List Bytes
  statement_lines (plain line c) tail = line ∷ tail
  statement_lines (chain condition body otherwise) tail =
      if_line condition ∷ lines_of body (codes "}" ∷ otherwise_lines otherwise tail)

  pub lines_of : Statements → List Bytes → List Bytes
  lines_of done tail = tail
  lines_of (then_do s ss) tail = statement_lines s (lines_of ss tail)

  pub otherwise_lines : Otherwise → List Bytes → List Bytes
  otherwise_lines no_else tail = tail
  otherwise_lines (else_do body) tail = else_line ∷ lines_of body (codes "}" ∷ tail)
  otherwise_lines (else_if condition body otherwise) tail =
      else_if_line condition ∷ lines_of body (codes "}" ∷ otherwise_lines otherwise tail)

-- The commands that the statements stand for.
unfoldable mutual
  pub meaning_onto : Statement → Commands → Commands
  meaning_onto (plain line c) rest = push c rest
  meaning_onto (chain condition body otherwise) rest =
      cons (if_command (trim condition) (meaning body) (meaning_else otherwise)) rest

  pub meaning : Statements → Commands
  meaning done = nil
  meaning (then_do s ss) = meaning_onto s (meaning ss)

  pub meaning_else : Otherwise → Commands
  meaning_else no_else = nil
  meaning_else (else_do body) = meaning body
  meaning_else (else_if condition body otherwise) =
      cons (if_command (trim condition) (meaning body) (meaning_else otherwise)) nil

-- A line that is no brace and no part of a chain, and the command that it is read as.
pub record IsPlain (line : Bytes) (c : Option Command) : Type 0 where
  pub no_brace : equal line (codes "}") ≡ false
  pub no_if : starts_with_command line (codes "if") ≡ false
  pub no_else_line : starts_with_command line (codes "else") ≡ false
  pub reads : parse_simple_command line ≡ ok c

-- Every plain line is one, and no condition holds a `{`.
mutual
  pub data Fine : Statement → Type 0 where
    fine_plain : {line : Bytes} {c : Option Command} → IsPlain line c → Fine (plain line c)
    fine_chain :
        {condition : Bytes} {body : Statements} {otherwise : Otherwise}
        → Lacks b'{' condition
        → AllFine body
        → FineElse otherwise
        → Fine (chain condition body otherwise)

  pub data AllFine : Statements → Type 0 where
    fine_done : AllFine done
    fine_then : {s : Statement} {ss : Statements} → Fine s → AllFine ss → AllFine (then_do s ss)

  pub data FineElse : Otherwise → Type 0 where
    fine_none : FineElse no_else
    fine_else : {body : Statements} → AllFine body → FineElse (else_do body)
    fine_else_if :
        {condition : Bytes} {body : Statements} {otherwise : Otherwise}
        → Lacks b'{' condition
        → AllFine body
        → FineElse otherwise
        → FineElse (else_if condition body otherwise)

-- The lines do not go on a chain.
abbrev pub NoElse : List Bytes → Type 0
NoElse [] = Unit
NoElse (line ∷ lines) = starts_with_command line (codes "else") ≡ false

statement_lines-NoElse :
    (s : Statement) (tail : List Bytes) → Fine s → NoElse (statement_lines s tail)
unfolding statement_lines starts_with_command starts_with
statement_lines-NoElse (plain line c) tail (fine_plain p) = p.no_else_line
statement_lines-NoElse (chain condition body otherwise) tail (fine_chain _ _ _) = refl

pub lines_of-NoElse :
    (ss : Statements) (tail : List Bytes) → AllFine ss → NoElse tail → NoElse (lines_of ss tail)
unfolding lines_of
lines_of-NoElse done tail fine_done h = h
lines_of-NoElse (then_do s ss) tail (fine_then f fs) h =
    statement_lines-NoElse s (lines_of ss tail) f

-- The lines in front of a tail make it no shorter.
mutual
  unfolding statement_lines

  statement_lines-length :
      (s : Statement) (tail : List Bytes) → length tail < length (statement_lines s tail)
  statement_lines-length (plain line c) tail = omega arith
  statement_lines-length (chain condition body otherwise) tail = omega (
    arith,
    lines_of-length body (codes "}" ∷ otherwise_lines otherwise tail),
    otherwise_lines-length otherwise tail,
  )

  pub lines_of-length :
      (ss : Statements) (tail : List Bytes) → length tail ≤ length (lines_of ss tail)
  lines_of-length done tail = omega arith
  lines_of-length (then_do s ss) tail =
      omega (arith, statement_lines-length s (lines_of ss tail), lines_of-length ss tail)

  pub otherwise_lines-length :
      (o : Otherwise) (tail : List Bytes) → length tail ≤ length (otherwise_lines o tail)
  otherwise_lines-length no_else tail = omega arith
  otherwise_lines-length (else_do body) tail =
      omega (arith, lines_of-length body (codes "}" ∷ tail))
  otherwise_lines-length (else_if condition body otherwise) tail = omega (
    arith,
    lines_of-length body (codes "}" ∷ otherwise_lines otherwise tail),
    otherwise_lines-length otherwise tail,
  )
