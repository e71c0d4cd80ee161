-- ===== src/Command.antt =====
-- The command classes of include/ahkunix/commands/ and of src/commands/ScriptParser.cpp: one
-- constructor for each class that overrides `execute`. A `CommandList` is the second type of the
-- block.
use ahk_unix.Base.{ℕ, Bool, true, false, List, Bytes}
use ahk_unix.Base.Int.{ℤ}

-- `SendInputCommand::Part`: a text to paste, or a key to tap a number of times.
pub data Part : Type 0 where
  text_part : Bytes → Part
  key_part : ℕ → ℤ → Part

mutual
  pub data Command : Type 0 where
    send_input : Bytes → List Part → Command
    sleep : ℤ → Command
    random_assign : Bytes → ℤ → ℤ → Command
    increment : Bytes → Command
    if_command : Bytes → Commands → Commands → Command
    cancel : Command
    show_markdown : Bytes → Command
    text_command : Bytes → Command

  pub data Commands : Type 0 where
    nil : Commands
    cons : Command → Commands → Commands

-- `Command::is_interrupt`: only `CancelCommand` overrides it.
abbrev pub is_interrupt : Command → Bool
is_interrupt cancel = true
is_interrupt _ = false
