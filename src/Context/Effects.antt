-- ===== src/Context/Effects.antt =====
-- What the commands do to the variables: `RandomAssignCommand::execute` of src/commands/ScriptParser.cpp
-- and `IncrementCommand::execute` of src/commands/IncrementCommand.cpp. The contents of a file and the
-- draw of a random number are the system's.
use ahk_unix.Base.{
  ◌++◌, Option, none, some, if◌then◌else◌, Bytes, codes, Result, ok, err, undefined, ◌>>=◌,
}
use ahk_unix.Base.Int.{ℤ, pos, ◌+ℤ◌, int_max, ltb_ℤ}
use ahk_unix.Text.Number.{stoi, to_string}
use ahk_unix.Context.{Context, set_variable, set_variable_str}
use ahk_unix.Context.Condition.{ordered_draw}

unfoldable pub random_assign : (ℤ → ℤ → ℤ) → Bytes → ℤ → ℤ → Context → Context
unfolding set_variable ordered_draw
random_assign draw name min_val max_val ctx =
    set_variable name (ordered_draw draw min_val max_val) ctx

abbrev pub counter_file : Bytes → Bytes
counter_file name = codes "/tmp/ahkunix_var_" ++ name ++ codes ".txt"

-- `in >> value`, where it succeeds: a file that opens and begins with an `int`.
unfoldable pub read_counter : Option Bytes → Option ℤ
read_counter none = none
read_counter (some contents) = elim (stoi contents) [ ok value ↦ some value | err e ↦ none ]

-- The new value: the one behind the value read, or a random one. An `int` behind the last is undefined.
unfoldable pub next_value : (ℤ → ℤ → ℤ) → Option ℤ → Result ℤ
next_value draw none = ok (draw (pos 0) (pos 50))
next_value draw (some value) = if ltb_ℤ value int_max then ok (value +ℤ pos 1) else err undefined

-- The context, and what is written to the file of the counter.
unfoldable pub increment :
    (ℤ → ℤ → ℤ) → (Bytes → Option Bytes) → Bytes → Context → Result (Context × Bytes)
unfolding read_counter next_value set_variable_str to_string
increment draw contents name ctx = do
  value ← next_value draw (read_counter (contents (counter_file name)))
  ok (set_variable_str name (to_string value) ctx, to_string value)
