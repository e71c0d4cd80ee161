-- ===== src/Context/Run.antt =====
-- `execute` of the command classes: a list of commands run to its end, with the variables that it sets
-- and reads, and with the exceptions that end it (src/commands/SendInputCommand.cpp, SleepCommand.cpp,
-- CancelCommand.cpp, TextCommand.cpp, ShowMarkdownCommand.cpp, IfCommand.cpp, IncrementCommand.cpp and
-- ScriptParser.cpp). The calls of the devices, taps and pastes, are numbered: each succeeds or throws. The draws of
-- random numbers are numbered too.
use ahk_unix.Base.{
  ℕ, zero, suc, true, false, List, [], ◌∷◌, ◌++◌, is_empty, Bytes, codes, ok, err, Error, Option,
  none, some,
}
use ahk_unix.Base.Int.{ℤ, pos_part}
use ahk_unix.Command.{
  Part, text_part, key_part, Command, send_input, sleep, random_assign, increment, if_command,
  cancel, show_markdown, text_command, Commands, nil, cons,
}
use ahk_unix.Context.{Context, lookup, assign}
use ahk_unix.Context.Time.{Clock}
use ahk_unix.Context.Condition.{Op, match_random_condition, evaluate_condition}
use ahk_unix.Context.Interpolate.{interpolate}
use ahk_unix.Context.Effects as Effects

pub data Act : Type 0 where
  tapped : ℕ → Act
  pasted : Bytes → Act
  waited : ℕ → Act
  system : Bytes → Act

-- The context, the files that counters are kept in, what was done, and the numbers of draws and of calls
-- of the devices so far.
pub record Machine : Type 0 where
  pub ctx : Context
  pub files : List (Bytes × Bytes)
  pub acts : List Act
  pub draws : ℕ
  pub calls : ℕ

-- What the n-th draw between two bounds gives, what the n-th call of a device throws, and the clock
-- behind n calls of a device.
pub record World : Type 0 where
  pub draw : ℕ → ℤ → ℤ → ℤ
  pub fails : ℕ → Option Error
  pub clock : ℕ → Clock

pub data Ran : Type 0 where
  returned : Machine → Ran
  thrown : Error → Machine → Ran

abbrev pub act : Act → Machine → Machine
act a m = record m { acts = m.acts ++ (a ∷ []) }

unfoldable pub and_then : Ran → (Machine → Ran) → Ran
and_then (returned m) next = next m
and_then (thrown e m) next = thrown e m

abbrev pub called : Machine → Machine
called m = record m { calls = suc m.calls }

abbrev pub drew : Machine → Machine
drew m = record m { draws = suc m.draws }

-- A condition draws a number if it is a random one.
unfoldable pub drew_for : Option (Bytes × Bytes × Op × Bytes) → Machine → Machine
drew_for none m = m
drew_for (some _) m = drew m

-- A counter draws its first value.
unfoldable pub drew_first : Option ℤ → Machine → Machine
drew_first none m = drew m
drew_first (some value) m = m

-- A call of a device that throws, or not.
unfoldable pub device_call : Option Error → Act → Machine → Ran
device_call none a m = returned (act a (called m))
device_call (some e) a m = thrown e (called m)

-- The shell command of `ShowMarkdownCommand`.
abbrev pub overlay : Bytes → Bytes
overlay path =
    codes "pkill -f md_overlay.py 2>/dev/null; python3 /home/heysh1n/scripts/md_overlay.py \""
    ++ path
    ++ codes "\" > /dev/null 2>&1 &"

module _ (world : World) where
  -- `injector.tap` or `clipboard.paste_text_synchronously`
  unfoldable pub device : Act → Machine → Ran
  unfolding device_call
  device a m = device_call (world.fails m.calls) a m

  -- A key tapped a number of times, with a wait behind each.
  unfoldable pub tap_loop : ℕ → ℕ → ℕ → Machine → Ran
  unfolding device and_then
  tap_loop key duration zero m = returned m
  tap_loop key duration (suc count) m =
      and_then (device (tapped key) m) (λ s. tap_loop key duration count (act (waited duration) s))

  unfoldable pub paste_text : Bytes → Machine → Ran
  unfolding interpolate device
  paste_text text m = elim (is_empty text) [
    | true ↦ returned m
    | false ↦ elim (interpolate (world.clock m.calls) m.ctx text) [
      | ok final ↦ device (pasted final) m
      | err e ↦ thrown e m
    ]
  ]

  unfoldable pub parts_loop : List Part → Machine → Ran
  unfolding tap_loop paste_text and_then
  parts_loop [] m = returned m
  parts_loop (key_part key count ∷ parts) m =
      and_then (tap_loop key 5 (pos_part count) m) (parts_loop parts)
  parts_loop (text_part text ∷ parts) m = and_then (paste_text text m) (parts_loop parts)

  -- The new value is also what is written to the file.
  unfoldable pub count_up : Bytes → Machine → Ran
  unfolding drew_first
  count_up name m =
      elim (Effects.increment (world.draw m.draws) (λ path. lookup path m.files) name m.ctx) [
        | ok (ctx, written) ↦
            returned
              (record (drew_first
                (Effects.read_counter (lookup (Effects.counter_file name) m.files)) m) {
                  ctx = ctx;
                  files = assign (Effects.counter_file name) written m.files;
                })
        | err e ↦ thrown e m
      ]

  unfoldable mutual
    unfolding parts_loop count_up and_then evaluate_condition drew_for device

    pub execute : Command → Machine → Ran
    execute (send_input sequence parts) m = parts_loop parts m
    execute (sleep duration) m = returned (act (waited (pos_part duration)) m)
    execute (random_assign name lo hi) m =
        returned
          (record (drew m) { ctx = Effects.random_assign (world.draw m.draws) name lo hi m.ctx })
    execute (increment name) m = count_up name m
    execute (if_command condition yes_branch no_branch) m =
        elim (evaluate_condition (world.draw m.draws) m.ctx condition) [
          | ok true ↦ execute_list yes_branch (drew_for (match_random_condition condition) m)
          | ok false ↦ execute_list no_branch (drew_for (match_random_condition condition) m)
          | err e ↦ thrown e (drew_for (match_random_condition condition) m)
        ]
    execute cancel m = returned m
    execute (show_markdown path) m = returned (act (system (overlay path)) m)
    execute (text_command text) m = device (pasted text) m

    pub execute_list : Commands → Machine → Ran
    execute_list nil m = returned m
    execute_list (cons command commands) m = and_then (execute command m) (execute_list commands)
