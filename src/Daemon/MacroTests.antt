-- ===== src/Daemon/MacroTests.antt =====
-- A macro that waits, tests a variable, and pastes.
use ahk_unix.Base.{
  none, ℕ, Bool, false, [], ◌∷◌, ◌≡◌, refl, codes, length, leb, arith, if◌then◌else◌,
}
use ahk_unix.Base.Int.{ℤ, pos}
use ahk_unix.Keys.{key_backspace}
use ahk_unix.Command.{Commands, nil, cons, sleep, text_command, if_command}
use ahk_unix.Hotstring.{Hotstring, empty_hotstring}
use ahk_unix.Context.Time.{Clock}
use ahk_unix.Context.Run.{World}
use ahk_unix.Context.Run.{Machine, tapped, pasted, waited, returned}
use ahk_unix.Context.Run as Run
use ahk_unix.Daemon.Job.{
  goes, ended, unless_stopped, wait_loop, execute_interruptible, execute_macro,
}
use ahk_unix.Daemon.Agree.{Agrees}
use ahk_unix.Daemon.Macro.{execute_macro-Agrees, execute_macro-Within}
use ahk_unix.Daemon.Job.{Job}
use ahk_unix.Daemon.Legacy.{do_all, erased, tails, execute_macro-do_all}
use ahk_unix.Base.{◌++◌}
use ahk_unix.Daemon.Bounded.{inputs, false_loads, job_of, Within}

abbrev never : ℕ → Bool
never n = false

abbrev draw : ℤ → ℤ → ℤ
draw lo hi = lo

abbrev clock : Clock
clock = record {
  local_time = λ format. format;
  utc_time = λ format. format;
  tm_wday = 0;
  tm_yday = 0;
  milliseconds = 0;
}

abbrev machine : Machine
machine = record {
  ctx = record { variables = (codes "n", pos 3) ∷ []; variables_str = [] };
  files = [];
  acts = [];
  draws = 0;
  calls = 0;
}

abbrev world : World
world = record { draw = λ n. draw; fails = λ n. none; clock = λ n. clock }

abbrev branch : Commands
branch = cons (if_command (codes "n > 2") (cons (text_command (codes "hi")) nil) nil) nil

abbrev macro : Hotstring
macro = record empty_hotstring { trigger_keys = 4 ∷ []; commands = cons (sleep (pos 25)) branch }

execute_macro-Agrees_example :
    Agrees (execute_macro never world macro (record { loads = 0; machine = machine })) (
      Run.and_then
        (Run.tap_loop world key_backspace 8
          (if macro.erase_trigger then length macro.trigger_keys else 0)
          machine)
        (Run.execute_list world (cons (sleep (pos 25)) branch)))
execute_macro-Agrees_example =
    execute_macro-Agrees never world macro (sleep (pos 25)) branch 0 machine (λ k. refl) refl

-- A wait of 25 ms, in slices.
sleep-slices :
    execute_interruptible never world (sleep (pos 25)) (record { loads = 0; machine = machine })
    ≡ goes (record {
      loads = 3;
      machine = record machine { acts = waited 10 ∷ waited 10 ∷ waited 5 ∷ [] };
    })
unfolding execute_interruptible ended wait_loop unless_stopped
sleep-slices = refl

-- The stop is seen by the third load.
abbrev late : ℕ → Bool
late n = leb 2 n

abbrev fresh : Job
fresh = record { loads = 0; machine = machine }

fresh-Within : Within late fresh
unfolding inputs false_loads
fresh-Within = omega arith

execute_macro-Within_example : Within late (job_of (execute_macro late world macro fresh))
execute_macro-Within_example = execute_macro-Within late world macro fresh fresh-Within

abbrev legacy : Hotstring
legacy = record empty_hotstring {
  trigger_keys = 4 ∷ 5 ∷ [];
  replacement_utf8 = codes "hi";
  tail_keys = (28, pos 2) ∷ [];
}

execute_macro-do_all_example : Agrees (execute_macro never world legacy fresh) (
    do_all world
      (erased (if legacy.erase_trigger then length legacy.trigger_keys else 0)
        ++ pasted legacy.replacement_utf8 ∷ tails legacy.tail_keys)
      machine)
execute_macro-do_all_example =
    execute_macro-do_all never world legacy 0 machine (λ k. refl) refl refl
