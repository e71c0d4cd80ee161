-- ===== src/Context/Tests.antt =====
-- Examples of a condition, of an expression, and of its overflow.
use ahk_unix.Base.{
  Bool, true, ◌↔◌, ◌⊎◌, [], ◌∷◌, ◌≡◌, ◌^◌, refl, arith, codes, ok, err, undefined, none,
}
use ahk_unix.Base.Int.{ℤ, pos}
use ahk_unix.Text.Chars.{is_ident_start, is_word}
use ahk_unix.Context.{Context, empty_context, get_variable}
use ahk_unix.Context.Time.{Clock}
use ahk_unix.Context.Condition.{greater, at_least, evaluate_condition}
use ahk_unix.Context.Matchers.{times, minus}
use ahk_unix.Context.Interpolate.{checked, apply, calculate, interpolate}
use ahk_unix.Context.Written.{condition_text}
use ahk_unix.Command.{Commands, nil, cons, text_command, random_assign, if_command}
use ahk_unix.Text.Number.{to_string}
use ahk_unix.Context.Compared.{Holds, evaluate_condition-Holds}
use ahk_unix.Context.Exact.{exact, IsLong, IsNearest, interpolate-exact}
use ahk_unix.Context.Run.{World, Machine, and_then, execute_list}
use ahk_unix.Context.Branch.{drawn, execute_list-random_assign}
use ahk_unix.Context.Math.{math_text, interpolate-math_text}

abbrev first_draw : ℤ → ℤ → ℤ
first_draw lo hi = lo

abbrev counted : Context
counted = record { variables = (codes "n", pos 3) ∷ []; variables_str = [] }

evaluate_condition-Holds_example :
    (b : Bool) × (evaluate_condition first_draw counted (condition_text (codes "n") greater (pos 2))
      ≡ ok b)
    × ((b ≡ true) ↔ Holds greater (get_variable counted (codes "n")) (pos 2))
unfolding is_ident_start is_word
evaluate_condition-Holds_example =
    evaluate_condition-Holds first_draw counted (codes "n") greater (pos 2) (refl, tt)
      (omega arith, omega arith)

abbrev clock : Clock
clock = record {
  local_time = λ format. format;
  utc_time = λ format. format;
  tm_wday = 0;
  tm_yday = 0;
  milliseconds = 0;
}

interpolate-exact_example :
    (IsLong (exact minus (pos 0) (pos 1))
      × ((v : ℤ) × IsNearest v (exact minus (pos 0) (pos 1))
          × (interpolate clock empty_context (math_text minus (pos 0) (pos 1)) ≡ ok (to_string v))))
    ⊎ ((¬ (IsLong (exact minus (pos 0) (pos 1))))
        × (interpolate clock empty_context (math_text minus (pos 0) (pos 1)) ≡ err undefined))
interpolate-exact_example =
    interpolate-exact clock empty_context minus (pos 0) (pos 1) (omega arith, omega arith)
      (omega arith, omega arith)

-- The product of two numbers that a `long long` holds is computed before it is clamped, and overflows.
product-overflows :
    interpolate clock empty_context (math_text times (pos (2 ^ 62)) (pos 2)) ≡ err undefined
unfolding calculate apply checked
product-overflows =
    interpolate-math_text clock empty_context times (pos (2 ^ 62)) (pos 2)
      (omega arith, omega arith) (omega arith, omega arith)

abbrev machine : Machine
machine = record { ctx = empty_context; files = []; acts = []; draws = 0; calls = 0 }

abbrev world : World
world = record { draw = λ n. first_draw; fails = λ n. none; clock = λ n. clock }

abbrev say : Commands
say = cons (text_command (codes "hi")) nil

execute_list-random_assign_example :
    execute_list world
      (cons
        (random_assign (codes "n") (pos 1) (pos 6))
        (cons (if_command (condition_text (codes "n") at_least (pos 1)) say nil) nil))
      machine
    ≡ and_then
        (execute_list world say (drawn world (codes "n") (pos 1) (pos 6) machine))
        (execute_list world nil)
unfolding is_ident_start is_word
execute_list-random_assign_example =
    execute_list-random_assign world (codes "n") (pos 1) (pos 6) say nil nil machine (refl, tt)
      (omega arith, omega arith) (omega arith) (omega arith)
