-- ===== src/Daemon/Executed.antt =====
-- Each command that no stop interrupts, against its `execute`, and the macro that they make.
use ahk_unix.Base.{
  ℕ, suc, Option, none, some, Bool, true, false, ◌≡◌, arith, Bytes, Result, ok, err,
}
use ahk_unix.Base.Int.{ℤ, pos_part}
use ahk_unix.Command.{
  Command, send_input, sleep, random_assign, increment, if_command, cancel, show_markdown,
  text_command, Commands, nil, cons,
}
use ahk_unix.Context.{Context, lookup, assign}
use ahk_unix.Context.Run.{World}
use ahk_unix.Context.Condition.{Op, match_random_condition, evaluate_condition}
use ahk_unix.Context.Effects as Effects
use ahk_unix.Context.Run.{
  Act, pasted, waited, system, Machine, Ran, returned, thrown, act, overlay, drew_for, drew_first,
}
use ahk_unix.Context.Run as Run
use ahk_unix.Daemon.Job.{
  Job, Outcome, goes, throws, and_then, ended, of_ran, unless_stopped, execute_interruptible,
  execute_commands,
}
use ahk_unix.Daemon.Agree.{
  Alike, alike, Agrees, both_go, both_throw, act-Alike, unless-Agrees, and_then-Agrees,
  ended-Agrees, wait_loop-Agrees, Follows,
}
use ahk_unix.Daemon.Whole.{device-Agrees, parts_loop-Agrees}

unstopped :
    (b : Bool) (x y : Outcome) (ran : Ran)
    → b ≡ false
    → Agrees y ran
    → Agrees (elim b [ true ↦ x | false ↦ y ]) ran
unstopped true x y ran e a = absurd (ground (arith, e))
unstopped false x y ran e a = a

drew_for-Alike :
    (o : Option (Bytes × Bytes × Op × Bytes)) (x y : Machine)
    → Alike x y
    → Alike (drew_for o x) (drew_for o y)
unfolding drew_for
drew_for-Alike none x y same = same
drew_for-Alike (some _) _ _ (alike done acts e) = alike done acts e

counted-Agrees :
    (r : Result (Context × Bytes)) (first : Option ℤ) (name : Bytes) (n : ℕ) (a m : Machine)
    → Alike a m
    → Agrees
        (of_ran n (elim r [
          | ok (next, written) ↦ returned (record (drew_first first a) {
            ctx = next;
            files = assign (Effects.counter_file name) written a.files;
          })
          | err e ↦ thrown e a
        ]))
        (elim r [
          | ok (next, written) ↦ returned (record (drew_first first m) {
            ctx = next;
            files = assign (Effects.counter_file name) written m.files;
          })
          | err e ↦ thrown e m
        ])
unfolding of_ran drew_first
counted-Agrees (ok (next, written)) none name n _ _ (alike done acts e) =
    both_go n (alike done acts e)
counted-Agrees (ok (next, written)) (some v) name n _ _ (alike done acts e) =
    both_go n (alike done acts e)
counted-Agrees (err w) first name n _ _ (alike done acts e) = both_throw n w (alike done acts e)

module _ (flag : ℕ → Bool) (world : World) (clear : (n : ℕ) → flag n ≡ false) where
  branch-Agrees :
      (r : Result Bool) (on_yes on_no : Job → Outcome) (yes_run no_run : Machine → Ran)
      → Follows flag world clear on_yes yes_run
      → Follows flag world clear on_no no_run
      → (n : ℕ) (a m : Machine) → Alike a m
      → Agrees
          (elim r [
            | ok true ↦ ended (on_yes (record { loads = n; machine = a }))
            | ok false ↦ ended (on_no (record { loads = n; machine = a }))
            | err e ↦ throws e (record { loads = n; machine = a })
          ])
          (elim r [ ok true ↦ yes_run m | ok false ↦ no_run m | err e ↦ thrown e m ])
  branch-Agrees (ok true) on_yes on_no yes_run no_run y f n a m same =
      ended-Agrees flag world clear _ _ (y n a m same)
  branch-Agrees (ok false) on_yes on_no yes_run no_run y f n a m same =
      ended-Agrees flag world clear _ _ (f n a m same)
  branch-Agrees (err e) on_yes on_no yes_run no_run y f n a m same = both_throw n e same

  -- A command that no stop interrupts once it has begun.
  begun-Agrees :
      (ran ran' : Machine → Ran) (n : ℕ) (a m : Machine)
      → Agrees (of_ran (suc n) (ran a)) (ran' m)
      → Agrees
          (ended (
            unless_stopped flag world
              (λ s. of_ran s.loads (ran s.machine))
              (record { loads = n; machine = a })))
          (ran' m)
  begun-Agrees ran ran' n a m h = ended-Agrees flag world clear _ _ (
      unless-Agrees flag world clear (λ s. of_ran s.loads (ran s.machine))
        (record { loads = n; machine = a }) _ h)

  mutual
    unfolding execute_interruptible execute_commands Run.execute Run.execute_list Run.count_up
        of_ran Effects.random_assign

    execute-Agrees :
        (command : Command) (n : ℕ) (a m : Machine)
        → Alike a m
        → Agrees
            (execute_interruptible flag world command (record { loads = n; machine = a }))
            (Run.execute world command m)
    execute-Agrees (send_input sequence parts) n a m same =
        ended-Agrees flag world clear _ _ (parts_loop-Agrees flag world clear parts n a m same)
    execute-Agrees (sleep duration) n a m same = ended-Agrees flag world clear _ _ (
        wait_loop-Agrees flag world clear (λ s. goes s) (λ k b s h. both_go k h) (pos_part duration)
          (pos_part duration) n a m (omega arith) same)
    execute-Agrees (random_assign name lo hi) n _ _ (alike done acts e) =
        begun-Agrees (Run.execute world (random_assign name lo hi))
          (Run.execute world (random_assign name lo hi)) n _ _ (both_go (suc n) (alike done acts e))
    execute-Agrees (increment name) n _ _ (alike {ctx} {files} {draws} {calls} done acts e) =
        begun-Agrees (Run.execute world (increment name)) (Run.execute world (increment name)) n _ _
          (counted-Agrees
            (Effects.increment (world.draw draws) (λ path. lookup path files) name ctx)
            (Effects.read_counter (lookup (Effects.counter_file name) files)) name (suc n) _ _
            (alike {ctx = ctx} {files = files} {draws = draws} {calls = calls} done acts e))
    execute-Agrees (if_command condition yes_branch no_branch) n _ _
          (alike {ctx} {files} {draws} done acts e) =
        unstopped (flag n) _ _ _ (clear n) (
          branch-Agrees (evaluate_condition (world.draw draws) ctx condition)
            (execute_commands flag world yes_branch) (execute_commands flag world no_branch)
            (Run.execute_list world yes_branch) (Run.execute_list world no_branch)
            (λ k b s h. execute_commands-Agrees yes_branch k b s h)
            (λ k b s h. execute_commands-Agrees no_branch k b s h) (suc n) _ _
            (drew_for-Alike (match_random_condition condition) _ _ (alike done acts e)))
    execute-Agrees cancel n a m same = both_go n same
    execute-Agrees (show_markdown path) n a m same =
        begun-Agrees (Run.execute world (show_markdown path))
          (Run.execute world (show_markdown path)) n a m
          (both_go (suc n) (act-Alike (system (overlay path)) same))
    execute-Agrees (text_command text) n a m same =
        begun-Agrees (Run.execute world (text_command text)) (Run.execute world (text_command text))
          n a m (device-Agrees flag world clear (pasted text) (suc n) a m same)

    pub execute_commands-Agrees :
        (commands : Commands) (n : ℕ) (a m : Machine)
        → Alike a m
        → Agrees
            (execute_commands flag world commands (record { loads = n; machine = a }))
            (Run.execute_list world commands m)
    execute_commands-Agrees nil n a m same = both_go n same
    execute_commands-Agrees (cons command commands) n a m same =
        unless-Agrees flag world clear
          (λ s.
            and_then (execute_interruptible flag world command s)
              (execute_commands flag world commands))
          (record { loads = n; machine = a }) _
          (and_then-Agrees flag world clear _ (Run.execute world command m)
            (execute_commands flag world commands) (Run.execute_list world commands)
            (execute-Agrees command (suc n) a m same)
            (λ k b s h. execute_commands-Agrees commands k b s h))
