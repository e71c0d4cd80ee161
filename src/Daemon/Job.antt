-- ===== src/Daemon/Job.antt =====
-- `Daemon::execute_macro` with the variables of Context.antt and the exceptions that end a job: the
-- interruptible commands over the machine of Context/Run.antt. The worker's loads of the stop flag are
-- numbered: the parameter `flag` tells what each of them reads. A tap or paste may throw, which ends the job.
use ahk_unix.Base.{
  ℕ, zero, suc, ◌-◌, Bool, true, false, List, [], ◌∷◌, ◌==◌, if◌then◌else◌, is_empty, length, min,
  ok, err, Error, Bytes,
}
use ahk_unix.Base.Int.{ℤ, pos_part}
use ahk_unix.Keys.{key_backspace}
use ahk_unix.Command.{
  Part, text_part, key_part, Command, send_input, sleep, if_command, cancel, Commands, nil, cons,
}
use ahk_unix.Hotstring.{Hotstring}
use ahk_unix.Context.Run.{World}
use ahk_unix.Context.Condition.{match_random_condition, evaluate_condition}
use ahk_unix.Context.Run.{tapped, pasted, waited, Machine, Ran, returned, thrown, act}
use ahk_unix.Context.Run as Run

-- The number of loads of the stop flag, and the machine.
pub record Job : Type 0 where
  pub loads : ℕ
  pub machine : Machine

-- A call goes to its end, returns early for a stop, or throws.
pub data Outcome : Type 0 where
  goes : Job → Outcome
  stops : Job → Outcome
  throws : Error → Job → Outcome

abbrev pub loaded : Job → Job
loaded j = record j { loads = suc j.loads }

abbrev pub acting : Run.Act → Job → Job
acting a j = record j { machine = act a j.machine }

-- A random condition draws a number.
abbrev pub drawing : Bytes → Job → Job
drawing condition j = record j {
  machine = Run.drew_for (match_random_condition condition) j.machine;
}

unfoldable pub and_then : Outcome → (Job → Outcome) → Outcome
and_then (goes j) next = next j
and_then (stops j) next = stops j
and_then (throws e j) next = throws e j

-- The return of a `void` function: the caller does not learn of a stop.
unfoldable pub ended : Outcome → Outcome
ended (goes j) = goes j
ended (stops j) = goes j
ended (throws e j) = throws e j

-- A call of `execute`, which no stop interrupts.
unfoldable pub of_ran : ℕ → Ran → Outcome
of_ran loads (returned m) = goes (record { loads = loads; machine = m })
of_ran loads (thrown e m) = throws e (record { loads = loads; machine = m })

module _ (flag : ℕ → Bool) (world : World) where
  -- `injector.tap` or `clipboard.paste_text_synchronously`
  unfoldable pub device : Run.Act → Job → Outcome
  unfolding of_ran
  device a j = of_ran j.loads (Run.device world a j.machine)

  -- `if (stop_requested) return;` in front of `rest`
  unfoldable pub unless_stopped : (Job → Outcome) → Job → Outcome
  unless_stopped rest j = elim (flag j.loads) [ true ↦ stops (loaded j) | false ↦ rest (loaded j) ]

  -- The loop of waits, with `after` for the return; a round waits at least a millisecond, so
  -- `remaining` is fuel enough.
  unfoldable pub wait_loop : (Job → Outcome) → ℕ → ℕ → Job → Outcome
  wait_loop after zero remaining j = after j
  wait_loop after (suc f) remaining j = elim (remaining == 0) [
    | true ↦ after j
    | false ↦
        unless_stopped
          (λ s.
            wait_loop after f (remaining - min remaining 10) (acting (waited (min remaining 10)) s))
          j
  ]

  -- `sleep_interruptible` loads the flag once more at the end.
  unfoldable pub sleep_interruptible : ℕ → Job → Outcome
  unfolding wait_loop unless_stopped
  sleep_interruptible duration j = wait_loop (unless_stopped (λ s. goes s)) duration duration j

  -- A key tapped `n` times, with a wait behind each: the erasing of a trigger, and a key of `SendInput`.
  unfoldable pub tap_loop : ℕ → ℕ → ℕ → Job → Outcome
  tap_loop key duration zero j = goes j
  tap_loop key duration (suc n) j =
      unless_stopped
        (λ s.
          and_then (device (tapped key) s)
            (λ t. and_then (sleep_interruptible duration t) (tap_loop key duration n)))
        j

  -- A tail key of a replacement: no wait.
  unfoldable pub tail_loop : ℕ → ℕ → Job → Outcome
  tail_loop key zero j = goes j
  tail_loop key (suc n) j =
      unless_stopped (λ s. and_then (device (tapped key) s) (tail_loop key n)) j

  unfoldable pub tail_keys_loop : List (ℕ × ℤ) → Job → Outcome
  tail_keys_loop [] j = goes j
  tail_keys_loop ((key, count) ∷ keys) j =
      and_then (tail_loop key (pos_part count) j) (tail_keys_loop keys)

  unfoldable pub execute_legacy_replacement : Hotstring → Job → Outcome
  execute_legacy_replacement hs j =
      unless_stopped
        (λ s. and_then (device (pasted hs.replacement_utf8) s) (tail_keys_loop hs.tail_keys)) j

  -- The loop of `SendInputCommand::execute_interruptible`.
  unfoldable pub parts_loop : List Part → Job → Outcome
  parts_loop [] j = goes j
  parts_loop (key_part key count ∷ parts) j =
      unless_stopped (λ s. and_then (tap_loop key 5 (pos_part count) s) (parts_loop parts)) j
  parts_loop (text_part text ∷ parts) j =
      unless_stopped
        (λ s. and_then (of_ran s.loads (Run.paste_text world text s.machine)) (parts_loop parts)) j

  -- `Command::execute_interruptible`
  unfoldable mutual
    unfolding parts_loop wait_loop unless_stopped of_ran ended and_then

    pub execute_interruptible : Command → Job → Outcome
    execute_interruptible (send_input sequence parts) j = ended (parts_loop parts j)
    execute_interruptible (sleep duration) j =
        ended (wait_loop (λ s. goes s) (pos_part duration) (pos_part duration) j)
    execute_interruptible (if_command condition yes_branch no_branch) j = elim (flag j.loads) [
      | true ↦ goes (loaded j)
      | false ↦ elim (evaluate_condition (world.draw j.machine.draws) j.machine.ctx condition) [
        | ok true ↦ ended (execute_commands yes_branch (drawing condition (loaded j)))
        | ok false ↦ ended (execute_commands no_branch (drawing condition (loaded j)))
        | err e ↦ throws e (drawing condition (loaded j))
      ]
    ]
    execute_interruptible cancel j = goes j
    execute_interruptible command j =
        ended (unless_stopped (λ s. of_ran s.loads (Run.execute world command s.machine)) j)

    pub execute_commands : Commands → Job → Outcome
    execute_commands nil j = goes j
    execute_commands (cons command commands) j =
        unless_stopped (λ s. and_then (execute_interruptible command s) (execute_commands commands))
          j

  -- `execute_macro` behind the erasing of the trigger.
  unfoldable pub execute_body : Hotstring → Job → Outcome
  execute_body hs j = elim hs.commands [
    | nil ↦ if is_empty hs.replacement_utf8 then goes j else execute_legacy_replacement hs j
    | cons command commands ↦ execute_commands (cons command commands) j
  ]

  unfoldable pub execute_macro : Hotstring → Job → Outcome
  execute_macro hs j =
      and_then (tap_loop key_backspace 8 (if hs.erase_trigger then length hs.trigger_keys else 0) j)
        (unless_stopped (execute_body hs))
