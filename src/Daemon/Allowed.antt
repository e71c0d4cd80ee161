-- ===== src/Daemon/Allowed.antt =====
-- Each command of a job against its loads of the stop flag, and the macro that they make.
use ahk_unix.Base.{
  Option, none, some, Error, ◌≡◌, refl, sym, subst, ℕ, ◌+◌, ◌≤◌, Bool, true, false, List, [], ◌∷◌,
  arith, is_empty, Bytes, Result, ok, err,
}
use ahk_unix.Base.Int.{ℤ, pos_part}
use ahk_unix.Command.{
  Part, text_part, key_part, Command, send_input, sleep, random_assign, increment, if_command,
  cancel, show_markdown, text_command, Commands, nil, cons,
}
use ahk_unix.Context.{Context, lookup, assign}
use ahk_unix.Context.Run.{World}
use ahk_unix.Context.Condition.{Op, match_random_condition, evaluate_condition}
use ahk_unix.Context.Interpolate.{interpolate}
use ahk_unix.Context.Effects as Effects
use ahk_unix.Context.Run.{
  Act, pasted, waited, system, overlay, Machine, Ran, returned, thrown, device_call, drew_for,
  drew_first,
}
use ahk_unix.Context.Run as Run
use ahk_unix.Daemon.Job.{
  Job, Outcome, goes, throws, loaded, drawing, and_then, ended, of_ran, unless_stopped, wait_loop,
  tap_loop, parts_loop, execute_interruptible, execute_commands,
}
use ahk_unix.Daemon.Bounded.{
  cost, false_loads, inputs, inputs-concat, job_of, machine_of, Within, Spare, of_ran-Within,
  ended-Within, and_then-Within, loaded-Within, unless-Within, wait_loop-Within, tap_loop-Within,
}

-- A run does one act at most.
abbrev OneMore : Ran → Machine → Type 0
OneMore ran m = inputs (machine_of ran).acts ≤ inputs m.acts + 1

call-OneMore :
    (r : Option Error) (a : Act) (m : Machine) → cost a ≤ 1 → OneMore (device_call r a m) m
unfolding device_call
call-OneMore none a m c = omega (arith, inputs-concat m.acts a)
call-OneMore (some e) a m c = omega arith

device-OneMore :
    (world : World) (a : Act) (m : Machine) → cost a ≤ 1 → OneMore (Run.device world a m) m
unfolding Run.device
device-OneMore world a m c = call-OneMore (world.fails m.calls) a m c

paste_text-OneMore :
    (world : World) (text : Bytes) (m : Machine) → OneMore (Run.paste_text world text m) m
unfolding Run.paste_text
paste_text-OneMore world text m =
    chosen (is_empty text) (interpolate (world.clock m.calls) m.ctx text)
  where
    chosen :
        (b : Bool) (r : Result Bytes)
        → OneMore
            (elim b [
              | true ↦ returned m
              | false ↦ elim r [ ok final ↦ Run.device world (pasted final) m | err e ↦ thrown e m ]
            ])
            m
    chosen true r = omega arith
    chosen false (ok final) = device-OneMore world (pasted final) m (omega arith)
    chosen false (err e) = omega arith

drew_first-acts : (first : Option ℤ) (m : Machine) → (drew_first first m).acts ≡ m.acts
unfolding drew_first
drew_first-acts none m = refl
drew_first-acts (some v) m = refl

drew_for-acts :
    (o : Option (Bytes × Bytes × Op × Bytes)) (m : Machine) → (drew_for o m).acts ≡ m.acts
unfolding drew_for
drew_for-acts none m = refl
drew_for-acts (some _) m = refl

count_up-OneMore :
    (world : World) (name : Bytes) (m : Machine) → OneMore (Run.count_up world name m) m
unfolding Run.count_up
count_up-OneMore world name m =
    counted (Effects.increment (world.draw m.draws) (λ path. lookup path m.files) name m.ctx)
      (Effects.read_counter (lookup (Effects.counter_file name) m.files))
  where
    counted :
        (r : Result (Context × Bytes)) (first : Option ℤ)
        → OneMore
            (elim r [
              | ok (ctx, written) ↦ returned (record (drew_first first m) {
                ctx = ctx;
                files = assign (Effects.counter_file name) written m.files;
              })
              | err e ↦ thrown e m
            ])
            m
    counted (ok (ctx, written)) first =
        subst (λ acts. inputs acts ≤ inputs m.acts + 1) (sym (drew_first-acts first m))
          (omega arith)
    counted (err e) first = omega arith

module _ (flag : ℕ → Bool) (world : World) where
  spent-Within :
      (s : Job) (ran : Ran)
      → Spare flag s
      → OneMore ran s.machine
      → Within flag (job_of (of_ran s.loads ran))
  spent-Within s ran p one = of_ran-Within flag s.loads ran (omega arith)

  begun-Within :
      (ran : Machine → Ran) (j : Job)
      → Within flag j
      → ((m : Machine) → OneMore (ran m) m)
      → Within flag
          (job_of (ended (unless_stopped flag world (λ s. of_ran s.loads (ran s.machine)) j)))
  begun-Within ran j h one =
      let go : Job → Outcome = λ s. of_ran s.loads (ran s.machine) in
      ended-Within flag (unless_stopped flag world go j)
        (unless-Within flag world go j h (λ s p. spent-Within s (ran s.machine) p (one s.machine)))

  parts_loop-Within :
      (parts : List Part) (j : Job)
      → Within flag j
      → Within flag (job_of (parts_loop flag world parts j))
  unfolding parts_loop
  parts_loop-Within [] j h = h
  parts_loop-Within (key_part key count ∷ parts) j h =
      let taps : Job → Outcome = λ s. tap_loop flag world key 5 (pos_part count) s in
      let rest : Job → Outcome = parts_loop flag world parts in
      unless-Within flag world (λ s. and_then (taps s) rest) j h
        (λ s p.
          and_then-Within flag (taps s) rest
            (tap_loop-Within flag world key 5 (pos_part count) s (omega arith))
            (λ b q. parts_loop-Within parts b q))
  parts_loop-Within (text_part text ∷ parts) j h =
      let paste : Job → Outcome = λ s. of_ran s.loads (Run.paste_text world text s.machine) in
      let rest : Job → Outcome = parts_loop flag world parts in
      unless-Within flag world (λ s. and_then (paste s) rest) j h
        (λ s p.
          and_then-Within flag (paste s) rest
            (spent-Within s (Run.paste_text world text s.machine) p
              (paste_text-OneMore world text s.machine))
            (λ b q. parts_loop-Within parts b q))

  drawing-Within : (condition : Bytes) (j : Job) → Within flag j → Within flag (drawing condition j)
  drawing-Within condition j h =
      subst (λ acts. inputs acts ≤ false_loads flag j.loads)
        (sym (drew_for-acts (match_random_condition condition) j.machine)) h

  branch-Within :
      (condition : Bytes) (b : Bool) (r : Result Bool) (on_yes on_no : Job → Outcome) (j : Job)
      → Within flag j
      → ((s : Job) → Within flag s → Within flag (job_of (on_yes s)))
      → ((s : Job) → Within flag s → Within flag (job_of (on_no s)))
      → Within flag (
          job_of (elim b [
            | true ↦ goes (loaded j)
            | false ↦ elim r [
              | ok true ↦ ended (on_yes (drawing condition (loaded j)))
              | ok false ↦ ended (on_no (drawing condition (loaded j)))
              | err e ↦ throws e (drawing condition (loaded j))
            ]
          ]))
  branch-Within condition true r on_yes on_no j h y n = loaded-Within flag j h
  branch-Within condition false (ok true) on_yes on_no j h y n =
      let s : Job = drawing condition (loaded j) in
      ended-Within flag (on_yes s)
        (y s (drawing-Within condition (loaded j) (loaded-Within flag j h)))
  branch-Within condition false (ok false) on_yes on_no j h y n =
      let s : Job = drawing condition (loaded j) in
      ended-Within flag (on_no s)
        (n s (drawing-Within condition (loaded j) (loaded-Within flag j h)))
  branch-Within condition false (err e) on_yes on_no j h y n =
      drawing-Within condition (loaded j) (loaded-Within flag j h)

  mutual
    unfolding execute_interruptible execute_commands Run.execute Effects.random_assign

    execute-Within :
        (command : Command) (j : Job)
        → Within flag j
        → Within flag (job_of (execute_interruptible flag world command j))
    execute-Within (send_input sequence parts) j h =
        ended-Within flag (parts_loop flag world parts j) (parts_loop-Within parts j h)
    execute-Within (sleep duration) j h =
        let nap : Outcome =
          wait_loop flag world (λ s. goes s) (pos_part duration) (pos_part duration) j in
        ended-Within flag nap (
          wait_loop-Within flag world (λ s. goes s) (λ s q. q) (pos_part duration)
            (pos_part duration) j h)
    execute-Within (random_assign name lo hi) j h =
        begun-Within (Run.execute world (random_assign name lo hi)) j h (λ m. omega arith)
    execute-Within (increment name) j h =
        begun-Within (Run.execute world (increment name)) j h (λ m. count_up-OneMore world name m)
    execute-Within (if_command condition yes_branch no_branch) j h =
        branch-Within condition (flag j.loads)
          (evaluate_condition (world.draw j.machine.draws) j.machine.ctx condition)
          (execute_commands flag world yes_branch) (execute_commands flag world no_branch) j h
          (λ s q. execute_commands-Within yes_branch s q)
          (λ s q. execute_commands-Within no_branch s q)
    execute-Within cancel j h = h
    execute-Within (show_markdown path) j h =
        begun-Within (Run.execute world (show_markdown path)) j h
          (λ m. omega (arith, inputs-concat m.acts (system (overlay path))))
    execute-Within (text_command text) j h =
        begun-Within (Run.execute world (text_command text)) j h
          (λ m. device-OneMore world (pasted text) m (omega arith))

    pub execute_commands-Within :
        (commands : Commands) (j : Job)
        → Within flag j
        → Within flag (job_of (execute_commands flag world commands j))
    execute_commands-Within nil j h = h
    execute_commands-Within (cons command commands) j h =
        let first : Job → Outcome = λ s. execute_interruptible flag world command s in
        let rest : Job → Outcome = execute_commands flag world commands in
        unless-Within flag world (λ s. and_then (first s) rest) j h
          (λ s p.
            and_then-Within flag (first s) rest (execute-Within command s (omega arith))
              (λ b q. execute_commands-Within commands b q))
