-- ===== src/Daemon/Bounded.antt =====
-- The acts of a job against its loads of the stop flag, whatever they read.
use ahk_unix.Base.{
  Option, none, some, Error, ℕ, zero, suc, ◌+◌, ◌-◌, ◌≤◌, Bool, false, List, [], ◌∷◌, ◌++◌, ◌≡◌,
  inl, inr, arith, Bool-cases, ◌==◌, if◌then◌else◌, min,
}
use ahk_unix.Base.Int.{ℤ, pos_part}
use ahk_unix.Hotstring.{Hotstring}
use ahk_unix.Context.Run.{World}
use ahk_unix.Context.Run.{Act, tapped, pasted, waited, Machine, Ran, returned, thrown, device_call}
use ahk_unix.Context.Run as Run
use ahk_unix.Daemon.Job.{
  Job, Outcome, goes, stops, throws, loaded, acting, and_then, ended, of_ran, unless_stopped,
  device, wait_loop, sleep_interruptible, tap_loop, tail_loop, tail_keys_loop,
  execute_legacy_replacement,
}

-- All acts but the waits.
abbrev pub cost : Act → ℕ
cost (waited _) = 0
cost _ = 1

unfoldable pub inputs : List Act → ℕ
inputs [] = 0
inputs (a ∷ acts) = cost a + inputs acts

pub inputs-concat : (acts : List Act) (a : Act) → inputs (acts ++ (a ∷ [])) ≡ inputs acts + cost a
unfolding inputs
inputs-concat [] a = omega arith
inputs-concat (b ∷ acts) a = omega (arith, inputs-concat acts a)

abbrev pub job_of : Outcome → Job
job_of (goes j) = j
job_of (stops j) = j
job_of (throws e j) = j

abbrev pub machine_of : Ran → Machine
machine_of (returned m) = m
machine_of (thrown e m) = m

module _ (flag : ℕ → Bool) where
  -- The loads among the first `n` that read false.
  unfoldable pub false_loads : ℕ → ℕ
  false_loads zero = 0
  false_loads (suc n) = (if flag n then 0 else 1) + false_loads n

  -- At most as many acts as loads that read false.
  abbrev pub Within : Job → Type 0
  Within j = inputs j.machine.acts ≤ false_loads j.loads

  -- One act fewer.
  abbrev pub Spare : Job → Type 0
  Spare j = inputs j.machine.acts + 1 ≤ false_loads j.loads

  loaded-Spare : (j : Job) → Within j → flag j.loads ≡ false → Spare (loaded j)
  unfolding false_loads
  loaded-Spare j h e = rw e (omega arith)

  pub loaded-Within : (j : Job) → Within j → Within (loaded j)
  unfolding false_loads
  loaded-Within j h = elim (Bool-cases (flag j.loads)) [
    | inl e ↦ rw e (omega arith)
    | inr e ↦ rw e (omega arith)
  ]

  pub acting-Within : (a : Act) (j : Job) → Spare j → cost a ≤ 1 → Within (acting a j)
  acting-Within a j h c = omega (arith, inputs-concat j.machine.acts a)

  waiting-Within : (n : ℕ) (j : Job) → Within j → Within (acting (waited n) j)
  waiting-Within n j h = omega (arith, inputs-concat j.machine.acts (waited n))

  -- A call of `execute` that does one act at most.
  pub of_ran-Within :
      (n : ℕ) (ran : Ran)
      → inputs (machine_of ran).acts ≤ false_loads n
      → Within (job_of (of_ran n ran))
  unfolding of_ran
  of_ran-Within n (returned m) h = h
  of_ran-Within n (thrown e m) h = h

  pub ended-Within : (o : Outcome) → Within (job_of o) → Within (job_of (ended o))
  unfolding ended
  ended-Within (goes j) h = h
  ended-Within (stops j) h = h
  ended-Within (throws e j) h = h

  pub and_then-Within :
      (o : Outcome) (next : Job → Outcome)
      → Within (job_of o)
      → ((j : Job) → Within j → Within (job_of (next j)))
      → Within (job_of (and_then o next))
  unfolding and_then
  and_then-Within (goes j) next h k = k j h
  and_then-Within (stops j) next h k = h
  and_then-Within (throws e j) next h k = h

  module _ (world : World) where
    call-Within :
        (r : Option Error) (a : Act) (j : Job)
        → Spare j
        → cost a ≤ 1
        → Within (job_of (of_ran j.loads (device_call r a j.machine)))
    unfolding of_ran device_call
    call-Within none a j h c = acting-Within a j h c
    call-Within (some e) a j h c = omega arith

    -- A call of a device does one act at most.
    device-Within :
        (a : Act) (j : Job) → Spare j → cost a ≤ 1 → Within (job_of (device flag world a j))
    unfolding device Run.device
    device-Within a j h c = call-Within (world.fails j.machine.calls) a j h c

    -- What goes on only when a load reads false may do one act.
    pub unless-Within :
        (rest : Job → Outcome) (j : Job)
        → Within j
        → ((s : Job) → Spare s → Within (job_of (rest s)))
        → Within (job_of (unless_stopped flag world rest j))
    unfolding unless_stopped
    unless-Within rest j h k = elim (Bool-cases (flag j.loads)) [
      | inl e ↦ rw (e, unless_stopped) (loaded-Within j h)
      | inr e ↦ rw (e, unless_stopped) (k (loaded j) (loaded-Spare j h e))
    ]

    pub wait_loop-Within :
        (after : Job → Outcome)
        → ((j : Job) → Within j → Within (job_of (after j)))
        → (f remaining : ℕ) (j : Job) → Within j
        → Within (job_of (wait_loop flag world after f remaining j))
    unfolding wait_loop
    wait_loop-Within after k zero remaining j h = k j h
    wait_loop-Within after k (suc f) remaining j h = elim (Bool-cases (remaining == 0)) [
      | inl e ↦ rw (e, wait_loop) (k j h)
      | inr e ↦
          rw (e, wait_loop)
            (unless-Within _ j h (λ s p.
              wait_loop-Within after k f (remaining - min remaining 10)
                (acting (waited (min remaining 10)) s)
                (waiting-Within (min remaining 10) s (omega arith))))
    ]

    sleep-Within :
        (duration : ℕ) (j : Job)
        → Within j
        → Within (job_of (sleep_interruptible flag world duration j))
    unfolding sleep_interruptible
    sleep-Within duration j h =
        wait_loop-Within (unless_stopped flag world (λ end. goes end))
          (λ b q. unless-Within (λ end. goes end) b q (λ c r. omega arith)) duration duration j h

    pub tap_loop-Within :
        (key duration count : ℕ) (j : Job)
        → Within j
        → Within (job_of (tap_loop flag world key duration count j))
    unfolding tap_loop
    tap_loop-Within key duration zero j h = h
    tap_loop-Within key duration (suc count) j h =
        let rest : Job → Outcome = tap_loop flag world key duration count in
        let nap : Job → Outcome = λ s. sleep_interruptible flag world duration s in
        let tap : Job → Outcome = λ s. device flag world (tapped key) s in
        unless-Within (λ s. and_then (tap s) (λ t. and_then (nap t) rest)) j h
          (λ s p.
            and_then-Within (tap s) (λ t. and_then (nap t) rest)
              (device-Within (tapped key) s p (omega arith))
              (λ t r.
                and_then-Within (nap t) rest (sleep-Within duration t r)
                  (λ b q. tap_loop-Within key duration count b q)))

    tail_loop-Within :
        (key count : ℕ) (j : Job) → Within j → Within (job_of (tail_loop flag world key count j))
    unfolding tail_loop
    tail_loop-Within key zero j h = h
    tail_loop-Within key (suc count) j h = unless-Within _ j h (λ s p.
        and_then-Within (device flag world (tapped key) s) (tail_loop flag world key count)
          (device-Within (tapped key) s p (omega arith)) (λ b q. tail_loop-Within key count b q))

    tail_keys_loop-Within :
        (keys : List (ℕ × ℤ)) (j : Job)
        → Within j
        → Within (job_of (tail_keys_loop flag world keys j))
    unfolding tail_keys_loop
    tail_keys_loop-Within [] j h = h
    tail_keys_loop-Within ((key, count) ∷ keys) j h =
        and_then-Within _ (tail_keys_loop flag world keys)
          (tail_loop-Within key (pos_part count) j h) (λ b q. tail_keys_loop-Within keys b q)

    pub execute_legacy_replacement-Within :
        (hs : Hotstring) (j : Job)
        → Within j
        → Within (job_of (execute_legacy_replacement flag world hs j))
    unfolding execute_legacy_replacement
    execute_legacy_replacement-Within hs j h = unless-Within _ j h (λ s p.
        and_then-Within (device flag world (pasted hs.replacement_utf8) s)
          (tail_keys_loop flag world hs.tail_keys)
          (device-Within (pasted hs.replacement_utf8) s p (omega arith))
          (λ b q. tail_keys_loop-Within hs.tail_keys b q))
