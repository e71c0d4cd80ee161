-- ===== src/Daemon/Macro.antt =====
-- A whole macro of commands, when no stop is requested, and when one is.
use ahk_unix.Base.{
  ℕ, suc, Bool, false, ◌≡◌, refl, sym, ap, subst, length, is_empty, if◌then◌else◌, true, false,
  arith,
}
use ahk_unix.Keys.{key_backspace}
use ahk_unix.Command.{Command, Commands, nil, cons}
use ahk_unix.Hotstring.{Hotstring}
use ahk_unix.Context.Run.{World}
use ahk_unix.Context.Run.{Machine, returned}
use ahk_unix.Context.Run as Run
use ahk_unix.Daemon.Job.{tap_loop}
use ahk_unix.Daemon.Job.{
  Job, Outcome, goes, unless_stopped, execute_legacy_replacement, execute_commands, execute_body,
  execute_macro,
}
use ahk_unix.Daemon.Agree.{alike, Agrees, unless-Agrees, and_then-Agrees}
use ahk_unix.Daemon.Bounded.{
  job_of, Within, and_then-Within, unless-Within, tap_loop-Within,
  execute_legacy_replacement-Within,
}
use ahk_unix.Daemon.Allowed.{execute_commands-Within}
use ahk_unix.Daemon.Whole.{tap_loop-Agrees}
use ahk_unix.Daemon.Executed.{execute_commands-Agrees}

module _ (flag : ℕ → Bool) (world : World) where
  execute_body-cons :
      (hs : Hotstring) (command : Command) (commands : Commands) (j : Job)
      → hs.commands ≡ cons command commands
      → execute_body flag world hs j ≡ execute_commands flag world (cons command commands) j
  unfolding execute_body
  execute_body-cons hs command commands j e = ap turn e
    where
      turn : Commands → Outcome
      turn nil =
          if is_empty hs.replacement_utf8
          then goes j
          else execute_legacy_replacement flag world hs j
      turn (cons first rest) = execute_commands flag world (cons first rest) j

-- No load of the stop flag reads true, and the hotstring has commands; the n-th draw of a random number
-- gives, the n-th tap or paste throws, and the clock behind n of them shows, the same on both sides. Then
-- its macro is one backspace, with a wait of 8 ms behind it, for each key of the trigger if it is erased,
-- and then the `execute` of each command in order: it ends with the same variables and files after as
-- many draws and as many taps and pastes, or throws the same exception at the same place, be it of a tap,
-- of a paste or of a command, and has done the same acts in the same order, but that a wait may be cut
-- into several of the same length together.
pub execute_macro-Agrees :
    (flag : ℕ → Bool) (world : World) (hs : Hotstring) (command : Command) (commands : Commands)
    (n : ℕ) (m : Machine)
    → ((k : ℕ) → flag k ≡ false)
    → hs.commands ≡ cons command commands
    → let erase : ℕ = if hs.erase_trigger then length hs.trigger_keys else 0 in
      Agrees (execute_macro flag world hs (record { loads = n; machine = m })) (
        Run.and_then
          (Run.tap_loop world key_backspace 8 erase m)
          (Run.execute_list world (cons command commands)))
unfolding execute_macro
execute_macro-Agrees flag world hs command commands n m clear e =
    let erase : ℕ = if hs.erase_trigger then length hs.trigger_keys else 0 in
    and_then-Agrees flag world clear _ (Run.tap_loop world key_backspace 8 erase m)
      (unless_stopped flag world (execute_body flag world hs))
      (Run.execute_list world (cons command commands))
      (tap_loop-Agrees flag world clear key_backspace 8 erase n m m (alike m.acts m.acts refl))
      (λ k b s h.
        unless-Agrees flag world clear (execute_body flag world hs)
          (record { loads = k; machine = b }) _
          (subst (λ o. Agrees o (Run.execute_list world (cons command commands) s))
            (sym (
              execute_body-cons flag world hs command commands
                (record { loads = suc k; machine = b }) e))
            (execute_commands-Agrees flag world clear (cons command commands) (suc k) b s h)))

body-Within :
    (flag : ℕ → Bool) (world : World) (hs : Hotstring) (j : Job)
    → Within flag j
    → Within flag (job_of (execute_body flag world hs j))
unfolding execute_body
body-Within flag world hs j h = chosen hs.commands (is_empty hs.replacement_utf8)
  where
    chosen :
        (commands : Commands) (b : Bool)
        → Within flag (
            job_of (elim commands [
              | nil ↦ if b then goes j else execute_legacy_replacement flag world hs j
              | cons command rest ↦ execute_commands flag world (cons command rest) j
            ]))
    chosen nil true = h
    chosen nil false = execute_legacy_replacement-Within flag world hs j h
    chosen (cons command rest) b = execute_commands-Within flag world (cons command rest) j h

-- Whatever the loads of the stop flag read: if a job has so far done at most as many acts, waits
-- aside, as its loads that read false, then it has so behind a macro too, whether the macro goes to its
-- end, is stopped, or throws. None of its taps, pastes and shell commands happens without such a load of its own.
pub execute_macro-Within :
    (flag : ℕ → Bool) (world : World) (hs : Hotstring) (j : Job)
    → Within flag j
    → Within flag (job_of (execute_macro flag world hs j))
unfolding execute_macro
execute_macro-Within flag world hs j h =
    let erase : ℕ = if hs.erase_trigger then length hs.trigger_keys else 0 in
    let body : Job → Outcome = unless_stopped flag world (execute_body flag world hs) in
    and_then-Within flag (tap_loop flag world key_backspace 8 erase j) body
      (tap_loop-Within flag world key_backspace 8 erase j h)
      (λ b q.
        unless-Within flag world (execute_body flag world hs) b q
          (λ s p. body-Within flag world hs s (omega arith)))
