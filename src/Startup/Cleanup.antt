-- ===== src/Startup/Cleanup.antt =====
-- The shutdown of src/daemon/Daemonizer.cpp: the flags and the clean-up handlers. A handler acts on the
-- program's state; whether it throws is logged and makes no difference.
use ahk_unix.Base.{Bool, true, false, ◌||◌, List, [], ◌∷◌, ◌++◌, ◌≡◌, refl, ap, ◌∙◌, sym, reverse}
use mathlib.Core.List.{reverse-append}

-- `g_signal` is `g_signal_shutdown_requested`.
pub record Daemonizer (State : Type 0) : Type 0 where
  pub requested : Bool
  pub g_signal : Bool
  pub cleanup_ran : Bool
  pub cleanup_handlers : List (State → State)

module _ {State : Type 0} where
  unfoldable pub request_shutdown : Daemonizer State → Daemonizer State
  request_shutdown d = record d { requested = true }

  unfoldable pub signal_handler : Daemonizer State → Daemonizer State
  signal_handler d = record d { g_signal = true }

  unfoldable pub shutdown_requested : Daemonizer State → Bool
  shutdown_requested d = d.requested || d.g_signal

  unfoldable pub add_cleanup_handler : (State → State) → Daemonizer State → Daemonizer State
  add_cleanup_handler handler d = record d { cleanup_handlers = d.cleanup_handlers ++ handler ∷ [] }

  unfoldable pub run_handlers : List (State → State) → State → State
  run_handlers [] state = state
  run_handlers (handler ∷ handlers) state = run_handlers handlers (handler state)

  -- `cleanup_ran_` before the exchange decides.
  unfoldable pub cleanup_if : Bool → Daemonizer State → State → Daemonizer State × State
  unfolding run_handlers
  cleanup_if true d state = (d, state)
  cleanup_if false d state = (
    record d { cleanup_ran = true; cleanup_handlers = [] },
    run_handlers (reverse d.cleanup_handlers) state,
  )

  unfoldable pub run_cleanup : Daemonizer State → State → Daemonizer State × State
  unfolding cleanup_if
  run_cleanup d state = cleanup_if d.cleanup_ran d state

  cleanup_if_idem :
      (ran : Bool) (d : Daemonizer State) (state : State)
      → d.cleanup_ran ≡ ran
      → (let (once, after) = cleanup_if ran d state in run_cleanup once after)
        ≡ cleanup_if ran d state
  unfolding run_cleanup cleanup_if
  cleanup_if_idem true d state e = ap (λ ran. cleanup_if ran d state) e
  cleanup_if_idem false d state e = refl

  -- A clean-up that has run does nothing when it is asked for again.
  pub run_cleanup_idem :
      (d : Daemonizer State) (state : State)
      → (let (once, after) = run_cleanup d state in run_cleanup once after) ≡ run_cleanup d state
  unfolding run_cleanup
  run_cleanup_idem d state = cleanup_if_idem d.cleanup_ran d state refl

  -- Before the clean-up has run, the handler that is added last runs first.
  pub run_cleanup-add_cleanup_handler :
      (d : Daemonizer State) (handler : State → State) (state : State)
      → d.cleanup_ran ≡ false
      → (run_cleanup (add_cleanup_handler handler d) state).1 ≡ (run_cleanup d (handler state)).1
  unfolding run_cleanup cleanup_if add_cleanup_handler run_handlers
  run_cleanup-add_cleanup_handler d handler state e =
      ap (λ ran. (cleanup_if ran (add_cleanup_handler handler d) state).1) e
      ∙ ap (λ handlers. run_handlers handlers state)
          (reverse-append d.cleanup_handlers (handler ∷ []))
      ∙ sym (ap (λ ran. (cleanup_if ran d (handler state)).1) e)
