-- ===== src/Startup/Exit.antt =====
-- What `main` of src/daemon/main.cpp leaves when it exits.
use ahk_unix.Base.{
  ℕ, true, false, List, some, none, ◌≡◌, ◌⊎◌, inl, inr, refl, subst, arith, Bytes, Result, ok, err,
}
use ahk_unix.Hotstring.{Hotstring}
use ahk_unix.Daemon.{DaemonState}
use ahk_unix.Daemon.Handler.{initial_daemon}
use ahk_unix.Daemon.Loop.{Running, stopped, thrown, waiting, run}
use ahk_unix.Device.Input.{Keyboard}
use ahk_unix.Ipc.Lifecycle.{Setup, ready, start}
use ahk_unix.Ipc.Lifecycle as Lifecycle
use ahk_unix.Startup.{Options}
use ahk_unix.Startup.Arguments.{Surroundings, Start, exits, starts}
use ahk_unix.Startup.Arguments as Arguments
use ahk_unix.Startup.Cleanup.{
  request_shutdown, add_cleanup_handler, run_handlers, cleanup_if, run_cleanup,
}
use ahk_unix.Startup.Detach.{daemonize, throws, returns}
use ahk_unix.Startup.Detach as Detach
use ahk_unix.Startup.Signals.{default_table, Installed, installed, failed, install_all}
use ahk_unix.Startup.Serve.{
  Objects, Outcomes, Exit, exited, stop_server, destroy_server, destroy_all, after_run, built,
  prepared, after_start, serve_devices, serve_detached, serve, main,
}

-- `daemon.run()` has returned.
abbrev pub Returned : Outcomes → List Hotstring → Type 0
Returned outcomes hotstrings =
    (keyboard last : Keyboard) × (d : DaemonState) × (run outcomes.rounds keyboard
        (initial_daemon hotstrings)
      ≡ stopped d last)

-- No server is left, and one of two ways to exit.
abbrev pub Left : Outcomes → List Hotstring → ℕ → Objects → Type 0
Left outcomes hotstrings status objects =
    (objects.endpoint ≡ Lifecycle.stopped)
    × (((status ≡ 0) × (objects.used_destroyed ≡ false) × Returned outcomes hotstrings)
        ⊎ ((status ≡ 1) × (objects.used_destroyed ≡ true)))

abbrev Leaves : Outcomes → List Hotstring → Exit → Type 0
Leaves outcomes hotstrings exit =
    (status : ℕ) (objects : Objects)
    → exit ≡ exited status (some objects)
    → Left outcomes hotstrings status objects

exited-Leaves :
    (outcomes : Outcomes) (hotstrings : List Hotstring) (status : ℕ) (objects : Objects)
    → Left outcomes hotstrings status objects
    → Leaves outcomes hotstrings (exited status (some objects))
exited-Leaves outcomes hotstrings status objects left s o e =
    let same : status ≡ s = ground (arith, e) in
    let same_objects : objects ≡ o = ground (arith, e) in
    subst (λ t. Left outcomes hotstrings t o) same
      (subst (λ p. Left outcomes hotstrings status p) same_objects left)

after_run-Leaves :
    (outcomes : Outcomes) (hotstrings : List Hotstring) (keyboard : Keyboard) (running : Running)
    (endpoint : Lifecycle.Endpoint)
    → run outcomes.rounds keyboard (initial_daemon hotstrings) ≡ running
    → Leaves outcomes hotstrings (after_run running prepared (built endpoint))
unfolding after_run destroy_all destroy_server stop_server run_cleanup cleanup_if run_handlers
    add_cleanup_handler request_shutdown Lifecycle.stop
after_run-Leaves outcomes hotstrings keyboard (stopped d last) endpoint e =
    exited-Leaves outcomes hotstrings 0 _ (refl, inl (refl, refl, (keyboard, last, d, e)))
after_run-Leaves outcomes hotstrings keyboard (thrown w d last) endpoint e =
    exited-Leaves outcomes hotstrings 1 _ (refl, inr (refl, refl))
after_run-Leaves outcomes hotstrings keyboard (waiting d last) endpoint e =
    λ s o i. absurd (ground (arith, i))

after_start-Leaves :
    (setup : Setup) (outcomes : Outcomes) (hotstrings : List Hotstring) (keyboard : Keyboard)
    → Leaves outcomes hotstrings (after_start setup outcomes hotstrings keyboard)
unfolding after_start destroy_all destroy_server stop_server run_cleanup cleanup_if run_handlers
    add_cleanup_handler Lifecycle.stop
after_start-Leaves (Lifecycle.thrown e endpoint) outcomes hotstrings keyboard =
    exited-Leaves outcomes hotstrings 1 _ (refl, inr (refl, refl))
after_start-Leaves (ready endpoint) outcomes hotstrings keyboard =
    after_run-Leaves outcomes hotstrings keyboard _ endpoint refl

without_objects :
    (outcomes : Outcomes) (hotstrings : List Hotstring) (status : ℕ)
    → Leaves outcomes hotstrings (exited status none)
without_objects outcomes hotstrings status s o e = absurd (ground (arith, e))

serve_devices-Leaves :
    (outcomes : Outcomes) (hotstrings : List Hotstring) (opened : Result Keyboard)
    → Leaves outcomes hotstrings (serve_devices outcomes hotstrings opened)
unfolding serve_devices
serve_devices-Leaves outcomes hotstrings (err e) = without_objects outcomes hotstrings 1
serve_devices-Leaves outcomes hotstrings (ok keyboard) =
    after_start-Leaves _ outcomes hotstrings keyboard

serve_detached-Leaves :
    (outcomes : Outcomes) (options : Options) (hotstrings : List Hotstring) (fate : Detach.Fate)
    → Leaves outcomes hotstrings (serve_detached outcomes options hotstrings fate)
unfolding serve_detached
serve_detached-Leaves outcomes options hotstrings Detach.exits =
    without_objects outcomes hotstrings 0
serve_detached-Leaves outcomes options hotstrings (throws e) = without_objects outcomes hotstrings 1
serve_detached-Leaves outcomes options hotstrings (returns redirected) =
    serve_devices-Leaves outcomes hotstrings _

serve-Leaves :
    (outcomes : Outcomes) (options : Options) (hotstrings : List Hotstring)
    → Leaves outcomes hotstrings (serve outcomes options hotstrings)
unfolding serve
serve-Leaves outcomes options hotstrings =
    installed_Leaves (install_all outcomes.sigactions default_table)
  where
    installed_Leaves :
        (tried : Installed)
        → Leaves outcomes hotstrings (elim tried [
          | failed w _ ↦ exited 1 none
          | installed _ ↦
              serve_detached outcomes options hotstrings
                (daemonize options.foreground outcomes.detach)
        ])
    installed_Leaves (failed w table) = without_objects outcomes hotstrings 1
    installed_Leaves (installed table) = serve_detached-Leaves outcomes options hotstrings _

-- When the program exits behind the construction of its server, whatever the calls of the system did: the
-- daemon was started with some hotstrings, and the server does not run or listen, has no worker and
-- no socket file. Either `daemon.run()` has returned and the status is 0, or an exception ends the
-- program with status 1, and then the clean-up handler uses the server behind its destruction.
pub main-Left :
    (system : Surroundings) (outcomes : Outcomes) (args : List Bytes) (status : ℕ)
    (objects : Objects)
    → main system outcomes args ≡ exited status (some objects)
    → (options : Options) × (hotstrings : List Hotstring) × (Arguments.start system args
        ≡ starts options hotstrings)
      × Left outcomes hotstrings status objects
unfolding main
main-Left system outcomes args status objects e = started (Arguments.start system args) refl e
  where
    started :
        (first : Start)
        → Arguments.start system args ≡ first
        → (elim first [
          | exits n ↦ exited n none
          | starts options hotstrings ↦ serve outcomes options hotstrings
        ])
          ≡ exited status (some objects)
        → (options : Options) × (hotstrings : List Hotstring) × (Arguments.start system args
            ≡ starts options hotstrings)
          × Left outcomes hotstrings status objects
    started (exits n) same end = absurd (ground (arith, end))
    started (starts options hotstrings) same end =
        (options, hotstrings, same, serve-Leaves outcomes options hotstrings status objects end)
