-- ===== src/Startup/Serve.antt =====
-- `main` of src/daemon/main.cpp from the handlers of signals on, with the destructors of its objects. No
-- client of the server changes the state of the daemon meanwhile: Daemon/Threads.antt has those.
use ahk_unix.Base.{
  ℕ, Bool, true, false, List, [], Option, some, none, Bytes, codes, Result, ok, err, ◌>>=◌,
  if◌then◌else◌,
}
use ahk_unix.Hotstring.{Hotstring}
use ahk_unix.Daemon.Handler.{initial_daemon}
use ahk_unix.Daemon.Loop.{Round, Running, stopped, thrown, waiting, run}
use ahk_unix.Device.Input.{DeviceFile, Keyboard, open_keyboard}
use ahk_unix.Device.Uinput.{Request, made, refused, open_virtual}
use ahk_unix.Ipc.Lifecycle.{SetupCalls, Endpoint, Setup, ready, start}
use ahk_unix.Ipc.Lifecycle as Lifecycle
use ahk_unix.Startup.{Options}
use ahk_unix.Startup.Arguments.{Surroundings, exits, starts}
use ahk_unix.Startup.Arguments as Arguments
use ahk_unix.Startup.Cleanup.{Daemonizer, request_shutdown, add_cleanup_handler, run_cleanup}
use ahk_unix.Startup.Detach.{daemonize, throws, returns}
use ahk_unix.Startup.Detach as Detach
use ahk_unix.Startup.Signals.{SigCalls, default_table, installed, failed, install_all}

-- The IPC server, whether it has not been destroyed, and whether it was used behind its destruction.
pub record Objects : Type 0 where
  pub endpoint : Endpoint
  pub alive : Bool
  pub used_destroyed : Bool

-- What the calls of the system do.
pub record Outcomes : Type 0 where
  pub sigactions : SigCalls
  pub detach : Detach.Calls
  pub device : DeviceFile
  pub uinput_opens : Bool
  pub ioctl : Request → Bool
  pub setup : SetupCalls
  pub rounds : List Round

-- The process ends with a status, and with the objects if they were built; or it still runs.
pub data Exit : Type 0 where
  exited : ℕ → Option Objects → Exit
  goes_on : Exit

-- The clean-up handler of `main`.
unfoldable pub stop_server : Objects → Objects
stop_server objects =
    if objects.alive
    then record objects { endpoint = Lifecycle.stop objects.endpoint }
    else record objects { used_destroyed = true }

-- `IpcServer::~IpcServer`
unfoldable pub destroy_server : Objects → Objects
destroy_server objects = record objects {
  endpoint = Lifecycle.stop objects.endpoint;
  alive = false;
}

-- The server is destroyed before the Daemonizer, which was built first and whose destructor is
-- `run_cleanup`.
unfoldable pub destroy_all : Daemonizer Objects → Objects → Objects
unfolding destroy_server
destroy_all daemonizer objects = (run_cleanup daemonizer (destroy_server objects)).1

-- `main` behind `daemon.run()`.
unfoldable pub after_run : Running → Daemonizer Objects → Objects → Exit
unfolding destroy_all
after_run (stopped d keyboard) daemonizer objects =
    let (cleaned, rest) = run_cleanup (request_shutdown daemonizer) objects in
    exited 0 (some (destroy_all cleaned rest))
after_run (thrown e d keyboard) daemonizer objects =
    exited 1 (some (destroy_all daemonizer objects))
after_run (waiting d keyboard) daemonizer objects = goes_on

-- The members of the daemon that can throw.
unfoldable pub open_devices : Outcomes → Bytes → Result Keyboard
open_devices outcomes device = do
  keyboard ← open_keyboard device outcomes.device
  elim (open_virtual outcomes.ioctl outcomes.uinput_opens) [
    | made _ ↦ ok keyboard
    | refused e _ ↦ err e
  ]

abbrev pub built : Endpoint → Objects
built endpoint = record { endpoint = endpoint; alive = true; used_destroyed = false }

-- The Daemonizer with the handler of `main`.
abbrev pub prepared : Daemonizer Objects
prepared =
    add_cleanup_handler stop_server
      (record { requested = false; g_signal = false; cleanup_ran = false; cleanup_handlers = [] })

-- `main` behind the start of the server.
unfoldable pub after_start : Setup → Outcomes → List Hotstring → Keyboard → Exit
unfolding after_run destroy_all
after_start (Lifecycle.thrown e endpoint) outcomes hotstrings keyboard =
    exited 1 (some (destroy_all prepared (built endpoint)))
after_start (ready endpoint) outcomes hotstrings keyboard =
    after_run (run outcomes.rounds keyboard (initial_daemon hotstrings)) prepared (built endpoint)

unfoldable pub serve_devices : Outcomes → List Hotstring → Result Keyboard → Exit
unfolding after_start
serve_devices outcomes hotstrings (err e) = exited 1 none
serve_devices outcomes hotstrings (ok keyboard) =
    after_start (start (codes "/tmp/ahkunix.sock") outcomes.setup Lifecycle.stopped) outcomes
      hotstrings keyboard

unfoldable pub serve_detached : Outcomes → Options → List Hotstring → Detach.Fate → Exit
unfolding serve_devices open_devices
serve_detached outcomes options hotstrings Detach.exits = exited 0 none
serve_detached outcomes options hotstrings (throws e) = exited 1 none
serve_detached outcomes options hotstrings (returns redirected) =
    serve_devices outcomes hotstrings (open_devices outcomes options.device)

unfoldable pub serve : Outcomes → Options → List Hotstring → Exit
unfolding serve_detached
serve outcomes options hotstrings = elim (install_all outcomes.sigactions default_table) [
  | failed e _ ↦ exited 1 none
  | installed _ ↦
      serve_detached outcomes options hotstrings (daemonize options.foreground outcomes.detach)
]

unfoldable pub main : Surroundings → Outcomes → List Bytes → Exit
unfolding serve
main system outcomes args = elim (Arguments.start system args) [
  | exits status ↦ exited status none
  | starts options hotstrings ↦ serve outcomes options hotstrings
]
