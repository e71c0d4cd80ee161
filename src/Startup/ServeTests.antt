-- ===== src/Startup/ServeTests.antt =====
-- A run of the daemon from its start to its exit, and the signals.
use ahk_unix.Base.{true, false, List, [], ◌∷◌, ◌≡◌, refl, Bytes, codes, some, none, ok, ap, ◌∙◌}
use ahk_unix.Text.Chars.{starts_with, equal}
use ahk_unix.Hotstring.{Hotstring}
use ahk_unix.Daemon.Loop.{Polled, timed_out, poll_failed, run_loop, run}
use ahk_unix.Device.Input.{Keyboard, grab, ungrab, open_keyboard}
use ahk_unix.Device.Enabled.{open_virtual-made}
use ahk_unix.Ipc.Lifecycle.{start}
use ahk_unix.Ipc.Lifecycle as Lifecycle
use ahk_unix.Startup.{Options}
use ahk_unix.Startup.Arguments.{
  Surroundings, read_argument, options_loop, parse_options, script_hotstrings, with_device,
  start_with, starts,
}
use ahk_unix.Startup.Arguments as Arguments
use ahk_unix.Startup.Cleanup.{
  request_shutdown, add_cleanup_handler, run_handlers, cleanup_if, run_cleanup,
}
use ahk_unix.Startup.Detach.{child, daemonize}
use ahk_unix.Startup.Signals.{all_accepted, install_all, install_signal_handlers}
use ahk_unix.Startup.Serve.{
  Objects, Outcomes, exited, stop_server, destroy_server, destroy_all, after_run, open_devices,
  after_start, serve_devices, serve_detached, serve, main,
}
use ahk_unix.Startup.Exit.{Left, main-Left}

abbrev system : Surroundings
system = record { contents = λ _. none; input_devices = none; socket_answers = false }

abbrev args : List Bytes
args = codes "--foreground" ∷ codes "--device" ∷ codes "/dev/x" ∷ []

abbrev options : Options
options = record { device = codes "/dev/x"; script = []; foreground = true; strict_mode = false }

abbrev outcomes_with : Polled → Outcomes
outcomes_with polled = record {
  sigactions = all_accepted;
  detach = record {
    first_fork = child;
    setsid = true;
    second_fork = child;
    chdir = true;
    open_null = true;
    open_log = true;
    dup2 = true;
  };
  device = record {
    opens = true;
    is_evdev = true;
    has_ev_key = true;
    has_ev_rel = false;
    has_ev_abs = false;
  };
  uinput_opens = true;
  ioctl = λ _. true;
  setup = record {
    socket = true;
    get_flags = true;
    set_flags = true;
    bind = true;
    chmod = true;
    listen = true;
    thread = true;
  };
  rounds =
      record { g_stop = false; polled = polled }
      ∷ record { g_stop = true; polled = timed_out }
      ∷ [];
}

start-starts : Arguments.start system args ≡ starts options []
unfolding Arguments.start parse_options options_loop read_argument start_with script_hotstrings
    with_device equal starts_with
start-starts = refl

abbrev keyboard : Keyboard
keyboard = record { path = codes "/dev/x"; nonblocking = false; grabbed = false }

open_devices-ok :
    (polled : Polled) → open_devices (outcomes_with polled) (codes "/dev/x") ≡ ok keyboard
unfolding open_devices open_keyboard
open_devices-ok polled = rw (open_virtual-made (λ _. true) (λ _. refl), open_devices) refl

main-serve_devices :
    (polled : Polled)
    → main system (outcomes_with polled) args
      ≡ serve_devices (outcomes_with polled) [] (ok keyboard)
unfolding main serve install_all install_signal_handlers serve_detached daemonize
main-serve_devices polled =
    (rw (start-starts, main) refl)
    ∙ ap (serve_devices (outcomes_with polled) []) (open_devices-ok polled)

-- The objects of a run without an exception.
abbrev stopped_objects : Objects
stopped_objects = record { endpoint = Lifecycle.stopped; alive = false; used_destroyed = false }

main-exited : main system (outcomes_with timed_out) args ≡ exited 0 (some stopped_objects)
unfolding serve_devices after_start start run run_loop after_run destroy_all destroy_server
    stop_server run_cleanup cleanup_if run_handlers add_cleanup_handler request_shutdown grab ungrab
    Lifecycle.stop
main-exited = main-serve_devices timed_out ∙ refl

main-thrown :
    main system (outcomes_with poll_failed) args
    ≡ exited 1 (some (record stopped_objects { used_destroyed = true }))
unfolding serve_devices after_start start run run_loop after_run destroy_all destroy_server
    stop_server run_cleanup cleanup_if run_handlers add_cleanup_handler request_shutdown grab ungrab
    Lifecycle.stop
main-thrown = main-serve_devices poll_failed ∙ refl

main-Left_example :
    (o : Options) × (hotstrings : List Hotstring) × (Arguments.start system args
      ≡ starts o hotstrings)
    × Left (outcomes_with timed_out) hotstrings 0 stopped_objects
main-Left_example = main-Left system (outcomes_with timed_out) args 0 stopped_objects main-exited
