-- ===== src/Startup/Callbacks.antt =====
-- The three callbacks that `main` of src/daemon/main.cpp gives to the IPC server.
use ahk_unix.Base.{
  ℕ, zero, suc, true, false, if◌then◌else◌, is_empty, List, [], ◌∷◌, ◌++◌, ◌-◌, Option, none, some,
  Bytes, length, take, codes, ok,
}
use ahk_unix.Base.Int.{pos}
use ahk_unix.Text.Number.{to_string}
use ahk_unix.Daemon.Handler.{reload_script, initial_daemon}
use ahk_unix.Hotstring.{Hotstring}
use ahk_unix.Ipc.{Load, returned, threw, Callbacks}
use ahk_unix.Startup.{Options, App}

-- The contents of files, `std::time(nullptr)`, `std::ctime` and `getpid()`.
pub record Calls : Type 0 where
  pub contents : Bytes → Option Bytes
  pub now : ℕ
  pub ctime : ℕ → Bytes
  pub pid : ℕ

unfoldable pub on_stop : App → App
on_stop app = record app { shutdown_requested = true; g_stop = true }

unfoldable pub on_load : Calls → Bytes → App → Load × App
unfolding reload_script
on_load calls path app =
    let daemon = (reload_script path (calls.contents path) app.daemon).1 in
    elim (reload_script path (calls.contents path) app.daemon).0 [
      | none ↦
          (returned, record app { daemon = daemon; active_script = path; load_time = calls.now })
      | some e ↦ (threw e, record app { daemon = daemon })
    ]

abbrev repeat : ℕ → Bytes → Bytes
repeat zero text = []
repeat (suc n) text = text ++ repeat n text

-- Forty characters U+2550, in UTF-8.
abbrev rule_line : Bytes
rule_line = repeat 40 (226 ∷ 149 ∷ 144 ∷ []) ++ codes "\n"

unfoldable pub on_status : Options → Calls → App → Bytes
unfolding to_string
on_status options calls app =
    let time_str = calls.ctime app.load_time in
    codes "PONG\n"
    ++ rule_line
    ++ codes " "
    ++ (240 ∷ 159 ∷ 159 ∷ 162 ∷ [])
    ++ codes " AHKUnix Daemon (v0.6.0)\n"
    ++ rule_line
    ++ codes " Script: "
    ++ app.active_script
    ++ codes "\n Loaded: "
    ++ take (length time_str - 1) time_str
    ++ codes "\n Device: "
    ++ options.device
    ++ codes "\n PID:    "
    ++ to_string (pos calls.pid)
    ++ codes "\n Action: ahkunixctl load <path/to/script>\n"
    ++ rule_line

unfoldable pub callbacks : Options → Calls → Callbacks App
unfolding on_stop on_load on_status
callbacks options calls = record {
  on_stop = some on_stop;
  on_load = some (on_load calls);
  on_status = some (λ app. ok (on_status options calls app));
}

-- The state that `main` shares with its callbacks, at the start.
abbrev pub initial_app : Calls → Options → List Hotstring → App
initial_app calls options hotstrings = record {
  daemon = initial_daemon hotstrings;
  active_script =
      if is_empty options.script then codes "[IDLE - NO SCRIPT LOADED]" else options.script;
  load_time = calls.now;
  shutdown_requested = false;
  g_stop = false;
}
