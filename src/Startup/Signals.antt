-- ===== src/Startup/Signals.antt =====
-- The handlers of signals: `install_signal_handlers` of src/daemon/Daemonizer.cpp,
-- `install_ahk_stop_handler` of src/daemon/main.cpp and `handle_signal` of src/Signals.cpp.
use ahk_unix.Base.{Bool, true, false, ◌≡◌, refl, Option, some, none, Bytes, codes, Error, sys_error}

pub data Signo : Type 0 where
  sigint : Signo
  sigterm : Signo
  sigpipe : Signo

-- `sets_shutdown` is `Daemonizer::signal_handler`, `sets_stop` is `ahk::handle_signal`.
pub data Action : Type 0 where
  terminates : Action
  ignores : Action
  sets_shutdown : Action
  sets_stop : Action

pub record Table : Type 0 where
  pub on_int : Action
  pub on_term : Action
  pub on_pipe : Action

abbrev pub default_table : Table
default_table = record { on_int = terminates; on_term = terminates; on_pipe = terminates }

-- Whether each `sigaction` succeeds, in order.
pub record SigCalls : Type 0 where
  pub shutdown_int : Bool
  pub shutdown_term : Bool
  pub ignore_pipe : Bool
  pub stop_int : Bool
  pub stop_term : Bool

pub data Installed : Type 0 where
  installed : Table → Installed
  failed : Error → Table → Installed

unfoldable pub and_then : Installed → (Table → Installed) → Installed
and_then (installed table) next = next table
and_then (failed e table) next = failed e table

unfoldable pub replace : Signo → Action → Table → Table
replace sigint action table = record table { on_int = action }
replace sigterm action table = record table { on_term = action }
replace sigpipe action table = record table { on_pipe = action }

unfoldable pub sigaction : Bool → Bytes → Signo → Action → Table → Installed
unfolding replace
sigaction true what signo action table = installed (replace signo action table)
sigaction false what signo action table = failed (sys_error what) table

unfoldable pub install_handler : Bool → Signo → Table → Installed
unfolding sigaction
install_handler accepted signo table =
    sigaction accepted (codes "sigaction") signo sets_shutdown table

unfoldable pub install_signal_handlers : SigCalls → Table → Installed
unfolding install_handler sigaction and_then
install_signal_handlers calls table =
    and_then (install_handler calls.shutdown_int sigint table) (λ a.
      and_then (install_handler calls.shutdown_term sigterm a)
        (λ b. sigaction calls.ignore_pipe (codes "sigaction SIGPIPE") sigpipe ignores b))

unfoldable pub install_ahk_stop_handler : Bool → Signo → Table → Installed
unfolding sigaction
install_ahk_stop_handler accepted signo table =
    sigaction accepted (codes "sigaction") signo sets_stop table

-- The handlers that `main` installs.
unfoldable pub install_all : SigCalls → Table → Installed
unfolding install_signal_handlers install_ahk_stop_handler and_then
install_all calls table = and_then (install_signal_handlers calls table) (λ a.
    and_then (install_ahk_stop_handler calls.stop_int sigint a)
      (install_ahk_stop_handler calls.stop_term sigterm))

-- `g_signal_shutdown_requested` and `ahk::g_stop`
pub record Flags : Type 0 where
  pub g_signal_shutdown_requested : Bool
  pub g_stop : Bool

unfoldable pub signal_handler : Flags → Flags
signal_handler flags = record flags { g_signal_shutdown_requested = true }

unfoldable pub handle_signal : Flags → Flags
handle_signal flags = record flags { g_stop = true }

-- What the process does for an action; `none` is its end.
unfoldable pub act_on : Action → Flags → Option Flags
unfolding signal_handler handle_signal
act_on terminates flags = none
act_on ignores flags = some flags
act_on sets_shutdown flags = some (signal_handler flags)
act_on sets_stop flags = some (handle_signal flags)

unfoldable pub deliver : Signo → Table → Flags → Option Flags
unfolding act_on
deliver sigint table flags = act_on table.on_int flags
deliver sigterm table flags = act_on table.on_term flags
deliver sigpipe table flags = act_on table.on_pipe flags

abbrev pub all_accepted : SigCalls
all_accepted = record {
  shutdown_int = true;
  shutdown_term = true;
  ignore_pipe = true;
  stop_int = true;
  stop_term = true;
}

-- What a signal does to the flags: SIGPIPE nothing, the others by `handler`.
unfoldable pub flags_after : (Flags → Flags) → Signo → Flags → Flags
flags_after handler sigint flags = handler flags
flags_after handler sigterm flags = handler flags
flags_after handler sigpipe flags = flags

-- Tables of a process after `install_signal_handlers`, and after all the handlers of `main`.
abbrev pub first_table : Table
first_table = record { on_int = sets_shutdown; on_term = sets_shutdown; on_pipe = ignores }

abbrev pub last_table : Table
last_table = record { on_int = sets_stop; on_term = sets_stop; on_pipe = ignores }

-- If every `sigaction` succeeds: between `install_signal_handlers` and the handlers of `main`, SIGINT and
-- SIGTERM set the flag of the Daemonizer and not `g_stop`, which `run` reads; behind both, they
-- set `g_stop` and not the flag of the Daemonizer. SIGPIPE sets none, and no such signal ends the process.
pub deliver-installed :
    (signo : Signo) (flags : Flags)
    → (install_signal_handlers all_accepted default_table ≡ installed first_table)
      × (deliver signo first_table flags ≡ some (flags_after signal_handler signo flags))
      × (install_all all_accepted default_table ≡ installed last_table)
      × (deliver signo last_table flags ≡ some (flags_after handle_signal signo flags))
unfolding install_signal_handlers install_all deliver flags_after
deliver-installed sigint flags = (refl, refl, refl, refl)
deliver-installed sigterm flags = (refl, refl, refl, refl)
deliver-installed sigpipe flags = (refl, refl, refl, refl)
