-- ===== src/Daemon/Stale.antt =====
-- A press that completes a macro while a script is loaded.
use ahk_unix.Hotstring.{Hotstring}
use ahk_unix.ScriptFile.Loop.{ScriptFile}
use ahk_unix.Daemon.Threads.{Threads}
