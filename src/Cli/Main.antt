-- ===== src/Cli/Main.antt =====
-- `main` of src/cli/main.cpp, over the arguments behind the program's name.
use ahk_unix.Base.{List, [], ◌∷◌, ◌++◌, Bytes, if◌then◌else◌, codes, Result, ok, err, ◌>>=◌}
use ahk_unix.Text.Chars.{equal}
use ahk_unix.Cli.{System, Ended, usage, fatal}
use ahk_unix.Cli.Transport.{send_daemon_command}
use ahk_unix.Cli.Lint.{run_lint}

abbrev pub print_usage : Ended
print_usage = record { status = 2; output = usage }

-- A command without arguments.
unfoldable pub send_alone : System → List Bytes → Bytes → Result Ended
unfolding send_daemon_command
send_alone system [] request = send_daemon_command system request
send_alone system (arg ∷ args) request = ok print_usage

unfoldable pub load_command : System → List Bytes → Result Ended
unfolding send_daemon_command
load_command system (path ∷ []) = do
  script ← system.absolute path
  send_daemon_command system (codes "LOAD " ++ script ++ codes "\n")
load_command system _ = ok print_usage

unfoldable pub run_command : System → List Bytes → Result Ended
unfolding equal send_alone load_command run_lint
run_command system [] = ok print_usage
run_command system (command ∷ args) =
    if equal command (codes "ping")
    then send_alone system args (codes "PING\n")
    else if equal command (codes "status")
    then send_alone system args (codes "STATUS\n")
    else if equal command (codes "stop")
    then send_alone system args (codes "STOP\n")
    else if equal command (codes "load")
    then load_command system args
    else if equal command (codes "lint")
    then run_lint system args
    else ok print_usage

-- `catch (const std::exception &e)`
unfoldable pub caught : Result Ended → Ended
caught (ok ended) = ended
caught (err e) = record { status = 1; output = fatal e }

unfoldable pub main : System → List Bytes → Ended
unfolding run_command caught
main system args = caught (run_command system args)
