-- ===== src/Session/Tests.antt =====
-- A client that loads a script of one hotkey.
use ahk_unix.Base.{
  true, false, List, [], ◌∷◌, ◌≡◌, ◌↔◌, ◌≤◌, refl, arith, map, Bytes, codes, some, none, ok, Error,
  length,
}
use ahk_unix.Layout.{lookup, special_keys, parse_special_key}
use ahk_unix.Text.Chars.{to_lower, equal, starts_with, is_space}
use ahk_unix.Text.Find.{find, split_at}
use ahk_unix.Text.Token.{scan}
use ahk_unix.Text.Trim.{trim, drop_last_while}
use ahk_unix.Hotstring.Trigger.{parse_keys, trigger_loop, parse_trigger_expr}
use ahk_unix.Hotstring.Replacement.{replacement_loop, parse_replacement}
use ahk_unix.Hotstring.Line.{split_line, parse_hotstring_line}
use ahk_unix.ScriptFile.Classify.{
  get_lines, is_comment_or_empty, starts_with_ci, starts_with_command_ci, is_action,
  is_trigger_name, looks_like_trigger_line, assignment,
}
use ahk_unix.ScriptFile.Loop.{
  flush_pending, located, trigger_line, file_step, file_loop, finish, parse_file,
}
use ahk_unix.Daemon.Handler.{initial_daemon, reload_script}
use ahk_unix.Ipc.{Server}
use ahk_unix.Ipc.Transport.{received, Send, sent}
use ahk_unix.Ipc.Client.{load_with, load_reply, handle_client}
use ahk_unix.Cli.{System, wrote, got}
use ahk_unix.Cli.Main.{main}
use ahk_unix.Cli.Transport.{write_all, read_response, connect_to_daemon}
use ahk_unix.Startup.{Options, App}
use ahk_unix.Startup.Callbacks.{Calls, callbacks, on_load}
use ahk_unix.Session.Lint.{Accepted, status-load, status-load-lint, Kept, handle_client-Kept}

abbrev script : Bytes
script = codes "F5::a"

abbrev calls : Calls
calls = record { contents = λ _. some script; now = 7; ctime = λ _. codes "now\n"; pid = 1 }

abbrev options : Options
options = record { device = codes "/dev/x"; script = []; foreground = true; strict_mode = false }

abbrev app : App
app = record {
  daemon = initial_daemon [];
  active_script = [];
  load_time = 0;
  shutdown_requested = false;
  g_stop = false;
}

abbrev server : Server App
server = record { callbacks = callbacks options calls; running = true; world = app }

abbrev what : Error → Bytes
what _ = codes "refused"

abbrev parts : List Bytes
parts = codes "LOA" ∷ codes "D /s\n" ∷ []

abbrev sends : List Send
sends = sent 4 ∷ sent 60 ∷ []

abbrev system : System
system = record {
  socket = some 3;
  connects = true;
  writes = wrote 5 ∷ wrote 9 ∷ [];
  receives = λ _. got (handle_client what (map received parts) sends server).0 ∷ [];
  absolute = λ _. ok (codes "/s");
  contents = λ _. some script;
}

script-loaded : (load_with what (some (on_load calls)) (codes "/s") server).0 ≡ codes "OK loaded\n"
unfolding load_with load_reply on_load reload_script parse_file file_loop get_lines file_step
    starts_with trim is_comment_or_empty assignment split_at looks_like_trigger_line is_action
    starts_with_command_ci starts_with_ci to_lower equal find is_trigger_name located
    parse_hotstring_line split_line parse_trigger_expr trigger_loop parse_special_key lookup
    special_keys parse_replacement replacement_loop scan trigger_line flush_pending finish
    parse_keys
script-loaded = refl

enough : length (load_with what (some (on_load calls)) (codes "/s") server).0 ≤ 64
enough = rw script-loaded (omega arith)

status-load_example :
    ((main system (codes "load" ∷ codes "s" ∷ [])).status ≡ 0)
    ↔ Accepted (codes "/s") (calls.contents (codes "/s"))
unfolding write_all read_response connect_to_daemon drop_last_while is_space
status-load_example =
    status-load system what options calls server (codes "s") (codes "s") parts sends refl refl refl
      (refl, tt) (omega arith) refl refl refl (omega arith, (omega arith, tt)) enough refl

status-load-lint_example :
    ((main system (codes "load" ∷ codes "s" ∷ [])).status ≡ 0)
    ↔ ((main system (codes "lint" ∷ codes "/s" ∷ [])).status ≡ 0)
unfolding write_all read_response connect_to_daemon drop_last_while is_space
status-load-lint_example =
    status-load-lint system what options calls server (codes "s") (codes "s") parts sends refl refl
      refl (refl, tt) (omega arith) refl refl refl (omega arith, (omega arith, tt)) enough refl refl

abbrev unreadable : Calls
unreadable = record { contents = λ _. none; now = 7; ctime = λ _. codes "now\n"; pid = 1 }

abbrev refusing : Server App
refusing = record server { callbacks = callbacks options unreadable }

abbrev refused_system : System
refused_system = record system {
  receives = λ _. got (handle_client what (map received parts) sends refusing).0 ∷ [];
}

script-refused :
    (load_with what (some (on_load unreadable)) (codes "/s") refusing).0 ≡ codes "ERR refused\n"
unfolding load_with load_reply on_load reload_script parse_file
script-refused = refl

refused_whole : length (load_with what (some (on_load unreadable)) (codes "/s") refusing).0 ≤ 64
refused_whole = rw script-refused (omega arith)

not_Accepted : ¬ (Accepted (codes "/s") (unreadable.contents (codes "/s")))
unfolding parse_file
not_Accepted (f, e) = ground (arith, e)

handle_client-Kept_example :
    Kept app (handle_client what (map received parts) sends refusing).1.world
unfolding write_all read_response connect_to_daemon drop_last_while is_space
handle_client-Kept_example =
    handle_client-Kept refused_system what options unreadable refusing (codes "s") (codes "s") parts
      sends refl refl refl (refl, tt) (omega arith) refl refl refl (omega arith, (omega arith, tt))
      refused_whole refl
      (λ ended. not_Accepted (
        (status-load refused_system what options unreadable refusing (codes "s") (codes "s") parts
            sends refl refl refl (refl, tt) (omega arith) refl refl refl
            (omega arith, (omega arith, tt)) refused_whole refl).0
          ended))
