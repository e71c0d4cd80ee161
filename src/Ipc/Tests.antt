-- ===== src/Ipc/Tests.antt =====
-- Examples of the server: a request in two pieces, a reply in two pieces, and a request to stop.
use ahk_unix.Base.{
  ℕ, true, false, [], ◌∷◌, ◌++◌, ◌≡◌, ◌<◌, ◌+◌, refl, arith, map, Bytes, codes, none, ok, Error,
  length,
}
use ahk_unix.Text.Chars.{equal, is_space, to_upper}
use ahk_unix.Text.Trim.{drop_while, drop_last_while}
use ahk_unix.Text.Number.{span}
use ahk_unix.Ipc.{Server}
use ahk_unix.Ipc.Request.{trim_copy, normalize_command, upper_verb, upper, is_verb_char}
use ahk_unix.Ipc.Transport.{
  received, read_command, read_loop, after_read, has_newline, sent, full, Poll, send_response,
  polled,
}
use ahk_unix.Ipc.Lifecycle.{SetupCalls, start, stopped, AllOrNothing, start-AllOrNothing}
use ahk_unix.Ipc.Chunks.{read_command-parts, read_command-bound}
use ahk_unix.Ipc.Sending.{send_response-AllWork}
use ahk_unix.Ipc.Client.{is_status, respond}
use ahk_unix.Ipc.Client.{client}
use ahk_unix.Ipc.Loop as Loop
use ahk_unix.Ipc.Loop.{event, no_event, run, run-stop_with}
use ahk_unix.Ipc.Replies.{OneLine, respond-OneLine}

read_command-parts_example :
    read_command (map received (codes "ST" ∷ codes "OP\n" ∷ []) ++ []) ≡ ok (codes "STOP\n")
read_command-parts_example =
    read_command-parts (codes "ST" ∷ codes "OP\n" ∷ []) [] (codes "STOP")
      (refl, (refl, (refl, (refl, tt)))) (omega arith) refl

read_command-bound_example : length (codes "PING\n") < 4096 + 256
unfolding read_command read_loop after_read has_newline
read_command-bound_example =
    read_command-bound (received (codes "PING\n") ∷ []) (omega arith, tt) refl

send_response-AllWork_example :
    send_response (sent 1 ∷ full Poll.ready ∷ sent 9 ∷ []) (codes "PONG\n") ≡ codes "PONG\n"
send_response-AllWork_example =
    send_response-AllWork (sent 1 ∷ full Poll.ready ∷ sent 9 ∷ []) (codes "PONG\n")
      (omega arith, (unfold polled in refl, (omega arith, tt))) (omega arith)

abbrev server : Server ℕ
server = record {
  callbacks = record { on_stop = none; on_load = none; on_status = none };
  running = true;
  world = 0;
}

abbrev what : Error → Bytes
what _ = codes "refused"

respond-OneLine_example : OneLine (respond what (ok (codes " stop\n")) server).0
unfolding normalize_command upper_verb upper trim_copy drop_while drop_last_while is_space span
    is_verb_char to_upper is_status equal
respond-OneLine_example = respond-OneLine what (codes " stop\n") server refl

-- The path is taken by something that cannot be bound.
abbrev unbindable : SetupCalls
unbindable = record {
  socket = true;
  get_flags = true;
  set_flags = true;
  bind = false;
  chmod = true;
  listen = true;
  thread = true;
}

start-AllOrNothing_example : AllOrNothing (start (codes "/tmp/s") unbindable stopped)
start-AllOrNothing_example = start-AllOrNothing (codes "/tmp/s") unbindable

run-stop_with_example :
    run what
      (event true (client (received (codes "stop\n") ∷ []) (sent 60 ∷ []) ∷ []) false
        ∷ no_event
        ∷ [])
      server
    ≡ (send_response (sent 60 ∷ []) (codes "OK stopping\n") ∷ [], Loop.stopped what server)
unfolding read_command read_loop after_read has_newline normalize_command upper_verb upper trim_copy
    drop_while drop_last_while is_space span is_verb_char to_upper
run-stop_with_example =
    run-stop_with what (received (codes "stop\n") ∷ []) (sent 60 ∷ []) [] false (no_event ∷ [])
      server refl refl refl
