-- ===== src/Ipc/Loop.antt =====
-- The thread of the server: `run` of src/daemon/IpcServer.cpp, over what `poll` returns, and the clients
-- behind a request to stop.
use ahk_unix.Base.{
  Bool, true, false, List, [], ◌∷◌, ◌++◌, ◌≡◌, refl, ap, ◌∙◌, append-nil, Bytes, codes, ok, Error,
}
use ahk_unix.Text.Chars.{equal}
use ahk_unix.Ipc.{Server}
use ahk_unix.Ipc.Request.{normalize_command}
use ahk_unix.Ipc.Transport.{Read, Send, read_command, send_response}
use ahk_unix.Ipc.Client.{
  Accept, client, is_status, stop_with, dispatch, respond, handle_client, accept_pending_clients,
}

-- An event tells whether POLLIN is set, with the clients that wait, and whether the socket is broken.
pub data Polled : Type 0 where
  poll_interrupted : Polled
  poll_failed : Polled
  no_event : Polled
  event : Bool → List Accept → Bool → Polled

module _ {World : Type 0} (what : Error → Bytes) where
  -- `if ((pfd.revents & POLLIN) != 0)`
  unfoldable pub serve : Bool → List Accept → Server World → List Bytes × Server World
  unfolding accept_pending_clients
  serve true accepts server = accept_pending_clients what accepts server
  serve false accepts server = ([], server)

  abbrev halted : Server World → Server World
  halted server = record server { running = false }

  -- What the clients receive. Behind the end of the list `poll` fails.
  unfoldable pub run : List Polled → Server World → List Bytes × Server World
  unfolding serve
  run [] server = ([], halted server)
  run (polled ∷ polls) server = elim server.running [
    | false ↦ ([], halted server)
    | true ↦ elim polled [
      | poll_interrupted ↦ run polls server
      | poll_failed ↦ ([], halted server)
      | no_event ↦ run polls server
      | event readable accepts broken ↦
          let (replies, next) = serve readable accepts server in
          elim broken [
            | true ↦ (replies, halted next)
            | false ↦ let (more, last) = run polls next in (replies ++ more, last)
          ]
    ]
  ]

  -- A server that does not run serves no client.
  accept-halted :
      (accepts : List Accept) (server : Server World)
      → accept_pending_clients what accepts (halted server) ≡ ([], halted server)
  unfolding accept_pending_clients
  accept-halted [] server = refl
  accept-halted (accept ∷ accepts) server = refl

  run-halted :
      (polls : List Polled) (server : Server World)
      → run polls (halted server) ≡ ([], halted server)
  unfolding run
  run-halted [] server = refl
  run-halted (polled ∷ polls) server = refl

  -- The server behind a request to stop.
  abbrev pub stopped : Server World → Server World
  stopped server = record server {
    world = stop_with what server.callbacks.on_stop server.world;
    running = false;
  }

  dispatch-stop :
      (server : Server World)
      → dispatch what (codes "STOP") server ≡ (codes "OK stopping\n", stopped server)
  unfolding dispatch is_status equal
  dispatch-stop server = refl

  handle_client-stop :
      (reads : List Read) (sends : List Send) (server : Server World) {command : Bytes}
      → read_command reads ≡ ok command
      → normalize_command command ≡ codes "STOP"
      → handle_client what reads sends server
        ≡ (send_response sends (codes "OK stopping\n"), stopped server)
  unfolding handle_client respond
  handle_client-stop reads sends server r n =
      let replied : respond what (read_command reads) server
          ≡ (codes "OK stopping\n", stopped server) =
        ap (λ request. respond what request server) r
        ∙ ap (λ c. dispatch what c server) n
        ∙ dispatch-stop server in
      ap (λ p. (send_response sends p.0, p.1)) replied

  -- The rest of a round, for the clients that were served.
  ending : Bool → List Polled → List Bytes × Server World → List Bytes × Server World
  ending true polls (replies, next) = (replies, halted next)
  ending false polls (replies, next) =
      let (more, final) = run polls next in (replies ++ more, final)

  run-event :
      (accepts : List Accept) (broken : Bool) (polls : List Polled) (server : Server World)
      → server.running ≡ true
      → run (event true accepts broken ∷ polls) server
        ≡ ending broken polls (accept_pending_clients what accepts server)
  unfolding run serve ending
  run-event accepts true polls server on = ap turn on
    where
      turn : Bool → List Bytes × Server World
      turn false = ([], halted server)
      turn true = ending true polls (accept_pending_clients what accepts server)
  run-event accepts false polls server on = ap turn on
    where
      turn : Bool → List Bytes × Server World
      turn false = ([], halted server)
      turn true = ending false polls (accept_pending_clients what accepts server)

  -- What `accept_pending_clients` does behind the first client.
  one : List Accept → Bytes × Server World → List Bytes × Server World
  one accepts (received, next) =
      let (replies, final) = accept_pending_clients what accepts next in (received ∷ replies, final)

  accept-client :
      (reads : List Read) (sends : List Send) (accepts : List Accept) (server : Server World)
      → server.running ≡ true
      → accept_pending_clients what (client reads sends ∷ accepts) server
        ≡ one accepts (handle_client what reads sends server)
  unfolding accept_pending_clients one
  accept-client reads sends accepts server on = ap turn on
    where
      turn : Bool → List Bytes × Server World
      turn false = ([], server)
      turn true = one accepts (handle_client what reads sends server)

  ending-stopped :
      (broken : Bool) (polls : List Polled) (replies : List Bytes) (server : Server World)
      → ending broken polls (replies, halted server) ≡ (replies, halted server)
  unfolding ending
  ending-stopped true polls replies server = refl
  ending-stopped false polls replies server =
      ap (λ q. (replies ++ q.0, q.1)) (run-halted polls server)
      ∙ ap (λ t. (t, halted server)) (append-nil replies)

  -- The thread ends with a request to stop, and no client behind it is served: when a running server
  -- reads a request whose normal form is STOP, that client gets the reply and is the last one.
  pub run-stop_with :
      (reads : List Read) (sends : List Send) (accepts : List Accept) (broken : Bool)
      (polls : List Polled) (server : Server World) {command : Bytes}
      → server.running ≡ true
      → read_command reads ≡ ok command
      → normalize_command command ≡ codes "STOP"
      → run (event true (client reads sends ∷ accepts) broken ∷ polls) server
        ≡ (send_response sends (codes "OK stopping\n") ∷ [], stopped server)
  unfolding one
  run-stop_with reads sends accepts broken polls server on r n =
      run-event (client reads sends ∷ accepts) broken polls server on
      ∙ ap (ending broken polls) (
          accept-client reads sends accepts server on
          ∙ ap (one accepts) (handle_client-stop reads sends server r n)
          ∙ ap (λ q. (send_response sends (codes "OK stopping\n") ∷ q.0, q.1))
              (accept-halted accepts (stopped server)))
      ∙ ending-stopped broken polls _ (stopped server)
