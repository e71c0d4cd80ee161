-- ===== src/Ipc/Client.antt =====
-- `handle_client` and `accept_pending_clients` of src/daemon/IpcServer.cpp. The texts of exceptions are
-- the standard library's: the parameter `what`.
use ahk_unix.Base.{
  Bool, true, false, ◌||◌, ◌&&◌, List, [], ◌∷◌, ◌++◌, Option, none, some, leb, if◌then◌else◌, Bytes,
  is_empty, length, drop, get_or, codes, Result, ok, err, Error,
}
use ahk_unix.Text.Chars.{is_space, equal, starts_with}
use ahk_unix.Ipc.{Load, returned, threw, threw_unknown, Server}
use ahk_unix.Ipc.Request.{trim_copy, single_line_error, normalize_command}
use ahk_unix.Ipc.Transport.{Read, Send, read_command, send_response}

-- `command.size() >= 5 && command.starts_with("LOAD") && std::isspace(command[4])`
unfoldable pub is_load : Bytes → Bool
unfolding starts_with is_space
is_load command =
    leb 5 (length command) && starts_with command (codes "LOAD") && is_space (get_or command 4 0)

unfoldable pub is_status : Bytes → Bool
unfolding equal
is_status command = equal command (codes "PING") || equal command (codes "STATUS")

-- The reply to a load that was tried.
unfoldable pub load_reply : (Error → Bytes) → Load → Bytes
unfolding single_line_error
load_reply what returned = codes "OK loaded\n"
load_reply what (threw e) = codes "ERR " ++ single_line_error (what e) ++ codes "\n"
load_reply what threw_unknown = codes "ERR unknown load failure\n"

-- What `accept` returns: a client with what its socket does, a client whose set-up fails, an
-- interruption. Behind the end of a list of them no client waits, or `accept` fails.
pub data Accept : Type 0 where
  client : List Read → List Send → Accept
  bad_client : Accept
  accept_interrupted : Accept

module _ {World : Type 0} (what : Error → Bytes) where
  unfoldable pub load_with :
      Option (Bytes → World → Load × World) → Bytes → Server World → Bytes × Server World
  unfolding load_reply
  load_with none path server = (codes "ERR LOAD unavailable\n", server)
  load_with (some on_load) path server =
      let (load, world) = on_load path server.world in
      (load_reply what load, record server { world = world })

  unfoldable pub status_reply : Option (World → Result Bytes) → World → Bytes
  status_reply none world = codes "PONG\n"
  status_reply (some on_status) world = elim (on_status world) [
    | ok text ↦ text
    | err e ↦ codes "ERR failed to process command\n"
  ]

  unfoldable pub stop_with : Option (World → World) → World → World
  stop_with none world = world
  stop_with (some on_stop) world = on_stop world

  -- The commands, as `handle_client` tells them apart.
  unfoldable pub dispatch : Bytes → Server World → Bytes × Server World
  unfolding is_load is_status equal trim_copy load_with status_reply stop_with
  dispatch command server =
      if is_status command
      then (status_reply server.callbacks.on_status server.world, server)
      else if equal command (codes "STOP")
      then (
        codes "OK stopping\n",
        record server { world = stop_with server.callbacks.on_stop server.world; running = false },
      )
      else if is_load command
      then if is_empty (trim_copy (drop 4 command))
        then (codes "ERR LOAD requires path\n", server)
        else load_with server.callbacks.on_load (trim_copy (drop 4 command)) server
      else (codes "ERR unknown command\n", server)

  -- The reply and the server behind it, for what `read_command` returned or threw.
  unfoldable pub respond : Result Bytes → Server World → Bytes × Server World
  unfolding dispatch normalize_command
  respond (err e) server = (codes "ERR failed to process command\n", server)
  respond (ok command) server = dispatch (normalize_command command) server

  -- What the client receives, and the server behind it.
  unfoldable pub handle_client : List Read → List Send → Server World → Bytes × Server World
  unfolding respond read_command send_response
  handle_client reads sends server =
      let (reply, next) = respond (read_command reads) server in (send_response sends reply, next)

  unfoldable pub accept_pending_clients : List Accept → Server World → List Bytes × Server World
  unfolding handle_client
  accept_pending_clients [] server = ([], server)
  accept_pending_clients (accept ∷ accepts) server = elim server.running [
    | false ↦ ([], server)
    | true ↦ elim accept [
      | client reads sends ↦
          let (received, next) = handle_client reads sends server in
          let (replies, last) = accept_pending_clients accepts next in (received ∷ replies, last)
      | bad_client ↦ accept_pending_clients accepts server
      | accept_interrupted ↦ accept_pending_clients accepts server
    ]
  ]
