-- ===== src/Session/Load.antt =====
-- `ahkunixctl load` and `ahkunixctl lint` of src/cli/main.cpp, and what the daemon does with a load.
use ahk_unix.Base.{
  ℕ, ◌<◌, ◌≤◌, List, [], ◌∷◌, ◌++◌, ◌≡◌, ap, ◌∙◌, sym, inl, inr, arith, map, Bytes, length, take,
  drop, take-append-drop, codes, ok, Error, >>=-eq-ok, ◌==◌, Bool-cases, append-nil,
}
use ahk_unix.Text.Find.{Lacks, Lacks-append}
use ahk_unix.Ipc.{Server}
use ahk_unix.Ipc.Transport.{received, Send, read_command, send_response}
use ahk_unix.Ipc.Chunks.{join, read_command-parts}
use ahk_unix.Ipc.Sending.{AllWork, taken, send_response-AllWork}
use ahk_unix.Ipc.Client.{load_with, respond, handle_client}
use ahk_unix.Cli.{System, Write, wrote, write_interrupted, write_failed}
use ahk_unix.Cli.Transport.{
  write_all, read_response, connect_to_daemon, ended_by, send_daemon_command,
}
use ahk_unix.Session.{load_request}
use ahk_unix.Session.Request.{Plain, respond-load}

-- When `write_all` returns, it has written the whole message.
pub write_all-whole :
    (writes : List Write) (message : Bytes) {written : Bytes}
    → write_all writes message ≡ ok written
    → written ≡ message
unfolding write_all
write_all-whole [] [] e = cc
write_all-whole [] (c ∷ message) e = cc
write_all-whole (write ∷ writes) [] e = cc
write_all-whole (wrote n ∷ writes) (c ∷ message) e = elim (Bool-cases (n == 0)) [
  | inl k ↦ absurd (ground (arith, rw (k, write_all) at e))
  | inr k ↦
      let (rest, e1, e2) =
        >>=-eq-ok (write_all writes (drop n (c ∷ message)))
          (λ rest. ok (take n (c ∷ message) ++ rest)) (rw (k, write_all) at e) in
      let same = write_all-whole writes (drop n (c ∷ message)) e1 in
      let built = ap (λ t. take n (c ∷ message) ++ t) same ∙ take-append-drop n (c ∷ message) in cc
]
write_all-whole (write_interrupted ∷ writes) (c ∷ message) e =
    write_all-whole writes (c ∷ message) e
write_all-whole (write_failed ∷ writes) (c ∷ message) e = cc

pub send_daemon_command-eq :
    (system : System) (command : Bytes) {fd : ℕ} {written response : Bytes}
    → connect_to_daemon system ≡ ok fd
    → write_all system.writes command ≡ ok written
    → read_response (system.receives written) ≡ ok response
    → send_daemon_command system command ≡ ok (ended_by response)
unfolding send_daemon_command
send_daemon_command-eq system command c w r = rw (c, w, r)

-- The server loads the path that the client sends, and the client receives the whole reply.
pub handle_client-load :
    {World : Type 0} (what : Error → Bytes) (server : Server World) (path : Bytes)
    (parts : List Bytes) (sends : List Send)
    → Plain path
    → Lacks b'\n' path
    → length path < 4090
    → join parts ≡ load_request (b'/' ∷ path)
    → AllWork sends
    → length (load_with what server.callbacks.on_load (b'/' ∷ path) server).0 ≤ taken sends
    → handle_client what (map received parts) sends server
      ≡ load_with what server.callbacks.on_load (b'/' ∷ path) server
unfolding handle_client
handle_client-load what server path parts sends plain lacks small e works enough =
    let whole =
      read_command-parts parts [] (codes "LOAD /" ++ path)
        (Lacks-append b'\n' (codes "LOAD /") path (ground arith) lacks) (omega (arith, small)) e in
    let read : read_command (map received parts) ≡ ok (load_request (b'/' ∷ path)) =
      ap read_command (sym (append-nil (map received parts))) ∙ whole in
    ap (λ r. (send_response sends (respond what r server).0, (respond what r server).1)) read
    ∙ ap (λ p. (send_response sends p.0, p.1)) (respond-load what path server plain)
    ∙ ap (λ t. (t, (load_with what server.callbacks.on_load (b'/' ∷ path) server).1))
        (send_response-AllWork sends
          (load_with what server.callbacks.on_load (b'/' ∷ path) server).0 works enough)
