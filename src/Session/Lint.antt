-- ===== src/Session/Lint.antt =====
-- The statuses with which `ahkunixctl load` and `ahkunixctl lint` end.
use ahk_unix.Base.{
  none, true, ℕ, ◌<◌, ◌≤◌, List, [], ◌∷◌, ◌≡◌, refl, ap, ◌∙◌, sym, inl, inr, ◌↔◌, arith, map, Bytes,
  length, codes, Result, ok, err, Error, ◌>>=◌, Option, some, subst, Result-cases,
}
use ahk_unix.Text.Chars.{equal, starts_with}
use ahk_unix.Text.Find.{Lacks}
use ahk_unix.Layout.{russian_qwerty}
use ahk_unix.ScriptFile.Loop.{ScriptFile, parse_file}
use ahk_unix.Daemon.{DaemonState}
use ahk_unix.Daemon.Handler.{request_macro_stop, reload_script}
use ahk_unix.Ipc.{Load, returned, threw, Server}
use ahk_unix.Ipc.Transport.{received, Send}
use ahk_unix.Ipc.Chunks.{join}
use ahk_unix.Ipc.Sending.{AllWork, taken}
use ahk_unix.Ipc.Client.{load_reply, load_with, handle_client}
use ahk_unix.Cli.{System, Ended, cout}
use ahk_unix.Cli.Transport.{connect_to_daemon}
use ahk_unix.Cli.Transport.{
  write_all, read_response, response_is_error, ended_by, send_daemon_command,
}
use ahk_unix.Cli.Lint.{lint_loop, run_lint}
use ahk_unix.Cli.Main.{load_command, run_command, caught, main}
use ahk_unix.Startup.{Options, App}
use ahk_unix.Startup.Callbacks.{Calls, on_load, callbacks}
use ahk_unix.Session.{load_request}
use ahk_unix.Session.Request.{Plain}
use ahk_unix.Session.Load.{write_all-whole, send_daemon_command-eq, handle_client-load}

-- The parser accepts the contents of a script.
abbrev pub Accepted : Bytes → Option Bytes → Type 0
Accepted path contents = (f : ScriptFile) × (parse_file russian_qwerty path contents ≡ ok f)

status-returned : (what : Error → Bytes) → (ended_by (load_reply what returned)).status ≡ 0
unfolding ended_by load_reply response_is_error starts_with
status-returned what = refl

status-threw :
    (what : Error → Bytes) (e : Error) → (ended_by (load_reply what (threw e))).status ≡ 1
unfolding ended_by load_reply response_is_error starts_with
status-threw what e = refl

-- The reply to a load ends the client with 0 if and only if the parser accepts the script.
status-on_load :
    (what : Error → Bytes) (calls : Calls) (path : Bytes) (app : App)
    → ((ended_by (load_reply what (on_load calls path app).0)).status ≡ 0)
      ↔ Accepted path (calls.contents path)
unfolding on_load reload_script
status-on_load what calls path app =
    elim (Result-cases (parse_file russian_qwerty path (calls.contents path))) [
      | inl (f, e) ↦ rw (e, on_load) (λ _. (f, refl), λ _. status-returned what)
      | inr (thrown, e) ↦
          rw (e, on_load)
            (
              λ k. absurd (ground (arith, k, status-threw what thrown)),
              λ k. absurd (ground (arith, k.1)),
            )
    ]

-- What is done when a script has been parsed.
abbrev parsed : Result ScriptFile → Result Ended
parsed r = r >>= λ _. ok (record { status = 0; output = cout (codes "Lint OK\n") })

status-parsed :
    (r : Result ScriptFile) → ((caught (parsed r)).status ≡ 0) ↔ ((f : ScriptFile) × (r ≡ ok f))
unfolding caught
status-parsed (ok f) = (λ _. (f, refl), λ _. refl)
status-parsed (err e) = (λ k. absurd (ground (arith, k)), λ k. absurd (ground (arith, k.1)))

main-lint :
    (system : System) (path : Bytes)
    → main system (codes "lint" ∷ (b'/' ∷ path) ∷ [])
      ≡ caught (parsed (parse_file russian_qwerty (b'/' ∷ path) (system.contents (b'/' ∷ path))))
unfolding main run_command run_lint lint_loop equal starts_with
main-lint system path = refl

-- `ahkunixctl lint` of an absolute path ends with 0 if and only if the parser accepts the script.
pub status-lint :
    (system : System) (path : Bytes)
    → ((main system (codes "lint" ∷ (b'/' ∷ path) ∷ [])).status ≡ 0)
      ↔ Accepted (b'/' ∷ path) (system.contents (b'/' ∷ path))
status-lint system path =
    rw (main-lint system path)
      (status-parsed (parse_file russian_qwerty (b'/' ∷ path) (system.contents (b'/' ∷ path))))

main-load :
    (system : System) (typed script : Bytes) {fd : ℕ} {written response : Bytes}
    → system.absolute typed ≡ ok script
    → connect_to_daemon system ≡ ok fd
    → write_all system.writes (load_request script) ≡ ok written
    → read_response (system.receives written) ≡ ok response
    → main system (codes "load" ∷ typed ∷ []) ≡ ended_by response
unfolding main run_command load_command equal caught
main-load system typed script a c w r =
    ap (λ p. caught (p >>= λ s. send_daemon_command system (load_request s))) a
    ∙ ap caught (send_daemon_command-eq system (load_request script) c w r)

-- The script stays, its macros are cancelled.
abbrev pub Kept : App → App → Type 0
Kept app after =
    (after.daemon.hotstrings ≡ app.daemon.hotstrings)
    × (after.daemon.ring ≡ app.daemon.ring)
    × (after.daemon.pressed_keys ≡ app.daemon.pressed_keys)
    × (after.active_script ≡ app.active_script)
    × (after.load_time ≡ app.load_time)
    × (after.daemon.stop_requested ≡ true)
    × (after.daemon.macro_queue ≡ [])

reload_script-refused :
    (path : Bytes) (contents : Option Bytes) (d : DaemonState) {e : Error}
    → parse_file russian_qwerty path contents ≡ err e
    → reload_script path contents d ≡ (some e, request_macro_stop d)
unfolding reload_script
reload_script-refused path contents d k = rw (k, reload_script) refl

on_load-Kept :
    (calls : Calls) (path : Bytes) (app : App) {e : Error}
    → parse_file russian_qwerty path (calls.contents path) ≡ err e
    → Kept app (on_load calls path app).1
unfolding on_load request_macro_stop
on_load-Kept calls path app k =
    subst (λ p. Kept app (left p).1)
      (sym (reload_script-refused path (calls.contents path) app.daemon k))
      (refl, refl, refl, refl, refl, refl, refl)
  where
    left : Option Error × DaemonState → Load × App
    left p = elim p.0 [
      | none ↦ (returned, record app { daemon = p.1; active_script = path; load_time = calls.now })
      | some e ↦ (threw e, record app { daemon = p.1 })
    ]

-- `ahkunixctl load` against a running daemon. The daemon's callbacks are those of its `main`; the typed
-- path becomes an absolute one without newlines that ends in no space and is not too long; the request
-- arrives in `parts`, and the calls of `send` take the whole reply.
module _ (system : System) (what : Error → Bytes) (options : Options) (calls : Calls)
    (server : Server App) (typed path : Bytes) (parts : List Bytes) (sends : List Send) {fd : ℕ}
    {written : Bytes} (own : server.callbacks ≡ callbacks options calls)
    (a : system.absolute typed ≡ ok (b'/' ∷ path)) (plain : Plain path) (lacks : Lacks b'\n' path)
    (small : length path < 4090) (c : connect_to_daemon system ≡ ok fd)
    (w : write_all system.writes (load_request (b'/' ∷ path)) ≡ ok written)
    (j : join parts ≡ written) (works : AllWork sends)
    (enough : length (load_with what (some (on_load calls)) (b'/' ∷ path) server).0 ≤ taken sends)
    (r : read_response (system.receives written)
      ≡ ok (handle_client what (map received parts) sends server).0) where
  served :
      handle_client what (map received parts) sends server
      ≡ load_with what (some (on_load calls)) (b'/' ∷ path) server
  unfolding callbacks
  served =
      let load : server.callbacks.on_load ≡ some (on_load calls) = ap (λ k. k.on_load) own in
      let request = j ∙ write_all-whole system.writes (load_request (b'/' ∷ path)) w in
      handle_client-load what server path parts sends plain lacks small request works (
        subst (λ o. length (load_with what o (b'/' ∷ path) server).0 ≤ taken sends) (sym load)
          enough)
      ∙ ap (λ o. load_with what o (b'/' ∷ path) server) load

  ended :
      main system (codes "load" ∷ typed ∷ [])
      ≡ ended_by (load_reply what (on_load calls (b'/' ∷ path) server.world).0)
  unfolding load_with
  ended = main-load system typed (b'/' ∷ path) a c w r ∙ ap (λ p. ended_by p.0) served

  -- Under the conditions of this section, namely a plain absolute path without newlines that is not
  -- too long, a client that connects and writes, a request that arrives in pieces, and calls that send
  -- the whole reply: the client ends with 0 if and only if the parser accepts what the daemon reads
  -- under the path.
  pub status-load :
      ((main system (codes "load" ∷ typed ∷ [])).status ≡ 0)
      ↔ Accepted (b'/' ∷ path) (calls.contents (b'/' ∷ path))
  status-load = rw ended (status-on_load what calls (b'/' ∷ path) server.world)

  -- Under the conditions of this section, and if the client and the daemon read the same contents under
  -- the path, `load` ends with 0 if and only if `lint` of the path does.
  pub status-load-lint :
      system.contents (b'/' ∷ path) ≡ calls.contents (b'/' ∷ path)
      → ((main system (codes "load" ∷ typed ∷ [])).status ≡ 0)
        ↔ ((main system (codes "lint" ∷ (b'/' ∷ path) ∷ [])).status ≡ 0)
  status-load-lint same =
      let (l1, l2) = status-load in
      let (k1, k2) = status-lint system path in
      (
        λ e. k2 (subst (Accepted (b'/' ∷ path)) (sym same) (l1 e)),
        λ e. l2 (subst (Accepted (b'/' ∷ path)) same (k1 e)),
      )

  -- The server behind the load: what the callback makes of the state of the daemon.
  pub handle_client-on_load :
      (handle_client what (map received parts) sends server).1
      ≡ record server { world = (on_load calls (b'/' ∷ path) server.world).1 }
  unfolding load_with
  handle_client-on_load = ap (λ p. p.1) served

  -- Under the conditions of this section: if the client ends with another status than 0, then the
  -- daemon has kept its hotstrings, its ring and its pressed keys, and the name and the time of the active
  -- script, but the flag that stops the running macro is set and no macro waits any more.
  pub handle_client-Kept :
      ¬ ((main system (codes "load" ∷ typed ∷ [])).status ≡ 0)
      → Kept server.world (handle_client what (map received parts) sends server).1.world
  handle_client-Kept failed =
      let script : Bytes = b'/' ∷ path in
      elim (Result-cases (parse_file russian_qwerty script (calls.contents script))) [
        | inl accepted ↦ absurd (failed (status-load.1 accepted))
        | inr (e, refused) ↦
            subst (Kept server.world) (sym (ap (λ s. s.world) handle_client-on_load))
              (on_load-Kept calls script server.world refused)
      ]
