-- ===== src/Ipc/Replies.antt =====
-- What `handle_client` of src/daemon/IpcServer.cpp replies, and when the server stops.
use ahk_unix.Base.{
  true, false, not, ◌&&◌, [], ◌∷◌, ◌++◌, ◌≡◌, refl, ◌∙◌, inl, inr, arith, Option, none, some, Bytes,
  is_empty, drop, codes, ok, Error, Bool-cases,
}
use ahk_unix.Text.Chars.{equal, equal_iff}
use ahk_unix.Text.Find.{Lacks, Lacks-append}
use ahk_unix.Ipc.{Load, returned, threw, threw_unknown, Server}
use ahk_unix.Ipc.Request.{trim_copy, single_line_error, single_line_error-Lacks, normalize_command}
use ahk_unix.Ipc.Client.{is_load, is_status, load_reply, load_with, dispatch, respond}

-- A text of one line, with its newline.
abbrev pub OneLine : Bytes → Type 0
OneLine reply = (line : Bytes) × (reply ≡ line ++ b'\n' ∷ []) × Lacks b'\n' line

load_reply-OneLine : (what : Error → Bytes) (load : Load) → OneLine (load_reply what load)
unfolding load_reply
load_reply-OneLine what returned = (codes "OK loaded", refl, ground arith)
load_reply-OneLine what (threw e) = (
  codes "ERR " ++ single_line_error (what e),
  refl,
  Lacks-append b'\n' (codes "ERR ") (single_line_error (what e)) (ground arith)
      (single_line_error-Lacks (what e)),
)
load_reply-OneLine what threw_unknown = (codes "ERR unknown load failure", refl, ground arith)

not_stop : (command : Bytes) → is_status command ≡ true → equal command (codes "STOP") ≡ false
unfolding is_status
not_stop command h = elim (Bool-cases (equal command (codes "PING"))) [
  | inl e ↦ let same = (equal_iff command (codes "PING")).0 e in rw (same, equal)
  | inr e ↦
      let same = (equal_iff command (codes "STATUS")).0 (ground (arith, h, e)) in rw (same, equal)
]

module _ {World : Type 0} (what : Error → Bytes) where
  load_with-OneLine :
      (on_load : Option (Bytes → World → Load × World)) (path : Bytes) (server : Server World)
      → OneLine (load_with what on_load path server).0
  unfolding load_with
  load_with-OneLine none path server = (codes "ERR LOAD unavailable", refl, ground arith)
  load_with-OneLine (some on_load) path server =
      load_reply-OneLine what (on_load path server.world).0

  dispatch-OneLine :
      (command : Bytes) (server : Server World)
      → is_status command ≡ false
      → OneLine (dispatch what command server).0
  unfolding dispatch
  dispatch-OneLine command server h = elim (Bool-cases (equal command (codes "STOP"))) [
    | inl stop ↦ rw (h, stop, dispatch) (codes "OK stopping", refl, ground arith)
    | inr other ↦ elim (Bool-cases (is_load command)) [
      | inr unknown ↦
          rw (h, other, unknown, dispatch) (codes "ERR unknown command", refl, ground arith)
      | inl load ↦ elim (Bool-cases (is_empty (trim_copy (drop 4 command)))) [
        | inl e ↦
            rw (h, other, load, e, dispatch) (codes "ERR LOAD requires path", refl, ground arith)
        | inr e ↦
            rw (h, other, load, e, dispatch)
              (load_with-OneLine server.callbacks.on_load (trim_copy (drop 4 command)) server)
      ]
    ]
  ]

  -- The reply to a request whose normal form is not PING or STATUS is one line, whatever text an exception
  -- carries.
  pub respond-OneLine :
      (command : Bytes) (server : Server World)
      → is_status (normalize_command command) ≡ false
      → OneLine (respond what (ok command) server).0
  unfolding respond
  respond-OneLine command server h = dispatch-OneLine (normalize_command command) server h

  load_with-running :
      (on_load : Option (Bytes → World → Load × World)) (path : Bytes) (server : Server World)
      → (load_with what on_load path server).1.running ≡ server.running
  unfolding load_with
  load_with-running none path server = refl
  load_with-running (some on_load) path server = refl

  dispatch-running :
      (command : Bytes) (server : Server World)
      → (dispatch what command server).1.running
        ≡ (server.running && not (equal command (codes "STOP")))
  unfolding dispatch
  dispatch-running command server = elim (Bool-cases (is_status command)) [
    | inl status ↦ rw (status, not_stop command status, dispatch) (ground arith)
    | inr other ↦ elim (Bool-cases (equal command (codes "STOP"))) [
      | inl stop ↦ rw (other, stop, dispatch) (ground arith)
      | inr e ↦ elim (Bool-cases (is_load command)) [
        | inr unknown ↦ rw (other, e, unknown, dispatch) (ground arith)
        | inl load ↦ elim (Bool-cases (is_empty (trim_copy (drop 4 command)))) [
          | inl k ↦ rw (other, e, load, k, dispatch) (ground arith)
          | inr k ↦
              rw (other, e, load, k, dispatch)
                (load_with-running server.callbacks.on_load (trim_copy (drop 4 command)) server
                  ∙ ground arith)
        ]
      ]
    ]
  ]

  -- Behind a request the server runs if it ran before and the normal form of the request is not STOP.
  pub respond-running :
      (command : Bytes) (server : Server World)
      → (respond what (ok command) server).1.running
        ≡ (server.running && not (equal (normalize_command command) (codes "STOP")))
  unfolding respond
  respond-running command server = dispatch-running (normalize_command command) server
