-- ===== src/Device/Tests.antt =====
-- Examples of a combo and of a paste.
use ahk_unix.Base.{
  true, false, not, ◌||◌, ◌&&◌, [], ◌∷◌, ◌≡◌, ◌∙◌, sym, ◌==◌, refl, arith, Bytes, codes, ok, none,
  some, if◌then◌else◌,
}
use ahk_unix.Text.Chars.{equal}
use ahk_unix.Device.Output.{combo, emit, emit_all, and_then, hold_combo_and_tap}
use ahk_unix.Device.Held.{is_down, is_member, is_down-hold_combo_and_tap}
use ahk_unix.Device.Backend.{
  System, backend, command_exists, directories, candidate, has_env, set_text, get_text, run, output,
}
use ahk_unix.Base.{List, >>=-eq-ok, ◌>>=◌}
use ahk_unix.Device.Pipes.{
  Write, wrote, Wait, exited, last, write_loop, write_loop-whole, wait_loop, feed, run_with_stdin,
  read_loop, read_stdout,
}
use ahk_unix.Device.Paste.{state_of, paste_text_synchronously, get_text-paste_text}

is_down-hold_combo_and_tap_example :
    is_down 29 false (combo (29 ∷ []) 47)
    ≡ (is_down 29 false [] && not (47 == 29 || is_member 29 (29 ∷ [])))
unfolding hold_combo_and_tap emit_all emit and_then
is_down-hold_combo_and_tap_example = is_down-hold_combo_and_tap (λ _. true) (29 ∷ []) 47 [] 29 refl

abbrev writes : List Write
writes = wrote 2 ∷ wrote 9 ∷ []

abbrev waits : List Wait
waits = exited 0 ∷ []

-- A clipboard that xsel serves; the state is its text.
abbrev system : System Bytes
system = record {
  getenv = λ name. if equal name (codes "WAYLAND_DISPLAY") then none else some (codes "/");
  executable = λ path. equal path (codes "/xsel");
  spawn = λ arguments. record { pipe = true; file_actions = true; spawned = true };
  writes = λ arguments. writes;
  waits = λ arguments. waits;
  received = λ arguments text state. text;
  opened = λ command. true;
  pieces = λ command state. last state ∷ [];
}

served : (t s r : Bytes) → set_text system t s ≡ ok r → get_text system r ≡ t
unfolding set_text get_text backend command_exists directories candidate has_env equal run output
    run_with_stdin feed write_loop wait_loop read_loop read_stdout
served t s r h =
    let (text, e1, e2) = >>=-eq-ok (feed writes waits t) (λ text. ok text) h in
    let (received, f1, f2) =
      >>=-eq-ok (write_loop writes t) (λ received. wait_loop waits >>= λ _. ok received) e1 in
    let whole = write_loop-whole writes t f1 in
    let first : received ≡ text = ground (arith, f2) in
    let second : text ≡ r = ground (arith, e2) in sym second ∙ sym first ∙ whole

get_text-paste_text_example :
    get_text system
      (state_of (paste_text_synchronously system (λ _. true) (codes "new") (codes "old") []))
    ≡ get_text system (codes "old")
unfolding set_text get_text backend command_exists directories candidate has_env equal run output
    run_with_stdin feed write_loop wait_loop read_loop read_stdout
get_text-paste_text_example =
    get_text-paste_text system (λ _. true) (codes "new") (codes "old") (codes "new") (codes "old")
      [] served refl refl
