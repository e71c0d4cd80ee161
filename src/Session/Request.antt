-- ===== src/Session/Request.antt =====
-- What the server makes of the request that `ahkunixctl load` writes.
use ahk_unix.Base.{
  ℕ, true, false, ◌&&◌, if◌then◌else◌, [], ◌∷◌, ◌++◌, ◌≡◌, refl, ap, ◌∙◌, arith, Bytes, is_empty,
  codes, ok, Error,
}
use ahk_unix.Text.Chars.{is_space, to_upper, equal, starts_with}
use ahk_unix.Text.Trim.{drop_while, drop_last_while}
use ahk_unix.Text.Number.{span}
use ahk_unix.Ipc.{Server}
use ahk_unix.Ipc.Request.{trim_copy, is_verb_char, upper, upper_verb, normalize_command}
use ahk_unix.Ipc.Client.{is_load, is_status, load_with, dispatch, respond}
use ahk_unix.Session.{load_request}

drop_last_while-append :
    (s : Bytes) (c : ℕ)
    → is_space c ≡ true
    → drop_last_while is_space (s ++ c ∷ []) ≡ drop_last_while is_space s
unfolding drop_last_while
drop_last_while-append [] c h = rw (h, drop_last_while)
drop_last_while-append (x ∷ s) c h =
    ap (λ rest. if is_empty rest && is_space x then [] else x ∷ rest) (drop_last_while-append s c h)

drop_last_while-cons :
    (c d : ℕ) (s : Bytes)
    → drop_last_while is_space (d ∷ s) ≡ d ∷ s
    → drop_last_while is_space (c ∷ d ∷ s) ≡ c ∷ d ∷ s
unfolding drop_last_while
drop_last_while-cons c d s h = ap (λ rest. if is_empty rest && is_space c then [] else c ∷ rest) h

-- An absolute path that ends in no space.
abbrev pub Plain : Bytes → Type 0
Plain path = drop_last_while is_space (b'/' ∷ path) ≡ b'/' ∷ path

load_text :
    (path : Bytes)
    → Plain path
    → drop_last_while is_space (codes "LOAD /" ++ path) ≡ codes "LOAD /" ++ path
load_text path h = drop_last_while-cons b'L' b'O' _ (
    drop_last_while-cons b'O' b'A' _ (
      drop_last_while-cons b'A' b'D' _
        (drop_last_while-cons b'D' b' ' _ (drop_last_while-cons b' ' b'/' path h))))

normalize_command-load :
    (path : Bytes)
    → Plain path
    → normalize_command (load_request (b'/' ∷ path)) ≡ codes "LOAD /" ++ path
unfolding normalize_command trim_copy drop_while is_space upper_verb upper span is_verb_char
    to_upper
normalize_command-load path h =
    ap upper_verb (drop_last_while-append (codes "LOAD /" ++ path) b'\n' refl ∙ load_text path h)

trim_copy-path : (path : Bytes) → Plain path → trim_copy (b' ' ∷ b'/' ∷ path) ≡ b'/' ∷ path
unfolding trim_copy drop_while is_space
trim_copy-path path h = h

is_load-path : (path : Bytes) → is_load (codes "LOAD /" ++ path) ≡ true
unfolding is_load starts_with is_space
is_load-path path = ground arith

is_status-path : (path : Bytes) → is_status (codes "LOAD /" ++ path) ≡ false
unfolding is_status equal
is_status-path path = refl

-- The server loads the path that the client wrote.
pub respond-load :
    {World : Type 0} (what : Error → Bytes) (path : Bytes) (server : Server World)
    → Plain path
    → respond what (ok (load_request (b'/' ∷ path))) server
      ≡ load_with what server.callbacks.on_load (b'/' ∷ path) server
unfolding respond dispatch equal
respond-load what path server h =
    ap (λ c. dispatch what c server) (normalize_command-load path h)
    ∙ rw (is_status-path path, is_load-path path, trim_copy-path path h, dispatch)
