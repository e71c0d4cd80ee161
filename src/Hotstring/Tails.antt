-- ===== src/Hotstring/Tails.antt =====
-- What `parse_replacement` reads: the text and the keys of a replacement in the order written.
use ahk_unix.Base.{
  ℕ, zero, suc, ◌<◌, true, false, List, [], ◌∷◌, ◌++◌, ◌≡◌, ◌≢◌, refl, sym, ap, ◌∙◌, arith, inl,
  inr, Bytes, length, append-nil, append_assoc, length-append, ok, err, Error, Result-cases,
}
use ahk_unix.Base.Int.{ℤ}
use ahk_unix.Text.Find.{Lacks, Lacks-append}
use ahk_unix.Text.Token.{scan_plain, scan_token, scan_cases}
use ahk_unix.SendInput.{is_literal}
use ahk_unix.Hotstring.{Hotstring}
use ahk_unix.Hotstring.Replacement.{
  tail_key, tail_command, Tail, replacement_token, replacement_loop, parse_replacement,
}

-- A piece of a replacement: text as it stands, an escaped literal, or a command with its key.
pub data Piece : Type 0 where
  raw : Bytes → Piece
  literal : Bytes → Piece
  tap : Bytes → ℕ × ℤ → Piece

abbrev pub IsPiece : Piece → Type 0
IsPiece (raw text) = Lacks b'{' text
IsPiece (literal cmd) = (is_literal cmd ≡ true) × Lacks b'}' cmd
IsPiece (tap cmd key) = (is_literal cmd ≡ false) × Lacks b'}' cmd × (tail_command cmd ≡ ok key)

abbrev pub AllPieces : List Piece → Type 0
AllPieces [] = Unit
AllPieces (p ∷ ps) = IsPiece p × AllPieces ps

-- The pieces as a script writes them, their text, and their keys.
abbrev pub written : List Piece → Bytes
written [] = []
written (raw text ∷ ps) = text ++ written ps
written (literal cmd ∷ ps) = b'{' ∷ (cmd ++ b'}' ∷ written ps)
written (tap cmd key ∷ ps) = b'{' ∷ (cmd ++ b'}' ∷ written ps)

abbrev pub text_of : List Piece → Bytes
text_of [] = []
text_of (raw text ∷ ps) = text ++ text_of ps
text_of (literal cmd ∷ ps) = cmd ++ text_of ps
text_of (tap cmd key ∷ ps) = text_of ps

abbrev pub keys_of : List Piece → List (ℕ × ℤ)
keys_of [] = []
keys_of (raw text ∷ ps) = keys_of ps
keys_of (literal cmd ∷ ps) = keys_of ps
keys_of (tap cmd key ∷ ps) = key ∷ keys_of ps

literal_token :
    (text before cmd : Bytes) (keys : List (ℕ × ℤ))
    → is_literal cmd ≡ true
    → replacement_token (text, keys) before cmd ≡ ok (text ++ before ++ cmd, keys)
unfolding replacement_token
literal_token text before cmd keys h = ground (arith, h)

tap_token :
    (text before cmd : Bytes) (keys : List (ℕ × ℤ)) (key : ℕ × ℤ)
    → is_literal cmd ≡ false
    → tail_command cmd ≡ ok key
    → replacement_token (text, keys) before cmd ≡ ok (text ++ before, keys ++ key ∷ [])
unfolding replacement_token
tap_token text before cmd keys key h e = rw (h, e) refl

loop_token :
    (f : ℕ) (before cmd next : Bytes) (tail longer : Tail)
    → Lacks b'{' before
    → Lacks b'}' cmd
    → replacement_token tail before cmd ≡ ok longer
    → replacement_loop (suc f) (before ++ b'{' ∷ (cmd ++ b'}' ∷ next)) tail
      ≡ replacement_loop f next longer
unfolding replacement_loop
loop_token f before cmd next tail longer h k e = ground (arith, scan_token before cmd next h k, e)

loop_plain :
    (f : ℕ) (rest : Bytes) (tail : Tail)
    → Lacks b'{' rest
    → replacement_loop (suc f) rest tail ≡ ok (tail.0 ++ rest, tail.1)
unfolding replacement_loop
loop_plain f rest tail h = rw (scan_plain rest h, replacement_loop) refl

-- The pieces are read behind text `a` that is already found to hold no bracket.
replacement_loop-written :
    (ps : List Piece) (a text : Bytes) (keys : List (ℕ × ℤ)) (f : ℕ)
    → AllPieces ps
    → Lacks b'{' a
    → length (written ps) < f
    → replacement_loop f (a ++ written ps) (text, keys)
      ≡ ok (text ++ (a ++ text_of ps), keys ++ keys_of ps)
replacement_loop-written ps a text keys zero all h l = elim l [ ]
replacement_loop-written [] a text keys (suc f) all h l =
    ap (λ s. replacement_loop (suc f) s (text, keys)) (append-nil a)
    ∙ loop_plain f a (text, keys) h
    ∙ ap (λ k. ok (text ++ a, k)) (sym (append-nil keys))
    ∙ ap (λ b. ok (text ++ b, keys ++ [])) (sym (append-nil a))
replacement_loop-written (raw t ∷ ps) a text keys (suc f) all h l =
    ap (λ s. replacement_loop (suc f) s (text, keys)) (sym (append_assoc a t (written ps)))
    ∙ replacement_loop-written ps (a ++ t) text keys (suc f) all.1 (Lacks-append b'{' a t h all.0)
        (omega (arith, length-append t (written ps)))
    ∙ ap (λ s. ok (text ++ s, keys ++ keys_of ps)) (append_assoc a t (text_of ps))
replacement_loop-written (literal cmd ∷ ps) a text keys (suc f) all h l =
    loop_token f a cmd (written ps) (text, keys) _ h all.0.1 (literal_token text a cmd keys all.0.0)
    ∙ replacement_loop-written ps [] (text ++ a ++ cmd) keys f all.1 tt
        (omega (arith, length-append cmd (b'}' ∷ written ps)))
    ∙ ap (λ s. ok (s, keys ++ keys_of ps)) (simp append_assoc)
replacement_loop-written (tap cmd key ∷ ps) a text keys (suc f) all h l =
    loop_token f a cmd (written ps) (text, keys) _ h all.0.1
      (tap_token text a cmd keys key all.0.0 all.0.2)
    ∙ replacement_loop-written ps [] (text ++ a) (keys ++ key ∷ []) f all.1 tt
        (omega (arith, length-append cmd (b'}' ∷ written ps)))
    ∙ ap ok (
        ap (λ s. (s, keys ++ key ∷ [] ++ keys_of ps)) (append_assoc text a (text_of ps))
        ∙ ap (λ ks. (text ++ (a ++ text_of ps), ks)) (append_assoc keys (key ∷ []) (keys_of ps)))

-- A replacement written from pieces is read as the text of the pieces and their keys, both in order
-- and behind the keys that the hotstring has; its other fields stay.
pub parse_replacement-written :
    (ps : List Piece) (hs : Hotstring)
    → AllPieces ps
    → parse_replacement (written ps) hs
      ≡ ok (record hs { replacement_utf8 = text_of ps; tail_keys = hs.tail_keys ++ keys_of ps })
unfolding parse_replacement
parse_replacement-written ps hs all =
    let n = length (written ps) in
    rw (replacement_loop-written ps [] [] hs.tail_keys (suc n) all tt (omega arith)) refl

tail_command-fuel : (cmd : Bytes) → tail_command cmd ≢ err Error.out_of_fuel
unfolding tail_command tail_key
tail_command-fuel cmd = ground arith

replacement_token-fuel :
    (tail : Tail) (before cmd : Bytes) → replacement_token tail before cmd ≢ err Error.out_of_fuel
unfolding replacement_token
replacement_token-fuel tail before cmd = ground (arith, tail_command-fuel cmd)

replacement_loop-fuel :
    (f : ℕ) (rest : Bytes) (tail : Tail)
    → length rest < f
    → replacement_loop f rest tail ≢ err Error.out_of_fuel
unfolding replacement_loop
replacement_loop-fuel zero rest tail l = elim l [ ]
replacement_loop-fuel (suc f) rest tail l = elim (scan_cases rest) [
  | inl (s, _) ↦ ground (arith, s)
  | inr (inl s) ↦ ground (arith, s)
  | inr (inr (before, cmd, next, s, _, _, _, shorter)) ↦
      elim (Result-cases (replacement_token tail before cmd)) [
        | inl (longer, made) ↦
            ground (arith, s, made, replacement_loop-fuel f next longer (omega arith))
        | inr (e, made) ↦ ground (arith, s, made, replacement_token-fuel tail before cmd)
      ]
]

pub parse_replacement-fuel :
    (replacement : Bytes) (hs : Hotstring)
    → parse_replacement replacement hs ≢ err Error.out_of_fuel
unfolding parse_replacement
parse_replacement-fuel replacement hs =
    let done =
      replacement_loop-fuel (suc (length replacement)) replacement ([], hs.tail_keys)
        (omega arith) in
    ground (arith, done)
