-- ===== src/Hotstring/Utf8.antt =====
-- `split_utf8` cuts a text into its characters and loses no byte.
use ahk_unix.Base.{
  ℕ, zero, suc, ◌≤◌, ◌<◌, List, [], ◌∷◌, ◌++◌, ◌≡◌, ◌≢◌, refl, ap, ◌∙◌, arith, inl, inr, Bool-cases,
  ltb, Bytes, length, take, drop, length-take, length-drop, take-append-drop, ok, err, Error,
  >>=-eq-ok,
}
use ahk_unix.Hotstring.Trigger.{utf8_length, split_loop, split_utf8}

-- The characters one after another.
abbrev pub joined : List Bytes → Bytes
joined [] = []
joined (ch ∷ chars) = ch ++ joined chars

-- Every part has between one and four bytes.
abbrev pub AllChars : List Bytes → Type 0
AllChars [] = Unit
AllChars (ch ∷ chars) = (0 < length ch) × (length ch ≤ 4) × AllChars chars

utf8_length_bounds : (c : ℕ) → (0 < utf8_length c) × (utf8_length c ≤ 4)
unfolding utf8_length
utf8_length_bounds c = ground arith

split_loop-joined :
    (f : ℕ) (s : Bytes) {chars : List Bytes}
    → split_loop f s ≡ ok chars
    → (joined chars ≡ s) × AllChars chars
unfolding split_loop
split_loop-joined zero s e = cc
split_loop-joined (suc f) [] {chars} e = let e' : [] ≡ chars = cc in rw (← e') (refl, tt)
split_loop-joined (suc f) (c ∷ s) {chars} e =
    elim (Bool-cases (ltb (length (c ∷ s)) (utf8_length c))) [
      | inl short ↦ absurd (ground (arith, short))
      | inr fits ↦
          let len = utf8_length c in
          let (out, later, made) =
            >>=-eq-ok (split_loop f (drop len (c ∷ s))) (λ out. ok (take len (c ∷ s) ∷ out))
              {b = chars} (ground (arith, fits)) in
          let (whole, all) = split_loop-joined f (drop len (c ∷ s)) later in
          let e' : take len (c ∷ s) ∷ out ≡ chars = cc in
          let size = length-take len (c ∷ s) in
          let bounds = utf8_length_bounds c in
          let enough : len ≤ length (c ∷ s) = ground arith in
          rw (← e') (
            ap (λ t. take len (c ∷ s) ++ t) whole ∙ take-append-drop len (c ∷ s),
            (omega (arith, size, bounds, enough), omega (arith, size, bounds, enough), all),
          )
    ]

split_loop-fuel : (f : ℕ) (s : Bytes) → length s < f → split_loop f s ≢ err Error.out_of_fuel
unfolding split_loop
split_loop-fuel zero s h = elim h [ ]
split_loop-fuel (suc f) [] h = ground arith
split_loop-fuel (suc f) (c ∷ s) h =
    let len = utf8_length c in
    let bounds = utf8_length_bounds c in
    let size = length-drop len (c ∷ s) in
    ground (arith, split_loop-fuel f (drop len (c ∷ s)) (omega (arith, size, bounds)))

-- What `split_utf8` returns is the text cut into pieces of one to four bytes, with no byte lost.
pub split_utf8-joined :
    (s : Bytes) {chars : List Bytes} → split_utf8 s ≡ ok chars → (joined chars ≡ s) × AllChars chars
unfolding split_utf8
split_utf8-joined s = split_loop-joined (suc (length s)) s

pub split_utf8-fuel : (s : Bytes) → split_utf8 s ≢ err Error.out_of_fuel
unfolding split_utf8
split_utf8-fuel s = split_loop-fuel (suc (length s)) s (omega arith)
