-- ===== src/Text/Token.antt =====
-- The scan that `AhkParser::parse_replacement` and `SendInputCommand::parse_sequence` share: text up
-- to the next `{`, and a command up to the next `}`.
use ahk_unix.Base.{
  ◌<◌, ◌∷◌, ◌++◌, ◌≡◌, refl, ap, ◌∙◌, Option, none, some, arith, Bytes, length, ◌⊎◌, inl, inr,
}
use ahk_unix.Text.Find.{
  split_at, Lacks, split_at-eq-some, split_at-append, split_at-Lacks, length-split_at,
  Lacks-split_at,
}

pub data Scan : Type 0 where
  plain : Scan
  unterminated : Scan
  token : Bytes → Bytes → Bytes → Scan

-- `plain`: there is no `{`. `token before cmd next`: the texts between and behind the brackets.
unfoldable pub scan : Bytes → Scan
scan rest = elim (split_at b'{' rest) [
  | none ↦ plain
  | some (before, after) ↦ elim (split_at b'}' after) [
    | none ↦ unterminated
    | some (cmd, next) ↦ token before cmd next
  ]
]

-- What a scan says of the text.
abbrev pub Scanned : Bytes → Scan → Type 0
Scanned rest plain = Lacks b'{' rest
Scanned rest unterminated =
    (before after : Bytes) × (rest ≡ before ++ b'{' ∷ after) × Lacks b'{' before × Lacks b'}' after
Scanned rest (token before cmd next) =
    (rest ≡ before ++ b'{' ∷ (cmd ++ b'}' ∷ next))
    × Lacks b'{' before
    × Lacks b'}' cmd
    × (length next < length rest)

scan_after :
    (rest before after : Bytes)
    → split_at b'{' rest ≡ some (before, after)
    → Scanned rest (elim (split_at b'}' after) [
      | none ↦ unterminated
      | some (cmd, next) ↦ token before cmd next
    ])
scan_after rest before after e = go (split_at b'}' after) refl
  where
    opened : (rest ≡ before ++ b'{' ∷ after) × Lacks b'{' before
    opened = split_at-eq-some b'{' rest e

    go :
        (o : Option (Bytes × Bytes))
        → split_at b'}' after ≡ o
        → Scanned rest (elim o [ none ↦ unterminated | some (cmd, next) ↦ token before cmd next ])
    go none t = (before, after, opened.0, opened.1, Lacks-split_at b'}' after t)
    go (some (cmd, next)) t =
        let (split, lacks) = split_at-eq-some b'}' after t in
        (
          opened.0 ∙ ap (λ r. before ++ b'{' ∷ r) split,
          opened.1,
          lacks,
          omega (arith, length-split_at b'{' rest e, length-split_at b'}' after t),
        )

pub scan_lem : (rest : Bytes) → Scanned rest (scan rest)
unfolding scan
scan_lem rest = go (split_at b'{' rest) refl
  where
    go :
        (o : Option (Bytes × Bytes))
        → split_at b'{' rest ≡ o
        → Scanned rest (elim o [
          | none ↦ plain
          | some (before, after) ↦ elim (split_at b'}' after) [
            | none ↦ unterminated
            | some (cmd, next) ↦ token before cmd next
          ]
        ])
    go none e = Lacks-split_at b'{' rest e
    go (some (before, after)) e = scan_after rest before after e

pub scan_plain : (rest : Bytes) → Lacks b'{' rest → scan rest ≡ plain
unfolding scan
scan_plain rest h = ground (arith, split_at-Lacks b'{' rest h)

pub scan_token :
    (before cmd next : Bytes)
    → Lacks b'{' before
    → Lacks b'}' cmd
    → scan (before ++ b'{' ∷ (cmd ++ b'}' ∷ next)) ≡ token before cmd next
unfolding scan
scan_token before cmd next h k =
    ground
      (arith, split_at-append b'{' before (cmd ++ b'}' ∷ next) h, split_at-append b'}' cmd next k)

-- A text without a `}` and with a `{` is unterminated.
pub scan_unterminated :
    (before after : Bytes)
    → Lacks b'{' before
    → Lacks b'}' after
    → scan (before ++ b'{' ∷ after) ≡ unterminated
unfolding scan
scan_unterminated before after h k =
    ground (arith, split_at-append b'{' before after h, split_at-Lacks b'}' after k)

-- The scan of a text, with what it says.
pub scan_cases :
    (rest : Bytes)
    → ((scan rest ≡ plain) × Lacks b'{' rest)
      ⊎ (scan rest ≡ unterminated)
      ⊎ ((before cmd next : Bytes) × (scan rest ≡ token before cmd next)
          × (rest ≡ before ++ b'{' ∷ (cmd ++ b'}' ∷ next))
          × Lacks b'{' before
          × Lacks b'}' cmd
          × (length next < length rest))
scan_cases rest = go (scan rest) refl (scan_lem rest)
  where
    go :
        (s : Scan)
        → scan rest ≡ s
        → Scanned rest s
        → ((scan rest ≡ plain) × Lacks b'{' rest)
          ⊎ (scan rest ≡ unterminated)
          ⊎ ((before cmd next : Bytes) × (scan rest ≡ token before cmd next)
              × (rest ≡ before ++ b'{' ∷ (cmd ++ b'}' ∷ next))
              × Lacks b'{' before
              × Lacks b'}' cmd
              × (length next < length rest))
    go plain e h = inl (e, h)
    go unterminated e h = inr (inl e)
    go (token before cmd next) e h = inr (inr (before, cmd, next, e, h.0, h.1, h.2, h.3))
