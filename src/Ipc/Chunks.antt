-- ===== src/Ipc/Chunks.antt =====
-- How a request is read in pieces by `read_command` of src/daemon/IpcServer.cpp.
use ahk_unix.Base.{
  ◌+◌, ◌<◌, ◌≤◌, true, false, List, [], ◌∷◌, ◌++◌, ◌≡◌, refl, ap, ◌∙◌, ◌⊎◌, inl, inr, arith,
  append_assoc, ltb, lt→ltb, ltb→lt, Bytes, length, length-append, Result, ok, err, Bool-cases, map,
}
use ahk_unix.Text.Find.{Lacks}
use ahk_unix.Ipc.Transport.{
  Poll, Read, received, closed, interrupted, would_block, failed, Next, go_on, finish, has_newline,
  after_poll, after_read, read_loop, read_command,
}

abbrev pub join : List Bytes → Bytes
join [] = []
join (part ∷ parts) = part ++ join parts

-- A text that begins like a line with its newline holds no newline yet, or is the whole line.
line_prefix :
    (a b line : Bytes)
    → Lacks b'\n' line
    → a ++ b ≡ line ++ b'\n' ∷ []
    → ((has_newline a ≡ false) × (length a ≤ length line))
      ⊎ ((has_newline a ≡ true) × (a ≡ line ++ b'\n' ∷ []))
unfolding has_newline
line_prefix [] b line h e = inl (refl, omega arith)
line_prefix (x ∷ []) b [] h e = inr (ground (arith, e), ground (arith, e))
line_prefix (x ∷ z ∷ a) b [] h e = absurd (ground (arith, e))
line_prefix (x ∷ a) b (y ∷ line) h e =
    let same : x ≡ y = cc in
    let tails : a ++ b ≡ line ++ b'\n' ∷ [] = cc in
    elim (line_prefix a b line h.1 tails) [
      | inl (p, q) ↦ inl (ground (arith, h.0, p, same), omega (arith, q))
      | inr (p, q) ↦ inr (ground (arith, p), cc)
    ]

read_loop-parts :
    (parts : List Bytes) (rest : List Read) (acc line : Bytes)
    → Lacks b'\n' line
    → length line < 4096
    → has_newline acc ≡ false
    → acc ++ join parts ≡ line ++ b'\n' ∷ []
    → read_loop (map received parts ++ rest) acc ≡ ok (line ++ b'\n' ∷ [])
unfolding read_loop after_read
read_loop-parts [] rest acc line h small no_newline e = elim (line_prefix acc [] line h e) [
  | inr (p, q) ↦ absurd (ground (arith, p, no_newline))
  | inl (p, short) ↦ absurd (
      omega
        (arith, short, length-append acc [], length-append line (b'\n' ∷ []), ap (λ s. length s) e))
]
read_loop-parts (part ∷ parts) rest acc line h small no_newline e =
    let whole : (acc ++ part) ++ join parts ≡ line ++ b'\n' ∷ [] =
      append_assoc acc part (join parts) ∙ e in
    elim (line_prefix acc (part ++ join parts) line h e) [
      | inr (p, q) ↦ absurd (ground (arith, p, no_newline))
      | inl (p, short) ↦
          rw (lt→ltb (length acc) 4096 (omega arith), read_loop)
            (elim (line_prefix (acc ++ part) (join parts) line h whole) [
              | inl (k, _) ↦
                  rw (k, after_read, read_loop)
                    (read_loop-parts parts rest (acc ++ part) line h small k whole)
              | inr (k, q) ↦ rw (k, after_read, read_loop) (ap ok q)
            ])
    ]

-- A request of one line of less than 4096 bytes is read whole, however the stream cuts it in pieces, as
-- long as every piece has arrived when it is read.
pub read_command-parts :
    (parts : List Bytes) (rest : List Read) (line : Bytes)
    → Lacks b'\n' line
    → length line < 4096
    → join parts ≡ line ++ b'\n' ∷ []
    → read_command (map received parts ++ rest) ≡ ok (line ++ b'\n' ∷ [])
unfolding read_command has_newline
read_command-parts parts rest line h small e = read_loop-parts parts rest [] line h small refl e

-- `read` fills a buffer of 256 bytes.
abbrev pub Filled : Read → Type 0
Filled (received bytes) = length bytes ≤ 256
Filled _ = Unit

abbrev pub AllFilled : List Read → Type 0
AllFilled [] = Unit
AllFilled (read ∷ reads) = Filled read × AllFilled reads

-- The text with which a round goes on or ends.
abbrev command_of : Next → Bytes
command_of (go_on command) = command
command_of (finish (ok command)) = command
command_of (finish (err e)) = []

length-after_poll :
    (poll : Poll) (acc : Bytes) → length (command_of (after_poll poll acc)) ≤ length acc
unfolding after_poll
length-after_poll Poll.ready acc = omega arith
length-after_poll Poll.timed_out acc = omega arith
length-after_poll Poll.poll_interrupted acc = omega arith
length-after_poll Poll.poll_failed acc = omega arith

length-after_read :
    (read : Read) (acc : Bytes)
    → Filled read
    → length (command_of (after_read read acc)) ≤ length acc + 256
unfolding after_read
length-after_read (received bytes) acc h = elim (Bool-cases (has_newline (acc ++ bytes))) [
  | inl e ↦ rw e (omega (arith, length-append acc bytes, h))
  | inr e ↦ rw e (omega (arith, length-append acc bytes, h))
]
length-after_read closed acc h = omega arith
length-after_read interrupted acc h = omega arith
length-after_read (would_block poll) [] h = omega (arith, length-after_poll poll [])
length-after_read (would_block poll) (c ∷ acc) h = omega arith
length-after_read failed acc h = omega arith

Next-cases :
    (next : Next) → ((r : Result Bytes) × (next ≡ finish r)) ⊎ ((c : Bytes) × (next ≡ go_on c))
Next-cases (finish r) = inl (r, refl)
Next-cases (go_on c) = inr (c, refl)

read_loop-bound :
    (reads : List Read) (acc : Bytes) {command : Bytes}
    → AllFilled reads
    → length acc < 4352
    → read_loop reads acc ≡ ok command
    → length command < 4352
unfolding read_loop
read_loop-bound [] acc h small e = ground (arith, small, e)
read_loop-bound (read ∷ reads) acc {command} h small e = elim (Bool-cases (ltb (length acc) 4096)) [
  | inr over ↦ ground (arith, small, rw (over, read_loop) at e)
  | inl under ↦
      let step : length (command_of (after_read read acc)) < 4352 =
        let k = length-after_read read acc h.0 in
        let u : length acc < 4096 = ltb→lt (length acc) 4096 under in omega (arith, k, u) in
      let e' = rw (under, read_loop) at e in
      elim (Next-cases (after_read read acc)) [
        | inl (r, k) ↦ let done : r ≡ ok command = rw (k, read_loop) at e' in rw (k, done) at step
        | inr (c, k) ↦ read_loop-bound reads c h.1 (rw k at step) (rw (k, read_loop) at e')
      ]
]

-- If each `read` returns at most 256 bytes, a request that is read has less than 4096 + 256 bytes.
pub read_command-bound :
    (reads : List Read) {command : Bytes}
    → AllFilled reads
    → read_command reads ≡ ok command
    → length command < 4096 + 256
unfolding read_command
read_command-bound reads h e = read_loop-bound reads [] h (omega arith) e
