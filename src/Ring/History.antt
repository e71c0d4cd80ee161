-- ===== src/Ring/History.antt =====
-- The ring buffer against the whole history of keys since it was last empty.
use ahk_unix.Base.{
  ℕ, zero, suc, ◌+◌, ◌-◌, ◌≤◌, ◌<◌, true, false, List, [], ◌∷◌, ◌++◌, ltb, length, get_or, ◌≡◌, ◌↔◌,
  refl, sym, ap, ◌∙◌, arith, drop, take, drop-drop, drop-append, drop-append_length,
  take-append-drop, length-append, length-drop, append_assoc, Bool-cases, ltb→lt, append-nil, inl,
  inr, min,
}
use ahk_unix.Ring.{RingBuffer, with_capacity, pop_front, push, all_equal, ends_with}

-- The last `n` entries.
abbrev pub last_n : ℕ → List ℕ → List ℕ
last_n n xs = drop (length xs - n) xs

-- The keys pressed one after another.
unfoldable pub push_all : RingBuffer → List ℕ → RingBuffer
push_all r [] = r
push_all r (k ∷ ks) = push_all (push r k) ks

-- `sequence` is the end of the history.
abbrev pub EndsWith : List ℕ → List ℕ → Type 0
EndsWith history sequence = (before : List ℕ) × (history ≡ before ++ sequence)

pop_front-drop : (n : ℕ) (xs : List ℕ) → pop_front (drop n xs) ≡ drop (suc n) xs
unfolding pop_front
pop_front-drop zero [] = refl
pop_front-drop zero (x ∷ xs) = refl
pop_front-drop (suc n) [] = refl
pop_front-drop (suc n) (x ∷ xs) = pop_front-drop n xs

length-last_n : (n : ℕ) (xs : List ℕ) → length (last_n n xs) ≡ min n (length xs)
length-last_n n xs = omega (arith, length-drop (length xs - n) xs)

push_room :
    (r : RingBuffer) (k : ℕ) → length r.keys < r.capacity → (push r k).keys ≡ r.keys ++ k ∷ []
unfolding push
push_room r k h = ground arith

push_full :
    (r : RingBuffer) (k : ℕ)
    → length r.keys ≡ r.capacity
    → (push r k).keys ≡ pop_front r.keys ++ k ∷ []
unfolding push
push_full r k h = ground arith

-- The last `c` entries, after one more entry.
last_n-concat :
    (c m : ℕ) (history : List ℕ) (k : ℕ)
    → m ≡ length history + 1 - c
    → m ≤ length history
    → last_n c (history ++ k ∷ []) ≡ drop m history ++ k ∷ []
last_n-concat c m history k e h =
    let grown = length-append history (k ∷ []) in
    let e' : length (history ++ k ∷ []) - c ≡ m = omega arith in
    ap (λ n. drop n (history ++ k ∷ [])) e' ∙ drop-append m history (k ∷ []) h

push-last_n :
    (r : RingBuffer) (history : List ℕ) (k : ℕ)
    → 0 < r.capacity
    → r.keys ≡ last_n r.capacity history
    → (push r k).keys ≡ last_n r.capacity (history ++ k ∷ [])
push-last_n r history k h e =
    let size : length r.keys ≡ min r.capacity (length history) =
      ap length e ∙ length-last_n r.capacity history in
    elim (Bool-cases (ltb (length history) r.capacity)) [
      | inl few ↦
          let small : length history < r.capacity = ltb→lt _ _ few in
          push_room r k (omega arith)
          ∙ ap (λ ks. ks ++ k ∷ []) (e ∙ ap (λ n. drop n history) {y = 0} (omega arith))
          ∙ sym (last_n-concat r.capacity 0 history k (omega arith) (omega arith))
      | inr full ↦
          let large : r.capacity ≤ length history = ground arith in
          push_full r k (omega arith)
          ∙ ap (λ ks. pop_front ks ++ k ∷ []) e
          ∙ ap (λ ks. ks ++ k ∷ []) (pop_front-drop _ history)
          ∙ sym (
              last_n-concat r.capacity (suc (length history - r.capacity)) history k (omega arith)
                (omega arith))
    ]

capacity-push : (r : RingBuffer) (k : ℕ) → (push r k).capacity ≡ r.capacity
unfolding push
capacity-push r k = refl

push_all-last_n :
    (ks : List ℕ) (r : RingBuffer) (history : List ℕ)
    → 0 < r.capacity
    → r.keys ≡ last_n r.capacity history
    → (push_all r ks).keys ≡ last_n r.capacity (history ++ ks)
unfolding push_all
push_all-last_n [] r history h e = e ∙ ap (last_n r.capacity) (sym (append-nil history))
push_all-last_n (k ∷ ks) r history h e =
    push_all-last_n ks (push r k) (history ++ k ∷ []) (rw (capacity-push r k) h) (
      push-last_n r history k h e
      ∙ ap (λ c. last_n c (history ++ k ∷ [])) (sym (capacity-push r k)))
    ∙ ap (λ c. last_n c ((history ++ k ∷ []) ++ ks)) (capacity-push r k)
    ∙ ap (last_n r.capacity) (append_assoc history (k ∷ []) ks)

drop-get_or :
    (keys : List ℕ) (k : ℕ) → k < length keys → drop k keys ≡ get_or keys k 0 ∷ drop (suc k) keys
drop-get_or [] k h = elim h [ ]
drop-get_or (x ∷ keys) zero h = refl
drop-get_or (x ∷ keys) (suc k) h = drop-get_or keys k (omega arith)

drop_all : (k : ℕ) (keys : List ℕ) → length keys ≤ k → drop k keys ≡ []
drop_all zero [] h = refl
drop_all zero (x ∷ keys) h = absurd (omega arith)
drop_all (suc k) [] h = refl
drop_all (suc k) (x ∷ keys) h = drop_all k keys (omega arith)

all_equal-drop :
    (sequence keys : List ℕ) (k : ℕ)
    → k + length sequence ≡ length keys
    → (all_equal keys k sequence ≡ true) ↔ (drop k keys ≡ sequence)
unfolding all_equal
all_equal-drop [] keys k h = (λ _. drop_all k keys (omega arith), λ _. refl)
all_equal-drop (x ∷ sequence) keys k h =
    let first = drop-get_or keys k (omega arith) in
    let next : drop (k + 1) keys ≡ drop (suc k) keys =
      ap (λ n. drop n keys) {y = suc k} (omega arith) in
    ground (arith, first, next, all_equal-drop sequence keys (k + 1))

-- The test holds exactly if the buffer's keys end with the sequence.
ends_with-iff-drop :
    (r : RingBuffer) (sequence : List ℕ)
    → length sequence ≤ length r.keys
    → (ends_with r sequence ≡ true) ↔ (drop (length r.keys - length sequence) r.keys ≡ sequence)
unfolding ends_with
ends_with-iff-drop r sequence h =
    let (to, from) =
      all_equal-drop sequence r.keys (length r.keys - length sequence) (omega arith) in
    (λ e. to (ground arith), λ e. ground (arith, from e))

ends_with_short :
    (r : RingBuffer) (sequence : List ℕ)
    → length r.keys < length sequence
    → ends_with r sequence ≡ false
unfolding ends_with
ends_with_short r sequence h = ground arith

EndsWith-iff-drop :
    (history sequence : List ℕ)
    → EndsWith history sequence ↔ (
        (length sequence ≤ length history)
        × (drop (length history - length sequence) history ≡ sequence))
EndsWith-iff-drop history sequence = (to, from)
  where
    to :
        EndsWith history sequence
        → (length sequence ≤ length history)
          × (drop (length history - length sequence) history ≡ sequence)
    to (before, e) =
        let size = ap length e ∙ length-append before sequence in
        let at : length history - length sequence ≡ length before = omega arith in
        (
          omega arith,
          ap (λ n. drop n history) at
              ∙ ap (drop (length before)) e
              ∙ drop-append_length before sequence,
        )

    from :
        (length sequence ≤ length history)
          × (drop (length history - length sequence) history ≡ sequence)
        → EndsWith history sequence
    from (h, e) =
        let n = length history - length sequence in
        (take n history, sym (take-append-drop n history) ∙ ap (λ xs. take n history ++ xs) e)

-- The buffer that has seen `history` since it was empty.
abbrev pub seen : ℕ → List ℕ → RingBuffer
seen capacity history = push_all (with_capacity capacity) history

pub capacity-push_all : (ks : List ℕ) (r : RingBuffer) → (push_all r ks).capacity ≡ r.capacity
unfolding push_all
capacity-push_all [] r = refl
capacity-push_all (k ∷ ks) r = capacity-push_all ks (push r k) ∙ capacity-push r k

pub keys-seen :
    (capacity : ℕ) (history : List ℕ)
    → 0 < capacity
    → (seen capacity history).keys ≡ last_n capacity history
keys-seen capacity history h =
    push_all-last_n history (with_capacity capacity) [] h (sym (drop_all _ [] (omega arith)))

length-keys-seen :
    (capacity : ℕ) (history : List ℕ)
    → 0 < capacity
    → length (seen capacity history).keys ≡ min capacity (length history)
length-keys-seen capacity history h =
    ap length (keys-seen capacity history h) ∙ length-last_n capacity history

-- The end of the buffer is the end of the history.
drop-keys-seen :
    (capacity : ℕ) (history sequence : List ℕ)
    → 0 < capacity
    → length sequence ≤ capacity
    → length sequence ≤ length history
    → let keys = (seen capacity history).keys in
      drop (length keys - length sequence) keys ≡ drop (length history - length sequence) history
drop-keys-seen capacity history sequence h fits short =
    let keys = (seen capacity history).keys in
    let size = length-keys-seen capacity history h in
    ap (drop (length keys - length sequence)) (keys-seen capacity history h)
    ∙ drop-drop (length keys - length sequence) (length history - capacity)
        (length history - length sequence) history (omega arith)

-- A buffer of positive capacity that was empty and then saw the keys of `history` ends with a
-- sequence no longer than its capacity exactly if the whole history does.
pub ends_with-seen :
    (capacity : ℕ) (history sequence : List ℕ)
    → 0 < capacity
    → length sequence ≤ capacity
    → (ends_with (seen capacity history) sequence ≡ true) ↔ EndsWith history sequence
ends_with-seen capacity history sequence h fits = (to, from)
  where
    size : length (seen capacity history).keys ≡ min capacity (length history)
    size = length-keys-seen capacity history h

    short :
        ends_with (seen capacity history) sequence ≡ true
        → length sequence ≤ length (seen capacity history).keys
    short e = grind (arith, ends_with_short (seen capacity history) sequence)

    to : ends_with (seen capacity history) sequence ≡ true → EndsWith history sequence
    to e =
        let in_keys = short e in
        let in_history : length sequence ≤ length history = omega (arith, size) in
        (EndsWith-iff-drop history sequence).1 (
          in_history,
          sym (drop-keys-seen capacity history sequence h fits in_history)
              ∙ (ends_with-iff-drop (seen capacity history) sequence in_keys).0 e,
        )

    from : EndsWith history sequence → ends_with (seen capacity history) sequence ≡ true
    from ended =
        let (in_history, e) = (EndsWith-iff-drop history sequence).0 ended in
        (ends_with-iff-drop (seen capacity history) sequence (omega (arith, size))).1
          (drop-keys-seen capacity history sequence h fits in_history ∙ e)
