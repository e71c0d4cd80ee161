-- ===== src/Ring.antt =====
-- src/RingBuffer.cpp: the last keys pressed, and the test whether they end with a trigger.
pub mod History
mod Tests
use ahk_unix.Base.{
  ℕ, zero, suc, ◌+◌, ◌-◌, Bool, true, false, List, [], ◌∷◌, ◌++◌, ltb, ◌==◌, if◌then◌else◌, length,
  get_or,
}

pub record RingBuffer : Type 0 where
  pub capacity : ℕ
  pub keys : List ℕ

-- `RingBuffer::RingBuffer`
abbrev pub with_capacity : ℕ → RingBuffer
with_capacity capacity = record { capacity = capacity; keys = [] }

unfoldable pub pop_front : List ℕ → List ℕ
pop_front [] = []
pop_front (k ∷ ks) = ks

unfoldable pub push : RingBuffer → ℕ → RingBuffer
unfolding pop_front
push r key_code =
    let kept = if length r.keys == r.capacity then pop_front r.keys else r.keys in
    record r { keys = kept ++ key_code ∷ [] }

-- `for (i = 0; ...) if (keys_[offset + i] != sequence[i]) return false;` from index `k` on
unfoldable pub all_equal : List ℕ → ℕ → List ℕ → Bool
all_equal keys k [] = true
all_equal keys k (x ∷ sequence) =
    let rest = all_equal keys (k + 1) sequence in if get_or keys k 0 == x then rest else false

unfoldable pub ends_with : RingBuffer → List ℕ → Bool
unfolding all_equal
ends_with r sequence =
    let offset = length r.keys - length sequence in
    if ltb (length r.keys) (length sequence) then false else all_equal r.keys offset sequence

unfoldable pub clear : RingBuffer → RingBuffer
clear r = record r { keys = [] }
