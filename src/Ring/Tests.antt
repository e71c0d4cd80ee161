-- ===== src/Ring/Tests.antt =====
-- Examples of the ring buffer.
use ahk_unix.Base.{ℕ, List, [], ◌∷◌, true, ◌≡◌, ◌↔◌, arith}
use ahk_unix.Ring.{ends_with}
use ahk_unix.Ring.History.{EndsWith, seen, ends_with-seen}

abbrev typed : List ℕ
typed = 1 ∷ 2 ∷ 3 ∷ 4 ∷ []

ends_with-seen_example :
    (ends_with (seen 3 typed) (3 ∷ 4 ∷ []) ≡ true) ↔ EndsWith typed (3 ∷ 4 ∷ [])
ends_with-seen_example = ends_with-seen 3 typed (3 ∷ 4 ∷ []) (omega arith) (omega arith)
