-- ===== src/Fd/Tests.antt =====
-- A descriptor that is moved, assigned to its own object, and closed.
use ahk_unix.Base.{ℕ, [], ◌∷◌, ◌≡◌, refl, arith}
use ahk_unix.Base.Int.{pos}
use ahk_unix.Fd.{Descriptors, set, close, reset, construct, move_construct, move_assign, destroy}
use ahk_unix.Fd.Closed.{
  Ops, Tidy, New, no_op, then_op, constructs, moves, assigns, destroys, nothing_open,
}
use ahk_unix.Fd.Kept.{Kept, Given, Ops-Tidy-Kept}

abbrev last : Descriptors
last =
    destroy 0 (destroy 1 (move_assign 1 1 (move_construct 1 0 (construct 0 (pos 3) nothing_open))))

last-closed : last.closed ≡ 3 ∷ []
unfolding destroy move_assign move_construct construct reset set close
last-closed = refl

three-New : New (pos 3) nothing_open
three-New n e = ((λ o f. absurd (ground (arith, f))), λ m i. elim i [ ])

last-ops : Ops nothing_open last
unfolding construct set
last-ops =
    then_op
      (then_op
        (then_op (then_op (then_op no_op (constructs 0 (pos 3) refl three-New)) (moves 1 0 refl))
          (assigns 1 1))
        (destroys 1))
      (destroys 0)

Ops-Tidy-Kept_example : Tidy last × ((n : ℕ) → Given n nothing_open last last-ops → Kept n last)
Ops-Tidy-Kept_example = Ops-Tidy-Kept last last-ops
