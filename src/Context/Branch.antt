-- ===== src/Context/Branch.antt =====
-- Which branch of an `If` runs (src/commands/IfCommand.cpp), and an `If` behind a `Random`.
use ahk_unix.Base.{
  Bool, true, false, Option, none, ◌∷◌, ◌++◌, ◌≡◌, refl, ap, ◌∙◌, arith, Bytes, Result, ok, err,
  if◌then◌else◌,
}
use ahk_unix.Base.Int.{ℤ, IsInt, ◌≤ℤ◌, ltb_ℤ}
use ahk_unix.Text.Chars.{equal_iff}
use ahk_unix.Text.Number.{to_string}
use ahk_unix.Command.{random_assign, if_command, Commands, cons}
use ahk_unix.Context.{get_variable}
use ahk_unix.Context.Condition.{Op, at_least, compare_with, ordered_draw, evaluate_condition}
use ahk_unix.Context.Effects as Effects
use ahk_unix.Context.Bounds.{get_variable-set_variable}
use ahk_unix.Context.Written.{
  IsName, op_text, condition_text, match_random_condition-name, evaluate_condition-text,
}
use ahk_unix.Context.Run.{World, Machine, Ran, thrown, drew, and_then, execute, execute_list}
use ahk_unix.Context.Run as Run

module _ (world : World) where
  -- A condition `name op number` on the variable chooses the branch.
  pub execute-if_command :
      (name : Bytes) (op : Op) (v : ℤ) (yes_branch no_branch : Commands) (m : Machine)
      → IsName name
      → IsInt v
      → execute world (if_command (condition_text name op v) yes_branch no_branch) m ≡ (
          if compare_with op (get_variable m.ctx name) v
          then execute_list world yes_branch m
          else execute_list world no_branch m)
  unfolding execute Run.drew_for
  execute-if_command name op v yes_branch no_branch m h k =
      let text : Bytes = condition_text name op v in
      ap (λ o. branch o (evaluate_condition (world.draw m.draws) m.ctx text))
        (match_random_condition-name name (op_text op ++ b' ' ∷ to_string v) h)
      ∙ ap (branch none) (evaluate_condition-text (world.draw m.draws) m.ctx name op v h k)
      ∙ choose (compare_with op (get_variable m.ctx name) v)
    where
      branch : Option (Bytes × Bytes × Op × Bytes) → Result Bool → Ran
      branch o (ok true) = execute_list world yes_branch (Run.drew_for o m)
      branch o (ok false) = execute_list world no_branch (Run.drew_for o m)
      branch o (err e) = thrown e (Run.drew_for o m)

      choose :
          (b : Bool)
          → branch none (ok b)
            ≡ (if b then execute_list world yes_branch m else execute_list world no_branch m)
      choose true = refl
      choose false = refl

  -- The context behind `Random, name, lo, hi`.
  abbrev pub drawn : Bytes → ℤ → ℤ → Machine → Machine
  drawn name lo hi m = record (drew m) {
    ctx = Effects.random_assign (world.draw m.draws) name lo hi m.ctx;
  }

  get_variable-drawn :
      (name : Bytes) (lo hi : ℤ) (m : Machine)
      → get_variable (drawn name lo hi m).ctx name ≡ ordered_draw (world.draw m.draws) lo hi
  unfolding Effects.random_assign
  get_variable-drawn name lo hi m =
      get_variable-set_variable m.ctx name name (ordered_draw (world.draw m.draws) lo hi)
      ∙ ap (λ b. if b then ordered_draw (world.draw m.draws) lo hi else get_variable m.ctx name)
          ((equal_iff name name).1 refl)

  ordered_draw-at_least :
      (draw : ℤ → ℤ → ℤ) (lo hi : ℤ)
      → lo ≤ℤ hi
      → lo ≤ℤ draw lo hi
      → compare_with at_least (ordered_draw draw lo hi) lo ≡ true
  unfolding compare_with ordered_draw
  ordered_draw-at_least draw lo hi h k =
      let in_order : ltb_ℤ hi lo ≡ false = ground (arith, h) in
      rw (in_order, compare_with) (ground (arith, k))

  -- Behind a `Random` between two ints in order, an `If` that tests the lower bound runs its first
  -- branch, in the context with the variable set, and then what follows; the draw is not below its bound.
  pub execute_list-random_assign :
      (name : Bytes) (lo hi : ℤ) (yes_branch no_branch rest : Commands) (m : Machine)
      → IsName name
      → IsInt lo
      → lo ≤ℤ hi
      → lo ≤ℤ world.draw m.draws lo hi
      → execute_list world
          (cons
            (random_assign name lo hi)
            (cons (if_command (condition_text name at_least lo) yes_branch no_branch) rest))
          m
        ≡ and_then (execute_list world yes_branch (drawn name lo hi m)) (execute_list world rest)
  unfolding execute_list execute and_then
  execute_list-random_assign name lo hi yes_branch no_branch rest m h k order bound =
      let m' = drawn name lo hi m in
      let holds : compare_with at_least (get_variable m'.ctx name) lo ≡ true =
        ap (λ v. compare_with at_least v lo) (get_variable-drawn name lo hi m)
        ∙ ordered_draw-at_least (world.draw m.draws) lo hi order bound in
      ap (λ r. and_then r (execute_list world rest))
        (execute-if_command name at_least lo yes_branch no_branch m' h k
          ∙ ap
              (λ b. if b then execute_list world yes_branch m' else execute_list world no_branch m')
              holds)
