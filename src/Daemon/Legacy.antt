-- ===== src/Daemon/Legacy.antt =====
-- A macro with a replacement and without commands, when no stop is requested: `execute_macro` and
-- `execute_legacy_replacement` of src/Daemon.cpp against one list of acts.
use ahk_unix.Base.{
  ℕ, zero, suc, Bool, false, List, [], ◌∷◌, ◌++◌, ◌≡◌, refl, sym, ap, ◌∙◌, subst, is_empty, length,
  replicate, if◌then◌else◌,
}
use ahk_unix.Base.Int.{ℤ, pos_part}
use ahk_unix.Keys.{key_backspace}
use ahk_unix.Command.{Commands, nil, cons}
use ahk_unix.Hotstring.{Hotstring}
use ahk_unix.Context.Run.{
  Act, tapped, pasted, waited, system, World, Machine, Ran, returned, thrown, act,
}
use ahk_unix.Context.Run as Run
use ahk_unix.Daemon.Job.{
  Job, Outcome, goes, device, unless_stopped, tail_loop, tail_keys_loop, execute_legacy_replacement,
  execute_commands, execute_body, execute_macro,
}
use ahk_unix.Daemon.Agree.{Alike, alike, Agrees, both_go, unless-Agrees, and_then-Agrees}
use ahk_unix.Daemon.Whole.{device-Agrees, tap_loop-Agrees}

-- A trigger of `n` keys erased, and the keys behind a replacement.
unfoldable pub erased : ℕ → List Act
erased zero = []
erased (suc n) = tapped key_backspace ∷ waited 8 ∷ erased n

unfoldable pub tails : List (ℕ × ℤ) → List Act
tails [] = []
tails ((key, count) ∷ keys) = replicate (pos_part count) (tapped key) ++ tails keys

-- What a sequence that may throw does next does not depend on how it is grouped.
and_then_assoc :
    (r : Ran) (f g : Machine → Ran)
    → Run.and_then (Run.and_then r f) g ≡ Run.and_then r (λ s. Run.and_then (f s) g)
unfolding Run.and_then
and_then_assoc (returned m) f g = refl
and_then_assoc (thrown e m) f g = refl

and_then-cong :
    (r : Ran) (f g : Machine → Ran)
    → ((s : Machine) → f s ≡ g s)
    → Run.and_then r f ≡ Run.and_then r g
unfolding Run.and_then
and_then-cong (returned m) f g h = h m
and_then-cong (thrown e m) f g h = refl

module _ (world : World) where
  -- A wait does not throw, a tap or a paste may.
  unfoldable pub perform : Act → Machine → Ran
  perform (waited n) m = returned (act (waited n) m)
  perform (system command) m = returned (act (system command) m)
  perform (tapped key) m = Run.device world (tapped key) m
  perform (pasted text) m = Run.device world (pasted text) m

  -- The acts in order, up to the first that throws.
  unfoldable pub do_all : List Act → Machine → Ran
  do_all [] m = returned m
  do_all (a ∷ acts) m = Run.and_then (perform a m) (do_all acts)

  do_all-append :
      (xs ys : List Act) (m : Machine)
      → do_all (xs ++ ys) m ≡ Run.and_then (do_all xs m) (do_all ys)
  unfolding do_all Run.and_then
  do_all-append [] ys m = refl
  do_all-append (a ∷ xs) ys m =
      and_then-cong (perform a m) _ _ (λ s. do_all-append xs ys s)
      ∙ sym (and_then_assoc (perform a m) (do_all xs) (do_all ys))

  tap_loop-erased :
      (n : ℕ) (m : Machine) → Run.tap_loop world key_backspace 8 n m ≡ do_all (erased n) m
  unfolding Run.tap_loop erased do_all perform Run.and_then
  tap_loop-erased zero m = refl
  tap_loop-erased (suc n) m =
      and_then-cong (Run.device world (tapped key_backspace) m) _ _
        (λ s. tap_loop-erased n (act (waited 8) s))

module _ (flag : ℕ → Bool) (world : World) (clear : (n : ℕ) → flag n ≡ false) where
  tail_loop-Agrees :
      (key count n : ℕ) (a m : Machine)
      → Alike a m
      → Agrees
          (tail_loop flag world key count (record { loads = n; machine = a }))
          (do_all world (replicate count (tapped key)) m)
  unfolding tail_loop device do_all perform
  tail_loop-Agrees key zero n a m same = both_go n same
  tail_loop-Agrees key (suc count) n a m same =
      unless-Agrees flag world clear _ (record { loads = n; machine = a }) _
        (and_then-Agrees flag world clear _ (Run.device world (tapped key) m)
          (tail_loop flag world key count) (do_all world (replicate count (tapped key)))
          (device-Agrees flag world clear (tapped key) (suc n) a m same)
          (λ k b s h. tail_loop-Agrees key count k b s h))

  tail_keys_loop-Agrees :
      (keys : List (ℕ × ℤ)) (n : ℕ) (a m : Machine)
      → Alike a m
      → Agrees
          (tail_keys_loop flag world keys (record { loads = n; machine = a }))
          (do_all world (tails keys) m)
  unfolding tail_keys_loop tails do_all
  tail_keys_loop-Agrees [] n a m same = both_go n same
  tail_keys_loop-Agrees ((key, count) ∷ keys) n a m same =
      let taps : List Act = replicate (pos_part count) (tapped key) in
      subst
        (λ r.
          Agrees
            (tail_keys_loop flag world ((key, count) ∷ keys) (record { loads = n; machine = a })) r)
        (sym (do_all-append world taps (tails keys) m))
        (and_then-Agrees flag world clear _ (do_all world taps m) (tail_keys_loop flag world keys)
          (do_all world (tails keys)) (tail_loop-Agrees key (pos_part count) n a m same)
          (λ k b s h. tail_keys_loop-Agrees keys k b s h))

  replacement-Agrees :
      (hs : Hotstring) (n : ℕ) (a m : Machine)
      → Alike a m
      → Agrees
          (execute_legacy_replacement flag world hs (record { loads = n; machine = a }))
          (do_all world (pasted hs.replacement_utf8 ∷ tails hs.tail_keys) m)
  unfolding execute_legacy_replacement device do_all perform
  replacement-Agrees hs n a m same =
      unless-Agrees flag world clear _ (record { loads = n; machine = a }) _
        (and_then-Agrees flag world clear _ (Run.device world (pasted hs.replacement_utf8) m)
          (tail_keys_loop flag world hs.tail_keys) (do_all world (tails hs.tail_keys))
          (device-Agrees flag world clear (pasted hs.replacement_utf8) (suc n) a m same)
          (λ k b s h. tail_keys_loop-Agrees hs.tail_keys k b s h))

execute_body-replacement :
    (flag : ℕ → Bool) (world : World) (hs : Hotstring) (j : Job)
    → hs.commands ≡ nil
    → is_empty hs.replacement_utf8 ≡ false
    → execute_body flag world hs j ≡ execute_legacy_replacement flag world hs j
unfolding execute_body
execute_body-replacement flag world hs j e f =
    ap turn e ∙ ap (λ b. if b then goes j else execute_legacy_replacement flag world hs j) f
  where
    turn : Commands → Outcome
    turn nil =
        if is_empty hs.replacement_utf8 then goes j else execute_legacy_replacement flag world hs j
    turn (cons first rest) = execute_commands flag world (cons first rest) j

-- No load of the stop flag reads true, and the hotstring has no commands and a replacement. Then its
-- macro does this list of acts in order, up to the first tap or paste that throws: a backspace and 8 ms
-- for each key of the trigger if it is erased, the replacement pasted, and each tail key tapped as often
-- as its count says, not at all for a count below 1. It ends with the same machine, or with the
-- exception of that tap or paste and nothing done behind it; a wait may be cut into several.
pub execute_macro-do_all :
    (flag : ℕ → Bool) (world : World) (hs : Hotstring) (n : ℕ) (m : Machine)
    → ((k : ℕ) → flag k ≡ false)
    → hs.commands ≡ nil
    → is_empty hs.replacement_utf8 ≡ false
    → Agrees (execute_macro flag world hs (record { loads = n; machine = m })) (
        do_all world
          (erased (if hs.erase_trigger then length hs.trigger_keys else 0)
            ++ pasted hs.replacement_utf8 ∷ tails hs.tail_keys)
          m)
unfolding execute_macro
execute_macro-do_all flag world hs n m clear e f =
    let erase : ℕ = if hs.erase_trigger then length hs.trigger_keys else 0 in
    let rest : List Act = pasted hs.replacement_utf8 ∷ tails hs.tail_keys in
    let job : Job = record { loads = n; machine = m } in
    subst (λ r. Agrees (execute_macro flag world hs job) r)
      (ap (λ r. Run.and_then r (do_all world rest)) (tap_loop-erased world erase m)
        ∙ sym (do_all-append world (erased erase) rest m))
      (and_then-Agrees flag world clear _ (Run.tap_loop world key_backspace 8 erase m)
        (unless_stopped flag world (execute_body flag world hs)) (do_all world rest)
        (tap_loop-Agrees flag world clear key_backspace 8 erase n m m (alike m.acts m.acts refl))
        (λ k b s h.
          unless-Agrees flag world clear (execute_body flag world hs)
            (record { loads = k; machine = b }) _
            (subst (λ o. Agrees o (do_all world rest s))
              (sym (execute_body-replacement flag world hs _ e f))
              (replacement-Agrees flag world clear hs (suc k) b s h))))
