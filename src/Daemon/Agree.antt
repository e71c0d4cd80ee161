-- ===== src/Daemon/Agree.antt =====
-- What a job does when no stop is requested, against the commands run to their end.
use ahk_unix.Base.{
  ℕ, zero, suc, ◌+◌, ◌-◌, ◌≤◌, Bool, false, List, [], ◌∷◌, ◌++◌, ◌≡◌, inl, inr, refl, sym, ap,
  subst, ◌∙◌, arith, Bool-cases, ◌==◌, min, replicate, append_assoc, append-nil, Bytes, Error,
}
use ahk_unix.Context.{Context}
use ahk_unix.Context.Run.{World}
use ahk_unix.Context.Run.{Act, tapped, pasted, waited, system, Machine, Ran, returned, thrown, act}
use ahk_unix.Context.Run as Run
use ahk_unix.Daemon.Job.{
  Job, Outcome, goes, throws, loaded, and_then, ended, unless_stopped, wait_loop,
}

-- The acts with each wait as waits of a millisecond.
unfoldable pub by_millisecond : List Act → List Act
by_millisecond [] = []
by_millisecond (waited n ∷ acts) = replicate n (waited 1) ++ by_millisecond acts
by_millisecond (tapped key ∷ acts) = tapped key ∷ by_millisecond acts
by_millisecond (pasted text ∷ acts) = pasted text ∷ by_millisecond acts
by_millisecond (system command ∷ acts) = system command ∷ by_millisecond acts

by_millisecond-append :
    (xs ys : List Act) → by_millisecond (xs ++ ys) ≡ by_millisecond xs ++ by_millisecond ys
unfolding by_millisecond
by_millisecond-append [] ys = refl
by_millisecond-append (waited n ∷ xs) ys =
    ap (λ zs. replicate n (waited 1) ++ zs) (by_millisecond-append xs ys)
    ∙ sym (append_assoc (replicate n (waited 1)) (by_millisecond xs) (by_millisecond ys))
by_millisecond-append (tapped key ∷ xs) ys =
    ap (λ zs. tapped key ∷ zs) (by_millisecond-append xs ys)
by_millisecond-append (pasted text ∷ xs) ys =
    ap (λ zs. pasted text ∷ zs) (by_millisecond-append xs ys)
by_millisecond-append (system command ∷ xs) ys =
    ap (λ zs. system command ∷ zs) (by_millisecond-append xs ys)

replicate-add : (m n : ℕ) (a : Act) → replicate (m + n) a ≡ replicate m a ++ replicate n a
replicate-add zero n a =
    let none_more : 0 + n ≡ n = omega arith in ap (λ k. replicate k a) none_more
replicate-add (suc m) n a =
    let one_more : suc m + n ≡ suc (m + n) = omega arith in
    ap (λ k. replicate k a) one_more ∙ ap (λ xs. a ∷ xs) (replicate-add m n a)

-- The same variables and files, and the same acts up to the lengths of the waits.
pub data Alike : Machine → Machine → Type 0 where
  alike :
      {ctx : Context} {files : List (Bytes × Bytes)} {draws calls : ℕ} (done acts : List Act)
      → by_millisecond done ≡ by_millisecond acts
      → Alike
          (record { ctx = ctx; files = files; acts = done; draws = draws; calls = calls })
          (record { ctx = ctx; files = files; acts = acts; draws = draws; calls = calls })

pub data Agrees : Outcome → Ran → Type 0 where
  both_go :
      (n : ℕ) {a m : Machine}
      → Alike a m
      → Agrees (goes (record { loads = n; machine = a })) (returned m)
  both_throw :
      (n : ℕ) (e : Error) {a m : Machine}
      → Alike a m
      → Agrees (throws e (record { loads = n; machine = a })) (thrown e m)

-- The same act on both sides.
pub act-Alike : (a : Act) {x y : Machine} → Alike x y → Alike (act a x) (act a y)
act-Alike a (alike done acts e) = alike (done ++ (a ∷ [])) (acts ++ (a ∷ [])) (
    by_millisecond-append done (a ∷ [])
    ∙ ap (λ xs. xs ++ by_millisecond (a ∷ [])) e
    ∙ sym (by_millisecond-append acts (a ∷ [])))

no_wait-Alike : {x y : Machine} → Alike x y → Alike x (act (waited 0) y)
unfolding by_millisecond
no_wait-Alike (alike done acts e) =
    alike done (acts ++ (waited 0 ∷ []))
      (e ∙ sym (by_millisecond-append acts (waited 0 ∷ []) ∙ append-nil (by_millisecond acts)))

Alike-trans : {x y z : Machine} → Alike x y → Alike y z → Alike x z
Alike-trans (alike done acts e) (alike _ more f) = alike done more (e ∙ f)

-- Two waits are one.
waits-Alike :
    (m n : ℕ) (y : Machine) → Alike (act (waited n) (act (waited m) y)) (act (waited (m + n)) y)
unfolding by_millisecond
waits-Alike m n y =
    let first : List Act = replicate m (waited 1) in
    let second : List Act = replicate n (waited 1) in
    let both : List Act = (y.acts ++ (waited m ∷ [])) ++ (waited n ∷ []) in
    alike both (y.acts ++ (waited (m + n) ∷ [])) (
      by_millisecond-append (y.acts ++ (waited m ∷ [])) (waited n ∷ [])
      ∙ ap (λ xs. xs ++ (replicate n (waited 1) ++ []))
          (by_millisecond-append y.acts (waited m ∷ []))
      ∙ append_assoc (by_millisecond y.acts) (first ++ []) (second ++ [])
      ∙ ap (λ xs. by_millisecond y.acts ++ xs)
          (ap (λ xs. xs ++ (second ++ [])) (append-nil first)
            ∙ sym (append_assoc first second [])
            ∙ ap (λ xs. xs ++ []) (sym (replicate-add m n (waited 1))))
      ∙ sym (by_millisecond-append y.acts (waited (m + n) ∷ [])))

-- Each load of the flag reads false.
module _ (flag : ℕ → Bool) (world : World) (clear : (n : ℕ) → flag n ≡ false) where
  pub unless-clear :
      (rest : Job → Outcome) (j : Job) → unless_stopped flag world rest j ≡ rest (loaded j)
  unfolding unless_stopped
  unless-clear rest j = rw (clear j.loads, unless_stopped) refl

  pub unless-Agrees :
      (rest : Job → Outcome) (j : Job) (ran : Ran)
      → Agrees (rest (loaded j)) ran
      → Agrees (unless_stopped flag world rest j) ran
  unless-Agrees rest j ran a = subst (λ o. Agrees o ran) (sym (unless-clear rest j)) a

  -- What follows agrees behind machines that are alike.
  abbrev pub Follows : (Job → Outcome) → (Machine → Ran) → Type 0
  Follows next next_run =
      (n : ℕ) (a m : Machine)
      → Alike a m
      → Agrees (next (record { loads = n; machine = a })) (next_run m)

  pub and_then-Agrees :
      (o : Outcome) (ran : Ran) (next : Job → Outcome) (next_run : Machine → Ran)
      → Agrees o ran
      → Follows next next_run
      → Agrees (and_then o next) (Run.and_then ran next_run)
  unfolding and_then Run.and_then
  and_then-Agrees _ _ next next_run (both_go n {a} {m} same) follows = follows n a m same
  and_then-Agrees _ _ next next_run (both_throw n e same) follows = both_throw n e same

  pub ended-Agrees : (o : Outcome) (ran : Ran) → Agrees o ran → Agrees (ended o) ran
  unfolding ended
  ended-Agrees _ _ (both_go n same) = both_go n same
  ended-Agrees _ _ (both_throw n e same) = both_throw n e same

  then_wait-Agrees :
      (o : Outcome) (first rest remaining : ℕ) (m : Machine)
      → first + rest ≡ remaining
      → Agrees o (returned (act (waited rest) (act (waited first) m)))
      → Agrees o (returned (act (waited remaining) m))
  then_wait-Agrees _ first rest remaining m sum (both_go n same) = both_go n (
      Alike-trans same (
        subst (λ k. Alike (act (waited rest) (act (waited first) m)) (act (waited k) m)) sum
          (waits-Alike first rest m)))

  -- The slices of a wait are the wait.
  pub wait_loop-Agrees :
      (after : Job → Outcome)
      → Follows after returned
      → (f remaining n : ℕ) (a m : Machine) → remaining ≤ f
      → Alike a m
      → Agrees
          (wait_loop flag world after f remaining (record { loads = n; machine = a }))
          (returned (act (waited remaining) m))
  unfolding wait_loop
  wait_loop-Agrees after follows zero remaining n a m h same =
      let none_left : 0 ≡ remaining = omega arith in
      follows n a (act (waited remaining) m)
        (subst (λ k. Alike a (act (waited k) m)) none_left (no_wait-Alike same))
  wait_loop-Agrees after follows (suc f) remaining n a m h same =
      elim (Bool-cases (remaining == 0)) [
        | inl e ↦
            let none_left : 0 ≡ remaining = ground (arith, e) in
            rw (e, wait_loop)
              (follows n a (act (waited remaining) m)
                (subst (λ k. Alike a (act (waited k) m)) none_left (no_wait-Alike same)))
        | inr e ↦
            let slice : ℕ = min remaining 10 in
            let bound : remaining - slice ≤ f = ground (arith, e, h) in
            let sum : slice + (remaining - slice) ≡ remaining = omega arith in
            rw (e, wait_loop)
              (unless-Agrees _ (record { loads = n; machine = a }) _
                (then_wait-Agrees _ slice (remaining - slice) remaining m sum (
                  wait_loop-Agrees after follows f (remaining - slice) (suc n)
                    (act (waited slice) a) (act (waited slice) m) bound
                    (act-Alike (waited slice) same))))
      ]
