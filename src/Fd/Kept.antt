-- ===== src/Fd/Kept.antt =====
-- No descriptor is lost.
use ahk_unix.Base.{
  ℕ, true, false, List, [], ◌∷◌, ◌++◌, ◌≡◌, ◌≢◌, ◌⊎◌, inl, inr, refl, sym, ap, subst, ◌∙◌, arith,
  Bool-cases, ◌==◌,
}
use ahk_unix.Base.Int.{ℤ, pos, negsuc}
use ahk_unix.Daemon.Longest.{In, here, there}
use ahk_unix.Fd.{
  Descriptors, no_fd, set, close, reset, construct, move_construct, move_assign, destroy,
}
use ahk_unix.Fd.Closed.{
  set-same, set-other, New, Op, constructs, resets, moves, assigns, destroys, Ops, then_op,
  nothing_open, Tidy, Ops-Tidy,
}

-- Closed, or owned by an object.
abbrev pub Kept : ℕ → Descriptors → Type 0
Kept n d = In n d.closed ⊎ ((o : ℕ) × (d.fd o ≡ pos n))

In-left : {n : ℕ} (xs ys : List ℕ) → In n xs → In n (xs ++ ys)
In-left [] ys i = elim i [ ]
In-left (x ∷ xs) ys here = here
In-left (x ∷ xs) ys (there i) = there (In-left xs ys i)

In-last : (n : ℕ) (xs : List ℕ) → In n (xs ++ (n ∷ []))
In-last n [] = here
In-last n (x ∷ xs) = there (In-last n xs)

same_object : (a b : ℕ) → (a == b) ≡ true → a ≡ b
same_object a b e = ground (arith, e)

-- The other objects keep what they own.
set-Kept :
    (n object : ℕ) (x : ℤ) (d : Descriptors)
    → d.fd object ≢ pos n
    → Kept n d
    → Kept n (record d { fd = set object x d.fd })
set-Kept n object x d empty (inl i) = inl i
set-Kept n object x d empty (inr (o, e)) = elim (Bool-cases (o == object)) [
  | inl same ↦ absurd (empty (ap d.fd (sym (same_object o object same)) ∙ e))
  | inr apart ↦ inr (o, set-other object o x d.fd apart ∙ e)
]

negative_owns : {y : ℤ} {m n : ℕ} → y ≡ negsuc m → y ≢ pos n
negative_owns e f = absurd (ground (arith, e, f))

reset-Kept : (n object : ℕ) (x : ℤ) (d : Descriptors) → Kept n d → Kept n (reset object x d)
unfolding reset close
reset-Kept n object x d kept = held (d.fd object) refl kept
  where
    held :
        (y : ℤ)
        → d.fd object ≡ y
        → Kept n d
        → Kept n (record { fd = set object x d.fd; closed = close y d.closed })
    held (negsuc m) e k = set-Kept n object x d (negative_owns e) k
    held (pos m) e (inl i) = inl (In-left d.closed (m ∷ []) i)
    held (pos m) e (inr (o, f)) = elim (Bool-cases (o == object)) [
      | inl same ↦
          let number : pos m ≡ pos n = sym e ∙ ap d.fd (sym (same_object o object same)) ∙ f in
          let equal : m ≡ n = ground (arith, number) in
          inl (subst (λ k. In k (d.closed ++ (m ∷ []))) equal (In-last m d.closed))
      | inr apart ↦ inr (o, set-other object o x d.fd apart ∙ f)
    ]

-- What an object owns passes to one that owns none.
moved-Kept :
    (n object other : ℕ) (d : Descriptors)
    → d.fd object ≡ no_fd
    → Kept n d
    → Kept n (record d { fd = set object (d.fd other) (set other no_fd d.fd) })
moved-Kept n object other d empty (inl i) = inl i
moved-Kept n object other d empty (inr (o, e)) = elim (Bool-cases (o == other)) [
  | inl same ↦ inr (
    object,
    set-same object object (d.fd other) (set other no_fd d.fd) (ground arith)
        ∙ ap d.fd (sym (same_object o other same))
        ∙ e,
  )
  | inr apart ↦
      set-Kept n object (d.fd other) (record d { fd = set other no_fd d.fd })
        (emptied (Bool-cases (object == other))) (inr (o, set-other other o no_fd d.fd apart ∙ e))
]
  where
    emptied :
        ((object == other) ≡ true) ⊎ ((object == other) ≡ false)
        → set other no_fd d.fd object ≢ pos n
    emptied (inl f) = negative_owns (set-same other object no_fd d.fd f)
    emptied (inr f) = negative_owns (set-other other object no_fd d.fd f ∙ empty)

op-Kept : (n : ℕ) {a b : Descriptors} → Op a b → Kept n a → Kept n b
unfolding construct move_construct move_assign destroy reset
op-Kept n (constructs {d} object x empty new) k = set-Kept n object x d (negative_owns empty) k
op-Kept n (resets {d} object x new) k = reset-Kept n object x d k
op-Kept n (moves {d} object other empty) k = moved-Kept n object other d empty k
op-Kept n (assigns {d} object other) k = elim (Bool-cases (object == other)) [
  | inl e ↦ rw e k
  | inr e ↦ rw e (
      moved-Kept n object other (reset object no_fd d)
        (set-same object object no_fd d.fd (ground arith)) (reset-Kept n object no_fd d k))
]
op-Kept n (destroys {d} object) k = reset-Kept n object no_fd d k

-- The descriptor is given to an object in one of the steps.
pub data Given (n : ℕ) : (a b : Descriptors) → Ops a b → Type 0 where
  by_construct :
      {a d : Descriptors} {ops : Ops a d} (object : ℕ) (x : ℤ) (empty : d.fd object ≡ no_fd)
      (new : New x d)
      → x ≡ pos n
      → Given n a (construct object x d) (then_op ops (constructs object x empty new))
  by_reset :
      {a d : Descriptors} {ops : Ops a d} (object : ℕ) (x : ℤ) (new : New x d)
      → x ≡ pos n
      → Given n a (reset object x d) (then_op ops (resets object x new))
  earlier :
      {a b c : Descriptors} {ops : Ops a b} {op : Op b c}
      → Given n a b ops
      → Given n a c (then_op ops op)

-- However the objects are built, reset, moved, assigned and destroyed, a descriptor that was
-- given to one of them is owned by one or closed: none is lost.
pub Ops-Kept : (n : ℕ) {a d : Descriptors} (ops : Ops a d) → Given n a d ops → Kept n d
unfolding construct reset
Ops-Kept n _ (by_construct {d = d} object x empty new e) =
    inr (object, set-same object object x d.fd (ground arith) ∙ e)
Ops-Kept n _ (by_reset {d = d} object x new e) =
    inr (object, set-same object object x d.fd (ground arith) ∙ e)
Ops-Kept n _ (earlier {ops = ops} {op = op} given) = op-Kept n op (Ops-Kept n ops given)

-- However the objects are built, reset, moved, assigned, also to themselves, and destroyed: no
-- descriptor has two owners, none is closed twice, none is owned behind its close, and each that was given
-- to an object is owned or closed. An object is built where none is, and is given only a descriptor
-- that has no owner and was not closed.
pub Ops-Tidy-Kept :
    (d : Descriptors) (ops : Ops nothing_open d)
    → Tidy d × ((n : ℕ) → Given n nothing_open d ops → Kept n d)
Ops-Tidy-Kept d ops = (Ops-Tidy d ops, λ n given. Ops-Kept n ops given)
