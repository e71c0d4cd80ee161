-- ===== src/Fd/Closed.antt =====
-- No descriptor is closed twice.
use ahk_unix.Base.{
  ℕ, true, false, List, [], ◌∷◌, ◌++◌, ◌≡◌, ◌⊎◌, inl, inr, refl, sym, ap, ◌∙◌, arith, Bool-cases,
  ◌==◌, ◌≢◌,
}
use ahk_unix.Base.Int.{ℤ, pos, negsuc}
use ahk_unix.Daemon.Longest.{In, here, there}
use ahk_unix.Fd.{
  Descriptors, no_fd, set, close, reset, construct, move_construct, move_assign, destroy,
}

-- Each descriptor has one owner, and no owner of a closed descriptor is left.
abbrev pub OneOwner : (ℕ → ℤ) → Type 0
OneOwner fds = (a b n : ℕ) → fds a ≡ pos n → fds b ≡ pos n → a ≡ b

abbrev pub Free : (ℕ → ℤ) → ℕ → Type 0
Free fds n = (o : ℕ) → fds o ≢ pos n

pub set-same : (object o : ℕ) (x : ℤ) (fds : ℕ → ℤ) → (o == object) ≡ true → set object x fds o ≡ x
unfolding set
set-same object o x fds e = rw e refl

pub set-other :
    (object o : ℕ) (x : ℤ) (fds : ℕ → ℤ) → (o == object) ≡ false → set object x fds o ≡ fds o
unfolding set
set-other object o x fds e = rw e refl

-- What an object holds behind `set`.
pub set-cases :
    (object o : ℕ) (x : ℤ) (fds : ℕ → ℤ) {n : ℕ}
    → set object x fds o ≡ pos n
    → ((o ≡ object) × (x ≡ pos n)) ⊎ ((o ≢ object) × (fds o ≡ pos n))
set-cases object o x fds p = elim (Bool-cases (o == object)) [
  | inl e ↦ inl (ground (arith, e), sym (set-same object o x fds e) ∙ p)
  | inr e ↦ inr ((λ same. ground (arith, e, same)), sym (set-other object o x fds e) ∙ p)
]

-- A descriptor that no other object owns may be put into an object.
set-OneOwner :
    (object : ℕ) (x : ℤ) (fds : ℕ → ℤ)
    → OneOwner fds
    → ((o n : ℕ) → x ≡ pos n → o ≢ object → fds o ≢ pos n)
    → OneOwner (set object x fds)
set-OneOwner object x fds one fresh a b n p q =
    both (set-cases object a x fds p) (set-cases object b x fds q)
  where
    both :
        ((a ≡ object) × (x ≡ pos n)) ⊎ ((a ≢ object) × (fds a ≡ pos n))
        → ((b ≡ object) × (x ≡ pos n)) ⊎ ((b ≢ object) × (fds b ≡ pos n))
        → a ≡ b
    both (inl (e, _)) (inl (f, _)) = e ∙ sym f
    both (inl (_, held)) (inr (apart, other)) = absurd (fresh b n held apart other)
    both (inr (apart, other)) (inl (_, held)) = absurd (fresh a n held apart other)
    both (inr (_, g)) (inr (_, h)) = one a b n g h

-- A list that grew at its end, by numbers that it did not hold.
pub data NoRepeat : List ℕ → Type 0 where
  none_closed : NoRepeat []
  one_more :
      {xs : List ℕ} {n : ℕ} → NoRepeat xs → ((m : ℕ) → In m xs → m ≢ n) → NoRepeat (xs ++ (n ∷ []))

In-concat : (xs : List ℕ) {m n : ℕ} → In m (xs ++ (n ∷ [])) → In m xs ⊎ (m ≡ n)
In-concat [] here = inr refl
In-concat [] (there i) = elim i [ ]
In-concat (x ∷ xs) here = inl here
In-concat (x ∷ xs) (there i) = elim (In-concat xs i) [ inl j ↦ inl (there j) | inr e ↦ inr e ]

-- Each descriptor has one owner; those closed have none, and were closed once.
abbrev pub Tidy : Descriptors → Type 0
Tidy d = OneOwner d.fd × ((n : ℕ) → In n d.closed → Free d.fd n) × NoRepeat d.closed

-- A descriptor that has no owner and was not closed.
abbrev pub New : ℤ → Descriptors → Type 0
New x d = (n : ℕ) → x ≡ pos n → Free d.fd n × ((m : ℕ) → In m d.closed → m ≢ n)

no_fd-New : (d : Descriptors) → New no_fd d
no_fd-New d n e = absurd (ground (arith, e))

set-Tidy :
    (object : ℕ) (x : ℤ) (d : Descriptors)
    → New x d
    → Tidy d
    → Tidy (record d { fd = set object x d.fd })
set-Tidy object x d new (one, free, once) = (
  set-OneOwner object x d.fd one (λ o n e apart. (new n e).0 o),
  (λ n i o p. elim (set-cases object o x d.fd p) [
    | inl (_, e) ↦ (new n e).1 n i refl
    | inr (_, held) ↦ free n i o held
  ]),
  once,
)

-- What an object held is closed when it is given another descriptor.
reset-Tidy : (object : ℕ) (x : ℤ) (d : Descriptors) → New x d → Tidy d → Tidy (reset object x d)
unfolding reset close
reset-Tidy object x d new tidy = held (d.fd object) refl
  where
    held :
        (y : ℤ)
        → d.fd object ≡ y
        → Tidy (record { fd = set object x d.fd; closed = close y d.closed })
    held (negsuc n) e = set-Tidy object x d new tidy
    held (pos m) e =
        let (one, free, once) = set-Tidy object x d new tidy in
        (
          one,
          (λ n i o p. elim (In-concat d.closed i) [
            | inl j ↦ free n j o p
            | inr same ↦ elim (set-cases object o x d.fd p) [
              | inl (_, f) ↦ (new n f).0 object (e ∙ ap pos (sym same))
              | inr (apart, f) ↦ apart (tidy.0 o object n f (e ∙ ap pos (sym same)))
            ]
          ]),
          one_more once (λ n i same. tidy.1 n i object (e ∙ ap pos (sym same))),
        )

-- A descriptor that passes from one object to another.
moved-Tidy :
    (object other : ℕ) (d : Descriptors)
    → Tidy d
    → Tidy (record d { fd = set object (d.fd other) (set other no_fd d.fd) })
moved-Tidy object other d tidy =
    set-Tidy object (d.fd other) (record d { fd = set other no_fd d.fd })
      (λ n e. (
        (λ o p. elim (set-cases other o no_fd d.fd p) [
          | inl (_, f) ↦ absurd (ground (arith, f))
          | inr (apart, f) ↦ apart (tidy.0 o other n f e)
        ]),
        (λ m i same. tidy.1 m i other (e ∙ ap pos (sym same))),
      ))
      (set-Tidy other no_fd d (no_fd-New d) tidy)

-- What the program does with its objects. A number that the kernel gives again behind a close counts as
-- another descriptor.
pub data Op : Descriptors → Descriptors → Type 0 where
  constructs :
      {d : Descriptors} (object : ℕ) (x : ℤ)
      → d.fd object ≡ no_fd
      → New x d
      → Op d (construct object x d)
  resets : {d : Descriptors} (object : ℕ) (x : ℤ) → New x d → Op d (reset object x d)
  moves :
      {d : Descriptors} (object other : ℕ)
      → d.fd object ≡ no_fd
      → Op d (move_construct object other d)
  assigns : {d : Descriptors} (object other : ℕ) → Op d (move_assign object other d)
  destroys : {d : Descriptors} (object : ℕ) → Op d (destroy object d)

pub data Ops : Descriptors → Descriptors → Type 0 where
  no_op : {d : Descriptors} → Ops d d
  then_op : {a b c : Descriptors} → Ops a b → Op b c → Ops a c

op-Tidy : {a b : Descriptors} → Op a b → Tidy a → Tidy b
unfolding construct move_construct move_assign destroy reset
op-Tidy (constructs {d} object x empty new) tidy = set-Tidy object x d new tidy
op-Tidy (resets {d} object x new) tidy = reset-Tidy object x d new tidy
op-Tidy (moves {d} object other empty) tidy = moved-Tidy object other d tidy
op-Tidy (assigns {d} object other) tidy = elim (Bool-cases (object == other)) [
  | inl e ↦ rw e tidy
  | inr e ↦ rw e (
      moved-Tidy object other (reset object no_fd d) (reset-Tidy object no_fd d (no_fd-New d) tidy))
]
op-Tidy (destroys {d} object) tidy = reset-Tidy object no_fd d (no_fd-New d) tidy

-- No object owns a descriptor, and none was closed.
abbrev pub nothing_open : Descriptors
nothing_open = record { fd = λ o. no_fd; closed = [] }

-- However the objects are built, reset, moved, assigned, also to themselves, and destroyed: no
-- descriptor has two owners, none is closed twice, and none is owned behind its close. An object is built
-- where none is, and is given only a descriptor that has no owner and was not closed.
pub Ops-Tidy : (d : Descriptors) → Ops nothing_open d → Tidy d
Ops-Tidy d no_op = (
  (λ a b n e f. absurd (ground (arith, e))),
  (λ n i o e. absurd (ground (arith, e))),
  none_closed,
)
Ops-Tidy d (then_op ops op) = op-Tidy op (Ops-Tidy _ ops)
