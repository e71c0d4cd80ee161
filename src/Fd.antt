-- ===== src/Fd.antt =====
-- src/Fd.cpp: objects that own a descriptor. The objects are numbered; one that has been destroyed, or not
-- built yet, owns none. `closed` lists the calls of `close`, the last one at the end.
use ahk_unix.Base.{
  ℕ, Bool, true, false, List, [], ◌∷◌, ◌++◌, ◌≡◌, ◌⊎◌, inl, inr, refl, sym, ap, ◌∙◌, arith,
  Bool-cases, ◌==◌, if◌then◌else◌,
}
use ahk_unix.Base.Int.{ℤ, pos, negsuc}
mod Closed
mod Kept
mod Tests

pub record Descriptors : Type 0 where
  pub fd : ℕ → ℤ
  pub closed : List ℕ

-- -1
abbrev pub no_fd : ℤ
no_fd = negsuc 0

unfoldable pub set : ℕ → ℤ → (ℕ → ℤ) → ℕ → ℤ
set object new_fd fds = λ o. if o == object then new_fd else fds o

unfoldable pub close : ℤ → List ℕ → List ℕ
close (pos n) closed = closed ++ (n ∷ [])
close (negsuc n) closed = closed

unfoldable pub reset : ℕ → ℤ → Descriptors → Descriptors
unfolding set close
reset object new_fd d = record {
  fd = set object new_fd d.fd;
  closed = close (d.fd object) d.closed;
}

-- `Fd::Fd(int)`
unfoldable pub construct : ℕ → ℤ → Descriptors → Descriptors
unfolding set
construct object new_fd d = record d { fd = set object new_fd d.fd }

-- `Fd::Fd(Fd&&)`
unfoldable pub move_construct : ℕ → ℕ → Descriptors → Descriptors
unfolding set
move_construct object other d = record d { fd = set object (d.fd other) (set other no_fd d.fd) }

-- `Fd::operator=(Fd&&)`
unfoldable pub move_assign : ℕ → ℕ → Descriptors → Descriptors
unfolding reset set
move_assign object other d =
    if object == other
    then d
    else let freed = reset object no_fd d in
      record freed { fd = set object (freed.fd other) (set other no_fd freed.fd) }

-- `Fd::~Fd`
unfoldable pub destroy : ℕ → Descriptors → Descriptors
unfolding reset
destroy object d = reset object no_fd d
