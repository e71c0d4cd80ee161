-- ===== src/Startup/Detach.antt =====
-- `daemonize` and `redirect_standard_fds` of src/daemon/Daemonizer.cpp, over what the calls return.
use ahk_unix.Base.{Bool, true, false, ◌≡◌, arith, refl, Bytes, codes, sys_error, Error}

-- `fork`: it fails, or this is the parent, or the child.
pub data Fork : Type 0 where
  fork_failed : Fork
  parent : Fork
  child : Fork

-- How the process goes on: it exits with 0, an exception is thrown, or the call returns. The flag tells
-- whether its descriptors were redirected.
pub data Fate : Type 0 where
  exits : Fate
  throws : Error → Fate
  returns : Bool → Fate

pub record Calls : Type 0 where
  pub first_fork : Fork
  pub setsid : Bool
  pub second_fork : Fork
  pub chdir : Bool
  pub open_null : Bool
  pub open_log : Bool
  pub dup2 : Bool

unfoldable pub forked : Fork → Fate → Fate
forked fork_failed next = throws (sys_error (codes "fork"))
forked parent next = exits
forked child next = next

unfoldable pub checked : Bool → Bytes → Fate → Fate
checked true what next = next
checked false what next = throws (sys_error what)

unfoldable pub redirect_standard_fds : Calls → Fate → Fate
unfolding checked
redirect_standard_fds calls next =
    checked calls.open_null (codes "open /dev/null")
      (checked calls.open_log (codes "open log") (checked calls.dup2 (codes "dup2") next))

unfoldable pub daemonize : Bool → Calls → Fate
unfolding forked checked redirect_standard_fds
daemonize true calls = returns false
daemonize false calls = forked calls.first_fork (
    checked calls.setsid (codes "setsid") (
      forked calls.second_fork
        (checked calls.chdir (codes "chdir") (redirect_standard_fds calls (returns true)))))

forked-eq-returns :
    (fork : Fork) (next : Fate) {b : Bool}
    → forked fork next ≡ returns b
    → (fork ≡ child) × (next ≡ returns b)
unfolding forked
forked-eq-returns fork_failed next e = absurd (ground (arith, e))
forked-eq-returns parent next e = absurd (ground (arith, e))
forked-eq-returns child next e = (refl, e)

checked-eq-returns :
    (ok_call : Bool) (what : Bytes) (next : Fate) {b : Bool}
    → checked ok_call what next ≡ returns b
    → (ok_call ≡ true) × (next ≡ returns b)
unfolding checked
checked-eq-returns true what next e = (refl, e)
checked-eq-returns false what next e = absurd (ground (arith, e))

-- Without the foreground option the call returns only in the child of the child, in a session of its
-- own.
daemonize-eq-returns :
    (calls : Calls) {b : Bool}
    → daemonize false calls ≡ returns b
    → (calls.first_fork ≡ child) × (calls.setsid ≡ true) × (calls.second_fork ≡ child)
unfolding daemonize
daemonize-eq-returns calls e =
    let (first, e1) = forked-eq-returns calls.first_fork _ e in
    let (session, e2) = checked-eq-returns calls.setsid (codes "setsid") _ e1 in
    let (second, _) = forked-eq-returns calls.second_fork _ e2 in (first, session, second)
