-- ===== src/Startup/Fork.antt =====
-- `daemonize` of src/Signals.cpp, which no code calls, over the calls of Startup/Detach.antt. It exits where
-- that of src/daemon/Daemonizer.cpp throws.
use ahk_unix.Base.{ℕ, Bool, true, false, ◌≡◌, refl, ap, ◌∙◌, Bytes, codes}
use ahk_unix.Startup.Detach.{Fork, fork_failed, parent, child, Fate, exits, throws, returns, Calls}
use ahk_unix.Startup.Detach as Detach

pub data Process : Type 0 where
  exited : ℕ → Process
  goes_on : Process

unfoldable pub forked : Fork → Process → Process
forked fork_failed next = exited 1
forked parent next = exited 0
forked child next = next

unfoldable pub or_exit : Bool → Process → Process
or_exit true next = next
or_exit false next = exited 1

unfoldable pub daemonize : Bool → Calls → Process
unfolding forked or_exit
daemonize true calls = goes_on
daemonize false calls = forked calls.first_fork (
    or_exit calls.setsid (
      forked calls.second_fork
        (or_exit calls.chdir (or_exit calls.open_null (or_exit calls.dup2 goes_on)))))

-- What becomes of a process whose `main` ends with 1 for an exception.
unfoldable pub process_of : Fate → Process
process_of exits = exited 0
process_of (throws e) = exited 1
process_of (returns redirected) = goes_on

forked-process_of :
    (fork : Fork) {next : Process} (fate : Fate)
    → next ≡ process_of fate
    → forked fork next ≡ process_of (Detach.forked fork fate)
unfolding forked Detach.forked process_of
forked-process_of fork_failed fate e = refl
forked-process_of parent fate e = refl
forked-process_of child fate e = e

or_exit-process_of :
    (succeeds : Bool) (what : Bytes) {next : Process} (fate : Fate)
    → next ≡ process_of fate
    → or_exit succeeds next ≡ process_of (Detach.checked succeeds what fate)
unfolding or_exit Detach.checked process_of
or_exit-process_of true what fate e = e
or_exit-process_of false what fate e = refl

checked-true :
    {succeeds : Bool} (what : Bytes) (fate : Fate)
    → succeeds ≡ true
    → fate ≡ Detach.checked succeeds what fate
unfolding Detach.checked
checked-true what fate e = rw (e, Detach.checked) refl

-- If the log can be opened, the two functions do the same to a process whose `main` ends with 1 for an
-- exception: whatever the other calls return, it goes on under one if and only if under the other,
-- and exits with the same status.
pub daemonize-process_of :
    (foreground : Bool) (calls : Calls)
    → calls.open_log ≡ true
    → daemonize foreground calls ≡ process_of (Detach.daemonize foreground calls)
unfolding daemonize Detach.daemonize Detach.redirect_standard_fds process_of
daemonize-process_of true calls log = refl
daemonize-process_of false calls log = forked-process_of calls.first_fork _ (
    or_exit-process_of calls.setsid (codes "setsid") _ (
      forked-process_of calls.second_fork _ (
        or_exit-process_of calls.chdir (codes "chdir") _ (
          or_exit-process_of calls.open_null (codes "open /dev/null") _ (
            or_exit-process_of calls.dup2 (codes "dup2") _ refl
            ∙ ap process_of (checked-true (codes "open log") _ log))))))
