-- ===== src/Daemon/Ends.antt =====
-- The ends of `Daemon::run` of src/Daemon.cpp, for a keyboard that `open_keyboard` has opened.
use ahk_unix.Base.{
  Bool, true, false, Option, List, [], ◌∷◌, ◌++◌, ◌≡◌, sym, subst, map, Bytes, ok, codes, sys_error,
}
use ahk_unix.Device.Input.{DeviceFile, Keyboard, open_keyboard, grab, NextEvent, next_failed}
use ahk_unix.Daemon.{RawEvent, DaemonState}
use ahk_unix.Daemon.Handler.{stop_macro_worker}
use ahk_unix.Daemon.Loop.{
  Polled, poll_interrupted, poll_failed, timed_out, readable, Round, Running, stopped, thrown,
  waiting, read_loop, after_reading, run_loop, run,
}
use ahk_unix.Daemon.Rounds.{
  Tick, interrupted, idle, going, stopping, rounds_of, answer, events_in, handle_all, Answers,
  unfailing, failing, every-Answers, read_loop-blocked, read_loop-failed, ungrab-grab,
  open_keyboard-blocking, run_loop-readable,
}

-- The first round that is not idle, and how `run` ends by it.
pub data Ended (keyboard : Keyboard) (d : DaemonState) : List Round → Running → Type 0 where
  quits :
      (ticks : List Tick) (polled : Polled) (rest : List Round)
      → Ended keyboard d
          (rounds_of ticks ++ stopping polled ∷ rest)
          (stopped (stop_macro_worker d) (record keyboard { grabbed = false }))
  cannot_poll :
      (ticks : List Tick) (rest : List Round)
      → Ended keyboard d
          (rounds_of ticks ++ going poll_failed ∷ rest)
          (thrown (sys_error (codes "poll input device")) d (grab keyboard))
  reads_on :
      (ticks : List Tick) (answers : List (Option RawEvent)) (rest : List Round)
      → Ended keyboard d
          (rounds_of ticks ++ going (readable (map answer answers)) ∷ rest)
          (waiting (handle_all (events_in answers) d) (grab keyboard))
  cannot_read :
      (ticks : List Tick) (answers : List (Option RawEvent)) (unread : List NextEvent)
      (rest : List Round)
      → Ended keyboard d
          (rounds_of ticks ++ going (readable (map answer answers ++ next_failed ∷ unread)) ∷ rest)
          (thrown
            (sys_error (codes "libevdev_next_event"))
            (handle_all (events_in answers) d)
            (grab keyboard))
  polls_on : (ticks : List Tick) → Ended keyboard d (rounds_of ticks) (waiting d (grab keyboard))

module _ (keyboard : Keyboard) (d : DaemonState)
    (blocking : (grab keyboard).nonblocking ≡ false) where
  interrupted-Ended :
      (rounds : List Round) (r : Running)
      → Ended keyboard d rounds r
      → Ended keyboard d (going poll_interrupted ∷ rounds) r
  unfolding rounds_of
  interrupted-Ended _ _ (quits ticks polled rest) = quits (interrupted ∷ ticks) polled rest
  interrupted-Ended _ _ (cannot_poll ticks rest) = cannot_poll (interrupted ∷ ticks) rest
  interrupted-Ended _ _ (reads_on ticks answers rest) = reads_on (interrupted ∷ ticks) answers rest
  interrupted-Ended _ _ (cannot_read ticks answers unread rest) =
      cannot_read (interrupted ∷ ticks) answers unread rest
  interrupted-Ended _ _ (polls_on ticks) = polls_on (interrupted ∷ ticks)

  idle-Ended :
      (rounds : List Round) (r : Running)
      → Ended keyboard d rounds r
      → Ended keyboard d (going timed_out ∷ rounds) r
  unfolding rounds_of
  idle-Ended _ _ (quits ticks polled rest) = quits (idle ∷ ticks) polled rest
  idle-Ended _ _ (cannot_poll ticks rest) = cannot_poll (idle ∷ ticks) rest
  idle-Ended _ _ (reads_on ticks answers rest) = reads_on (idle ∷ ticks) answers rest
  idle-Ended _ _ (cannot_read ticks answers unread rest) =
      cannot_read (idle ∷ ticks) answers unread rest
  idle-Ended _ _ (polls_on ticks) = polls_on (idle ∷ ticks)

  readable-Ended :
      (all : List NextEvent) (rounds : List Round)
      → Answers all
      → Ended keyboard d
          (going (readable all) ∷ rounds)
          (after_reading (read_loop false all d) (grab keyboard) (run_loop rounds (grab keyboard)))
  unfolding rounds_of after_reading
  readable-Ended _ rounds (unfailing answers) =
      subst
        (λ r.
          Ended keyboard d (going (readable (map answer answers)) ∷ rounds)
            (after_reading r (grab keyboard) (run_loop rounds (grab keyboard))))
        (sym (read_loop-blocked answers d)) (reads_on [] answers rounds)
  readable-Ended _ rounds (failing answers unread) =
      subst
        (λ r.
          Ended keyboard d (going (readable (map answer answers ++ next_failed ∷ unread)) ∷ rounds)
            (after_reading r (grab keyboard) (run_loop rounds (grab keyboard))))
        (sym (read_loop-failed answers unread d)) (cannot_read [] answers unread rounds)

  round-Ended :
      (g_stop : Bool) (polled : Polled) (rounds : List Round)
      → Ended keyboard d rounds (run_loop rounds (grab keyboard) d)
      → Ended keyboard d
          (record { g_stop = g_stop; polled = polled } ∷ rounds)
          (run_loop (record { g_stop = g_stop; polled = polled } ∷ rounds) (grab keyboard) d)
  unfolding run_loop rounds_of
  round-Ended true polled rounds h =
      subst (λ k. Ended keyboard d (stopping polled ∷ rounds) (stopped (stop_macro_worker d) k))
        (sym (ungrab-grab keyboard)) (quits [] polled rounds)
  round-Ended false poll_interrupted rounds h = interrupted-Ended rounds _ h
  round-Ended false poll_failed rounds h = cannot_poll [] rounds
  round-Ended false timed_out rounds h = idle-Ended rounds _ h
  round-Ended false (readable all) rounds h =
      subst (λ r. Ended keyboard d (going (readable all) ∷ rounds) r)
        (sym (run_loop-readable all rounds (grab keyboard) d blocking))
        (readable-Ended all rounds (every-Answers all))

  loop-Ended : (rounds : List Round) → Ended keyboard d rounds (run_loop rounds (grab keyboard) d)
  unfolding run_loop rounds_of
  loop-Ended [] = polls_on []
  loop-Ended (round ∷ rounds) = round-Ended round.g_stop round.polled rounds (loop-Ended rounds)

-- For a keyboard that `open_keyboard` has opened and whatever each round reads, the first round that sees
-- `g_stop` or an event, or whose `poll` fails, ends `run` in one of these ways. A round that sees `g_stop`:
-- `run` returns behind `stop_macro_worker`, with the flag of `grab` reset and no event handled. A `poll` that
-- fails: it throws. A readable device: the events are handled in order, until a read fails, which throws, or for
-- ever, waiting for the next one, if none fails. Without such a round, it goes on polling. Where it does not
-- return, the flag of `grab` stays and the worker is not told to end.
pub run-Ended :
    (path : Bytes) (file : DeviceFile) (keyboard : Keyboard) (rounds : List Round) (d : DaemonState)
    → open_keyboard path file ≡ ok keyboard
    → Ended keyboard d rounds (run rounds keyboard d)
unfolding run
run-Ended path file keyboard rounds d e =
    loop-Ended keyboard d (open_keyboard-blocking path file keyboard e) rounds
