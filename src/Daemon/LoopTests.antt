-- ===== src/Daemon/LoopTests.antt =====
-- An example of the loop of the daemon.
use ahk_unix.Base.{
  true, false, Option, some, none, List, [], ◌∷◌, ◌++◌, ◌≡◌, refl, map, ok, Bytes, codes,
}
use ahk_unix.Base.Int.{pos}
use ahk_unix.Device.Input.{DeviceFile, Keyboard, open_keyboard, grab}
use ahk_unix.Daemon.{RawEvent}
use ahk_unix.Daemon.Loop.{Round, timed_out, poll_interrupted, readable, waiting, run}
use ahk_unix.Daemon.Rounds.{
  Tick, interrupted, idle, going, stopping, rounds_of, answer, events_in, handle_all, run-waiting,
}
use ahk_unix.Daemon.Ends.{Ended, run-Ended}
use ahk_unix.Daemon.Tests.{start, press}

abbrev ticks : List Tick
ticks = idle ∷ interrupted ∷ []

-- A key that is released behind a pause.
abbrev answers : List (Option RawEvent)
answers = some press ∷ none ∷ some (record press { value = pos 0 }) ∷ []

abbrev path : Bytes
path = codes "/dev/input/event3"

abbrev file : DeviceFile
file = record {
  opens = true;
  is_evdev = true;
  has_ev_key = true;
  has_ev_rel = false;
  has_ev_abs = false;
}

abbrev keyboard : Keyboard
keyboard = record { path = path; nonblocking = false; grabbed = false }

keyboard-opened : open_keyboard path file ≡ ok keyboard
unfolding open_keyboard
keyboard-opened = refl

run-waiting_example :
    (run
        (rounds_of ticks ++ (going (readable (map answer answers)) ∷ (stopping timed_out ∷ [])))
        keyboard
        start
      ≡ waiting (handle_all (events_in answers) start) (grab keyboard))
    × ((handle_all (events_in answers) start).forwarded ≡ start.forwarded ++ events_in answers)
run-waiting_example =
    run-waiting path file keyboard ticks answers (stopping timed_out ∷ []) start keyboard-opened

abbrev rounds : List Round
rounds = going timed_out ∷ going poll_interrupted ∷ stopping timed_out ∷ []

run-Ended_example : Ended keyboard start rounds (run rounds keyboard start)
run-Ended_example = run-Ended path file keyboard rounds start keyboard-opened
