-- ===== src/Daemon/Rounds.antt =====
-- What `Daemon::run` of src/Daemon.cpp does with the events that it reads, and when it ends, for a
-- keyboard that `open_keyboard` has opened.
use ahk_unix.Base.{
  Bool, true, false, Option, none, some, List, [], ◌∷◌, ◌++◌, ◌≡◌, refl, ap, sym, ◌∙◌, map,
  append-nil, append_assoc, Bool-cases, inl, inr, Bytes, Result, ok, err, codes, sys_error,
  runtime_error, if◌then◌else◌, not, ◌||◌,
}
use ahk_unix.Device.Input.{
  DeviceFile, Keyboard, open_keyboard, grab, ungrab, NextEvent, delivered, again, next_failed,
  read_event,
}
use ahk_unix.Daemon.{RawEvent, DaemonState}
use ahk_unix.Daemon.Handler.{handle_event}
use ahk_unix.Daemon.Effect.{handle_event-effect}
use ahk_unix.Daemon.Loop.{
  Polled, poll_interrupted, timed_out, readable, Round, read_failed, blocked, waiting, read_loop,
  after_reading, run_loop, run,
}

-- A round that does not see `g_stop` and finds no event.
pub data Tick : Type 0 where
  interrupted : Tick
  idle : Tick

abbrev pub going : Polled → Round
going polled = record { g_stop = false; polled = polled }

abbrev pub stopping : Polled → Round
stopping polled = record { g_stop = true; polled = polled }

unfoldable pub rounds_of : List Tick → List Round
rounds_of [] = []
rounds_of (interrupted ∷ ticks) = going poll_interrupted ∷ rounds_of ticks
rounds_of (idle ∷ ticks) = going timed_out ∷ rounds_of ticks

-- An event of the device, or a time without one.
abbrev pub answer : Option RawEvent → NextEvent
answer (some ev) = delivered ev
answer none = again

unfoldable pub events_in : List (Option RawEvent) → List RawEvent
events_in [] = []
events_in (some ev ∷ answers) = ev ∷ events_in answers
events_in (none ∷ answers) = events_in answers

-- The events handled one after the other.
unfoldable pub handle_all : List RawEvent → DaemonState → DaemonState
handle_all [] d = d
handle_all (ev ∷ evs) d = handle_all evs (handle_event ev d)

-- Each event is passed on once, in order.
handle_all-forwarded :
    (evs : List RawEvent) (d : DaemonState) → (handle_all evs d).forwarded ≡ d.forwarded ++ evs
unfolding handle_all
handle_all-forwarded [] d = sym (append-nil d.forwarded)
handle_all-forwarded (ev ∷ evs) d =
    let (_, _, sent) = handle_event-effect ev d in
    handle_all-forwarded evs (handle_event ev d)
    ∙ ap (λ forwarded. forwarded ++ evs) sent
    ∙ append_assoc d.forwarded (ev ∷ []) evs

pub read_loop-answers :
    (answers : List (Option RawEvent)) (more : List NextEvent) (d : DaemonState)
    → read_loop false (map answer answers ++ more) d
      ≡ read_loop false more (handle_all (events_in answers) d)
unfolding read_loop read_event handle_all events_in
read_loop-answers [] more d = refl
read_loop-answers (some ev ∷ answers) more d = read_loop-answers answers more (handle_event ev d)
read_loop-answers (none ∷ answers) more d = read_loop-answers answers more d

pub read_loop-blocked :
    (answers : List (Option RawEvent)) (d : DaemonState)
    → read_loop false (map answer answers) d ≡ blocked (handle_all (events_in answers) d)
unfolding read_loop
read_loop-blocked answers d =
    ap (λ all. read_loop false all d) (sym (append-nil (map answer answers)))
    ∙ read_loop-answers answers [] d

pub read_loop-failed :
    (answers : List (Option RawEvent)) (unread : List NextEvent) (d : DaemonState)
    → read_loop false (map answer answers ++ next_failed ∷ unread) d
      ≡ read_failed (sys_error (codes "libevdev_next_event")) (handle_all (events_in answers) d)
unfolding read_loop read_event
read_loop-failed answers unread d = read_loop-answers answers (next_failed ∷ unread) d

-- What a device has: no failure, or some answers and then one.
pub data Answers : List NextEvent → Type 0 where
  unfailing : (answers : List (Option RawEvent)) → Answers (map answer answers)
  failing :
      (answers : List (Option RawEvent)) (unread : List NextEvent)
      → Answers (map answer answers ++ next_failed ∷ unread)

more_Answers : (o : Option RawEvent) (all : List NextEvent) → Answers all → Answers (answer o ∷ all)
more_Answers o _ (unfailing answers) = unfailing (o ∷ answers)
more_Answers o _ (failing answers unread) = failing (o ∷ answers) unread

pub every-Answers : (all : List NextEvent) → Answers all
every-Answers [] = unfailing []
every-Answers (delivered ev ∷ all) = more_Answers (some ev) all (every-Answers all)
every-Answers (again ∷ all) = more_Answers none all (every-Answers all)
every-Answers (next_failed ∷ all) = failing [] all

run_loop-rounds_of :
    (ticks : List Tick) (rest : List Round) (keyboard : Keyboard) (d : DaemonState)
    → run_loop (rounds_of ticks ++ rest) keyboard d ≡ run_loop rest keyboard d
unfolding run_loop rounds_of
run_loop-rounds_of [] rest keyboard d = refl
run_loop-rounds_of (interrupted ∷ ticks) rest keyboard d = run_loop-rounds_of ticks rest keyboard d
run_loop-rounds_of (idle ∷ ticks) rest keyboard d = run_loop-rounds_of ticks rest keyboard d

grab-nonblocking : (keyboard : Keyboard) → (grab keyboard).nonblocking ≡ keyboard.nonblocking
unfolding grab
grab-nonblocking keyboard = elim (Bool-cases keyboard.grabbed) [
  | inl g ↦ rw g refl
  | inr g ↦ rw g refl
]

pub ungrab-grab :
    (keyboard : Keyboard) → ungrab (grab keyboard) ≡ record keyboard { grabbed = false }
unfolding grab ungrab
ungrab-grab keyboard = elim (Bool-cases keyboard.grabbed) [ inl g ↦ rw g refl | inr g ↦ rw g refl ]

-- A keyboard that is opened blocks.
pub open_keyboard-blocking :
    (path : Bytes) (file : DeviceFile) (keyboard : Keyboard)
    → open_keyboard path file ≡ ok keyboard
    → (grab keyboard).nonblocking ≡ false
unfolding open_keyboard
open_keyboard-blocking path file keyboard e =
    grab-nonblocking keyboard
    ∙ sym (ap flag e)
    ∙ opened file.opens file.is_evdev file.has_ev_key (file.has_ev_rel || file.has_ev_abs)
  where
    flag : Result Keyboard → Bool
    flag (ok k) = k.nonblocking
    flag (err w) = false

    opened :
        (a b c d : Bool)
        → flag (
            if not a
            then err (sys_error (codes "open " ++ path))
            else if not b
            then err (sys_error (codes "libevdev_new_from_fd"))
            else if not c
            then err (runtime_error (path ++ codes " is not a keyboard-like evdev device"))
            else if d
            then err (runtime_error (path ++ codes " is a mouse/touchpad (has axes). Skipping."))
            else ok (record { path = path; nonblocking = false; grabbed = false }))
          ≡ false
    opened false b c d = refl
    opened true false c d = refl
    opened true true false d = refl
    opened true true true true = refl
    opened true true true false = refl

pub run_loop-readable :
    (all : List NextEvent) (rounds : List Round) (keyboard : Keyboard) (d : DaemonState)
    → keyboard.nonblocking ≡ false
    → run_loop (going (readable all) ∷ rounds) keyboard d
      ≡ after_reading (read_loop false all d) keyboard (run_loop rounds keyboard)
unfolding run_loop
run_loop-readable all rounds keyboard d h =
    ap (λ b. after_reading (read_loop b all d) keyboard (run_loop rounds keyboard)) h

-- Behind rounds without an event, the first readable round of a keyboard that `open_keyboard` has opened
-- is the last: as long as no read fails, `run` handles each event, passes it on once, in order, and waits for
-- the next one, however long the pauses between them are and whatever `g_stop` would read in the rounds to come.
pub run-waiting :
    (path : Bytes) (file : DeviceFile) (keyboard : Keyboard) (ticks : List Tick)
    (answers : List (Option RawEvent)) (rest : List Round) (d : DaemonState)
    → open_keyboard path file ≡ ok keyboard
    → let last = handle_all (events_in answers) d in
      (run (rounds_of ticks ++ (going (readable (map answer answers)) ∷ rest)) keyboard d
        ≡ waiting last (grab keyboard))
      × (last.forwarded ≡ d.forwarded ++ events_in answers)
unfolding run after_reading
run-waiting path file keyboard ticks answers rest d e = (
  run_loop-rounds_of ticks _ (grab keyboard) d
      ∙ run_loop-readable (map answer answers) rest (grab keyboard) d
          (open_keyboard-blocking path file keyboard e)
      ∙ ap (λ r. after_reading r (grab keyboard) (run_loop rest (grab keyboard)))
          (read_loop-blocked answers d),
  handle_all-forwarded (events_in answers) d,
)
