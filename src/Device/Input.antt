-- ===== src/Device/Input.antt =====
-- src/EvdevKeyboard.cpp: the opening of a keyboard, the flag of `grab`, and the reading of an event.
use ahk_unix.Base.{
  Bool, true, false, ◌||◌, not, ◌++◌, Option, none, some, if◌then◌else◌, Bytes, codes, Result, ok,
  err, sys_error, runtime_error,
}
use ahk_unix.Daemon.{RawEvent}

-- What the system says of the device: whether it opens, whether libevdev reads it, and the types of
-- events that it has.
pub record DeviceFile : Type 0 where
  pub opens : Bool
  pub is_evdev : Bool
  pub has_ev_key : Bool
  pub has_ev_rel : Bool
  pub has_ev_abs : Bool

-- `nonblocking` is whether the flags of `open` have O_NONBLOCK.
pub record Keyboard : Type 0 where
  pub path : Bytes
  pub nonblocking : Bool
  pub grabbed : Bool

-- The flags of `open` are O_RDONLY and O_CLOEXEC.
unfoldable pub open_keyboard : Bytes → DeviceFile → Result Keyboard
open_keyboard path file =
    if not file.opens
    then err (sys_error (codes "open " ++ path))
    else if not file.is_evdev
    then err (sys_error (codes "libevdev_new_from_fd"))
    else if not file.has_ev_key
    then err (runtime_error (path ++ codes " is not a keyboard-like evdev device"))
    else if file.has_ev_rel || file.has_ev_abs
    then err (runtime_error (path ++ codes " is a mouse/touchpad (has axes). Skipping."))
    else ok (record { path = path; nonblocking = false; grabbed = false })

-- The ioctl is commented out in the source: only the flag is set.
unfoldable pub grab : Keyboard → Keyboard
grab keyboard = if keyboard.grabbed then keyboard else record keyboard { grabbed = true }

unfoldable pub ungrab : Keyboard → Keyboard
ungrab keyboard = if keyboard.grabbed then record keyboard { grabbed = false } else keyboard

-- What the device has for `libevdev_next_event`: an event, none for the moment, or an error.
pub data NextEvent : Type 0 where
  delivered : RawEvent → NextEvent
  again : NextEvent
  next_failed : NextEvent

unfoldable pub read_event : NextEvent → Result (Option RawEvent)
read_event (delivered ev) = ok (some ev)
read_event again = ok none
read_event next_failed = err (sys_error (codes "libevdev_next_event"))
