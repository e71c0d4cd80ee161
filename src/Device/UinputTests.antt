-- ===== src/Device/UinputTests.antt =====
-- A virtual keyboard whose creation is refused.
use ahk_unix.Base.{ℕ, ◌≤◌, Bool, true, false, []}
use ahk_unix.Daemon.Longest.{In}
use ahk_unix.Device.Uinput.{
  key_max, Request, set_evbit, set_keybit, dev_setup, dev_create, dev_destroy, open_virtual,
}
use ahk_unix.Device.Enabled.{set_up, FirstRefused, open_virtual-FirstRefused}

abbrev no_create : Request → Bool
no_create request = elim request [
  | set_evbit _ ↦ true
  | set_keybit _ ↦ true
  | dev_setup ↦ true
  | dev_create ↦ false
  | dev_destroy ↦ true
]

open_virtual-FirstRefused_example :
    FirstRefused no_create set_up [] (open_virtual no_create true)
    × ((key : ℕ) → key ≤ key_max → In (set_keybit key) set_up)
open_virtual-FirstRefused_example = open_virtual-FirstRefused no_create
