-- ===== src/Device/Uinput.antt =====
-- src/UinputKeyboard.cpp: the set-up of the virtual keyboard. The parameter `ioctl` tells which request
-- the device accepts; the wait behind the set-up is left out.
use ahk_unix.Base.{
  ℕ, zero, suc, ◌+◌, Bool, true, false, List, [], ◌∷◌, ◌++◌, Bytes, codes, Error, sys_error,
}
use ahk_unix.Keys.{ev_syn, ev_key}

-- `KEY_MAX` of linux/input-event-codes.h
abbrev pub key_max : ℕ
key_max = 767

pub data Request : Type 0 where
  set_evbit : ℕ → Request
  set_keybit : ℕ → Request
  dev_setup : Request
  dev_create : Request
  dev_destroy : Request

abbrev pub label : Request → Bytes
label request = elim request [
  | set_evbit _ ↦ codes "UI_SET_EVBIT"
  | set_keybit _ ↦ codes "UI_SET_KEYBIT"
  | dev_setup ↦ codes "UI_DEV_SETUP"
  | dev_create ↦ codes "UI_DEV_CREATE"
  | dev_destroy ↦ codes "UI_DEV_DESTROY"
]

-- The call returns or throws, with the requests that the device has accepted.
pub data Made : Type 0 where
  made : List Request → Made
  refused : Error → List Request → Made

unfoldable pub and_then : Made → (List Request → Made) → Made
and_then (made accepted) next = next accepted
and_then (refused e accepted) next = refused e accepted

module _ (ioctl : Request → Bool) where
  unfoldable pub ioctl_or_throw : Request → List Request → Made
  ioctl_or_throw request accepted = elim (ioctl request) [
    | true ↦ made (accepted ++ (request ∷ []))
    | false ↦ refused (sys_error (label request)) accepted
  ]

  unfoldable pub enable : ℕ → List Request → Made
  unfolding ioctl_or_throw
  enable event_type accepted = ioctl_or_throw (set_evbit event_type) accepted

  -- `for (int key = ...; key <= KEY_MAX; ++key)`, `count` rounds of it.
  unfoldable pub key_loop : ℕ → ℕ → List Request → Made
  unfolding ioctl_or_throw and_then
  key_loop zero key accepted = made accepted
  key_loop (suc count) key accepted =
      and_then (ioctl_or_throw (set_keybit key) accepted) (key_loop count (suc key))

  -- `UinputKeyboard::Impl::Impl`, for a file that opens or not.
  unfoldable pub open_virtual : Bool → Made
  unfolding enable key_loop ioctl_or_throw and_then
  open_virtual false = refused (sys_error (codes "open /dev/uinput")) []
  open_virtual true = and_then (enable ev_key []) (λ a. and_then (enable ev_syn a) (λ b.
      and_then (key_loop (key_max + 1) 0 b)
        (λ c. and_then (ioctl_or_throw dev_setup c) (ioctl_or_throw dev_create))))

-- `~Impl`
unfoldable pub close_virtual : Bool → List Request → List Request
close_virtual created requests = elim created [
  | true ↦ requests ++ (dev_destroy ∷ [])
  | false ↦ requests
]
