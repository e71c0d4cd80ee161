-- ===== src/Daemon/Whole.antt =====
-- A macro that no stop interrupts, with its commands run to their end.
use ahk_unix.Base.{
  ℕ, zero, suc, Option, none, some, Error, Bool, true, false, List, [], ◌∷◌, ◌≡◌, arith, is_empty,
  Bytes, Result, ok, err,
}
use ahk_unix.Base.Int.{pos_part}
use ahk_unix.Command.{Part, text_part, key_part}
use ahk_unix.Context.Run.{World}
use ahk_unix.Context.Interpolate.{interpolate}
use ahk_unix.Context.Run.{
  Act, tapped, pasted, waited, system, Machine, Ran, returned, thrown, act, device_call,
}
use ahk_unix.Context.Run as Run
use ahk_unix.Daemon.Job.{goes, and_then, of_ran, device, sleep_interruptible, tap_loop, parts_loop}
use ahk_unix.Daemon.Agree.{
  Alike, alike, Agrees, both_go, both_throw, act-Alike, unless-Agrees, and_then-Agrees,
  wait_loop-Agrees,
}

module _ (flag : ℕ → Bool) (world : World) (clear : (n : ℕ) → flag n ≡ false) where
  sleep-Agrees :
      (duration n : ℕ) (a m : Machine)
      → Alike a m
      → Agrees
          (sleep_interruptible flag world duration (record { loads = n; machine = a }))
          (returned (act (waited duration) m))
  unfolding sleep_interruptible
  sleep-Agrees duration n a m same =
      wait_loop-Agrees flag world clear _
        (λ k b s alike_machines.
          unless-Agrees flag world clear (λ end. goes end) (record { loads = k; machine = b }) _
            (both_go (suc k) alike_machines))
        duration duration n a m (omega arith) same

  called-Agrees :
      (r : Option Error) (act : Act) (n : ℕ) (a m : Machine)
      → Alike a m
      → Agrees (of_ran n (device_call r act a)) (device_call r act m)
  unfolding of_ran device_call
  called-Agrees none act n _ _ (alike done acts e) = both_go n (act-Alike act (alike done acts e))
  called-Agrees (some w) act n _ _ (alike done acts e) = both_throw n w (alike done acts e)

  -- The same call of a device is the n-th on both sides.
  pub device-Agrees :
      (act : Act) (n : ℕ) (a m : Machine)
      → Alike a m
      → Agrees (of_ran n (Run.device world act a)) (Run.device world act m)
  unfolding Run.device
  device-Agrees act n _ _ (alike {ctx} {files} {draws} {calls} done acts e) =
      called-Agrees (world.fails calls) act n _ _ (alike done acts e)

  pub tap_loop-Agrees :
      (key duration count n : ℕ) (a m : Machine)
      → Alike a m
      → Agrees
          (tap_loop flag world key duration count (record { loads = n; machine = a }))
          (Run.tap_loop world key duration count m)
  unfolding tap_loop device Run.tap_loop Run.and_then
  tap_loop-Agrees key duration zero n a m same = both_go n same
  tap_loop-Agrees key duration (suc count) n a m same =
      unless-Agrees flag world clear _ (record { loads = n; machine = a }) _
        (and_then-Agrees flag world clear _ (Run.device world (tapped key) m)
          (λ t.
            and_then (sleep_interruptible flag world duration t)
              (tap_loop flag world key duration count))
          (λ s. Run.tap_loop world key duration count (act (waited duration) s))
          (device-Agrees (tapped key) (suc n) a m same)
          (λ k b s h.
            and_then-Agrees flag world clear _ (returned (act (waited duration) s))
              (tap_loop flag world key duration count) (Run.tap_loop world key duration count)
              (sleep-Agrees duration k b s h)
              (λ i c r g. tap_loop-Agrees key duration count i c r g)))

  chosen-Agrees :
      (b : Bool) (r : Result Bytes) (n : ℕ) (a m : Machine)
      → Alike a m
      → Agrees
          (of_ran n (elim b [
            | true ↦ returned a
            | false ↦ elim r [ ok final ↦ Run.device world (pasted final) a | err e ↦ thrown e a ]
          ]))
          (elim b [
            | true ↦ returned m
            | false ↦ elim r [ ok final ↦ Run.device world (pasted final) m | err e ↦ thrown e m ]
          ])
  unfolding of_ran
  chosen-Agrees true r n a m same = both_go n same
  chosen-Agrees false (ok final) n a m same = device-Agrees (pasted final) n a m same
  chosen-Agrees false (err e) n a m same = both_throw n e same

  paste_text-Agrees :
      (text : Bytes) (n : ℕ) (a m : Machine)
      → Alike a m
      → Agrees (of_ran n (Run.paste_text world text a)) (Run.paste_text world text m)
  unfolding Run.paste_text
  paste_text-Agrees text n _ _ (alike {ctx} {files} {draws} {calls} done acts e) =
      chosen-Agrees (is_empty text) (interpolate (world.clock calls) ctx text) n
        (record { ctx = ctx; files = files; acts = done; draws = draws; calls = calls })
        (record { ctx = ctx; files = files; acts = acts; draws = draws; calls = calls })
        (alike done acts e)

  pub parts_loop-Agrees :
      (parts : List Part) (n : ℕ) (a m : Machine)
      → Alike a m
      → Agrees
          (parts_loop flag world parts (record { loads = n; machine = a }))
          (Run.parts_loop world parts m)
  unfolding parts_loop Run.parts_loop Run.and_then
  parts_loop-Agrees [] n a m same = both_go n same
  parts_loop-Agrees (key_part key count ∷ parts) n a m same =
      unless-Agrees flag world clear _ (record { loads = n; machine = a }) _
        (and_then-Agrees flag world clear _ (Run.tap_loop world key 5 (pos_part count) m)
          (parts_loop flag world parts) (Run.parts_loop world parts)
          (tap_loop-Agrees key 5 (pos_part count) (suc n) a m same)
          (λ k b s alike_machines. parts_loop-Agrees parts k b s alike_machines))
  parts_loop-Agrees (text_part text ∷ parts) n a m same =
      unless-Agrees flag world clear _ (record { loads = n; machine = a }) _
        (and_then-Agrees flag world clear _ (Run.paste_text world text m)
          (parts_loop flag world parts) (Run.parts_loop world parts)
          (paste_text-Agrees text (suc n) a m same)
          (λ k b s alike_machines. parts_loop-Agrees parts k b s alike_machines))
