-- ===== src/Daemon/Typed.antt =====
-- The ring of the daemon is the history of the keys typed since the last macro.
use ahk_unix.Base.{ℕ, ◌≤◌, ◌<◌, max, Bool, true, ◌&&◌, List, [], ◌∷◌, ◌≡◌, ◌↔◌, refl, arith, length}
use ahk_unix.Ring.History.{seen, EndsWith, ends_with-seen}
use ahk_unix.Hotstring.{Hotstring}
use ahk_unix.Daemon.{DaemonState, max_trigger_from, ring_capacity}
use ahk_unix.Daemon.Match.{modifiers_match}
use ahk_unix.Daemon.Longest.{In, here, there, fires, size}

max_trigger_from-start : (hotstrings : List Hotstring) (m : ℕ) → m ≤ max_trigger_from m hotstrings
unfolding max_trigger_from
max_trigger_from-start [] m = omega arith
max_trigger_from-start (hs ∷ rest) m =
    omega (arith, max_trigger_from-start rest (max m (length hs.trigger_keys)))

max_trigger_from-In :
    (hs : Hotstring) (hotstrings : List Hotstring) (m : ℕ)
    → In hs hotstrings
    → size hs ≤ max_trigger_from m hotstrings
unfolding max_trigger_from
max_trigger_from-In hs _ m (here {xs = rest}) =
    omega (arith, max_trigger_from-start rest (max m (length hs.trigger_keys)))
max_trigger_from-In hs (h ∷ rest) m (there i) =
    max_trigger_from-In hs rest (max m (length h.trigger_keys)) i

-- Every trigger fits into the ring.
pub ring_capacity-In :
    (hotstrings : List Hotstring) (hs : Hotstring)
    → In hs hotstrings
    → size hs < ring_capacity hotstrings
unfolding ring_capacity
ring_capacity-In hotstrings hs i = omega (arith, max_trigger_from-In hs hotstrings 16 i)

pub ring_capacity_pos : (hotstrings : List Hotstring) → 0 < ring_capacity hotstrings
unfolding ring_capacity
ring_capacity_pos hotstrings = omega arith

-- A daemon whose ring has the capacity for its hotstrings and has seen the keys `history` since it
-- was empty: one of its hotstrings fires exactly if the history ends with the trigger and the
-- modifiers are held, however long the history is.
pub fires-history :
    (d : DaemonState) (history : List ℕ) (hs : Hotstring)
    → d.ring ≡ seen (ring_capacity d.hotstrings) history
    → In hs d.hotstrings
    → (fires d.ring d.pressed_keys hs ≡ true) ↔ (
        EndsWith history hs.trigger_keys
        × (modifiers_match d.pressed_keys hs.trigger_modifiers ≡ true))
fires-history d history hs same i =
    let (to, from) =
      ends_with-seen (ring_capacity d.hotstrings) history hs.trigger_keys
        (ring_capacity_pos d.hotstrings) (omega (arith, ring_capacity-In d.hotstrings hs i)) in
    rw same ((λ f. (to (and_parts _ _ f).0, (and_parts _ _ f).1)), (λ p. rw (from p.0, p.1) refl))
  where
    and_parts : (a b : Bool) → (a && b) ≡ true → (a ≡ true) × (b ≡ true)
    and_parts a b e = ground (arith, e)
