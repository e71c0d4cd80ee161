-- ===== src/Daemon/Tests.antt =====
-- Examples of the daemon: two hotstrings, one trigger at the end of the other.
use ahk_unix.Base.{true, List, [], ◌∷◌, ◌++◌, ◌≡◌, ◌↔◌, refl, some, none}
use ahk_unix.Base.Int.{pos}
use ahk_unix.Ring.{ends_with}
use ahk_unix.Daemon.Ringed.{typed_after, handle_event-seen}
use ahk_unix.Ring.History.{push_all, seen, EndsWith}
use ahk_unix.Command.{cancel, nil, cons}
use ahk_unix.Hotstring.{Hotstring, empty_hotstring}
use ahk_unix.Daemon.{RawEvent, DaemonState, ring_capacity}
use ahk_unix.Daemon.Match.{modifiers_match, match_step, match_loop, find_match}
use ahk_unix.Daemon.Longest.{here, there, fires, size, NoneFrom, NoneAbove, find_match-longest}
use ahk_unix.Daemon.Typed.{fires-history}
use ahk_unix.Daemon.Handler.{handle_event, initial_daemon}
use ahk_unix.Daemon.Effect.{matched, Acted, Kept, handle_event-effect}

abbrev pub short : Hotstring
short = record empty_hotstring { trigger_keys = 4 ∷ []; replacement_utf8 = 97 ∷ [] }

abbrev pub long : Hotstring
long = record empty_hotstring { trigger_keys = 3 ∷ 4 ∷ []; commands = cons cancel nil }

abbrev pub start : DaemonState
start = initial_daemon (short ∷ long ∷ [])

abbrev pub typed : DaemonState
typed = record start { ring = record { capacity = 24; keys = 3 ∷ 4 ∷ [] } }

typed_match : find_match typed ≡ some long
unfolding find_match match_loop match_step ends_with
typed_match = refl

pub start_match : find_match start ≡ none
unfolding find_match match_loop match_step ends_with
start_match = refl

find_match-longest_example :
    (before after : List Hotstring) × (typed.hotstrings ≡ before ++ long ∷ after)
    × (fires typed.ring typed.pressed_keys long ≡ true)
    × NoneFrom typed.ring typed.pressed_keys (size long) before
    × NoneAbove typed.ring typed.pressed_keys (size long) after
find_match-longest_example = find_match-longest typed long typed_match

abbrev with_history : DaemonState
with_history = record start { ring = seen (ring_capacity start.hotstrings) (3 ∷ 4 ∷ []) }

fires-history_example : (fires with_history.ring with_history.pressed_keys long ≡ true) ↔ (
    EndsWith (3 ∷ 4 ∷ []) long.trigger_keys
    × (modifiers_match with_history.pressed_keys long.trigger_modifiers ≡ true))
fires-history_example = fires-history with_history (3 ∷ 4 ∷ []) long refl (there here)

abbrev pub press : RawEvent
press = record { type = 1; code = 4; value = pos 1 }

handle_event-effect_example :
    Acted (matched press typed) typed (handle_event press typed)
    × Kept typed (handle_event press typed)
    × ((handle_event press typed).forwarded ≡ typed.forwarded ++ press ∷ [])
handle_event-effect_example = handle_event-effect press typed

start_empty : start.ring ≡ seen (ring_capacity start.hotstrings) []
unfolding push_all
start_empty = refl

handle_event-seen_example :
    (handle_event press start).ring
    ≡ seen (ring_capacity start.hotstrings) (typed_after press start [])
handle_event-seen_example =
    handle_event-seen press start (ring_capacity start.hotstrings) [] start_empty

abbrev alt_up : RawEvent
alt_up = record { type = 1; code = 56; value = pos 0 }
