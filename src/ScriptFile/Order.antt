-- ===== src/ScriptFile/Order.antt =====
-- The loop of `parse_file` keeps the triggers: none is lost, doubled or moved.
use ahk_unix.Base.{
  ℕ, Bool, List, [], ◌∷◌, ◌++◌, map, if◌then◌else◌, ◌≡◌, inl, inr, refl, sym, ap, ◌∙◌, arith,
  append-nil, append_assoc, Bool-cases, Bytes, is_empty, ok, >>=-eq-ok,
}
use mathlib.Core.List.{map-append}
use ahk_unix.Hotstring.{Hotstring, empty_hotstring}
use ahk_unix.ScriptFile.Body.{next_is_trigger, collect_block, parse_body}
use ahk_unix.ScriptFile.Loop.{
  FileState, with_body, flush_pending, located, front_line, is_inline, trigger_line,
}

-- What makes a hotstring fire, and whether its trigger is erased.
pub record TriggerOf : Type 0 where
  pub keys : List ℕ
  pub modifiers : List ℕ
  pub erase : Bool

abbrev pub trigger_of : Hotstring → TriggerOf
trigger_of hs = record {
  keys = hs.trigger_keys;
  modifiers = hs.trigger_modifiers;
  erase = hs.erase_trigger;
}

abbrev pub pending_trigger : Hotstring × ℕ → TriggerOf
pending_trigger (hs, i) = trigger_of hs

-- The triggers of the hotstrings found, then those that wait for a body.
abbrev pub triggers : FileState → List TriggerOf
triggers st = map trigger_of st.hotstrings ++ map pending_trigger st.pending

map-with_body :
    (tpl : Hotstring) (pending : List (Hotstring × ℕ))
    → map trigger_of (map (with_body tpl) pending) ≡ map pending_trigger pending
map-with_body tpl [] = refl
map-with_body tpl ((hs, i) ∷ pending) = ap (◌∷◌ (trigger_of hs)) (map-with_body tpl pending)

pub flush_pending-triggers :
    (tpl : Hotstring) (st : FileState) → triggers (flush_pending tpl st) ≡ triggers st
unfolding flush_pending
flush_pending-triggers tpl st =
    append-nil _
    ∙ map-append trigger_of st.hotstrings (map (with_body tpl) st.pending)
    ∙ ap (λ ts. map trigger_of st.hotstrings ++ ts) (map-with_body tpl st.pending)

push_pending-triggers :
    (st : FileState) (hs : Hotstring) (i : ℕ)
    → triggers (record st { pending = st.pending ++ (hs, i) ∷ [] })
      ≡ triggers st ++ trigger_of hs ∷ []
push_pending-triggers st hs i =
    ap (λ ts. map trigger_of st.hotstrings ++ ts)
      (map-append pending_trigger st.pending ((hs, i) ∷ []))
    ∙ sym (
        append_assoc (map trigger_of st.hotstrings) (map pending_trigger st.pending)
          (trigger_of hs ∷ []))

-- The state with no trigger waiting, at an inline hotstring.
settle : FileState → FileState
settle st = if is_empty st.pending then st else flush_pending empty_hotstring st

settle-triggers :
    (st : FileState) → (triggers (settle st) ≡ triggers st) × ((settle st).pending ≡ [])
unfolding settle flush_pending
settle-triggers st = elim (Bool-cases (is_empty st.pending)) [
  | inl e ↦ rw e (refl, ground arith)
  | inr e ↦ rw e (flush_pending-triggers empty_hotstring st, refl)
]

inline-triggers :
    (st : FileState) (hs : Hotstring)
    → triggers (record (settle st) { hotstrings = (settle st).hotstrings ++ hs ∷ [] })
      ≡ triggers st ++ trigger_of hs ∷ []
inline-triggers st hs =
    let (same, none_left) = settle-triggers st in
    let found = (settle st).hotstrings in
    let before : map trigger_of found ≡ triggers st =
      sym (append-nil _)
      ∙ ap (λ ps. map trigger_of found ++ map pending_trigger ps) (sym none_left)
      ∙ same in
    ap (λ ps. map trigger_of (found ++ hs ∷ []) ++ map pending_trigger ps) none_left
    ∙ append-nil _
    ∙ map-append trigger_of found (hs ∷ [])
    ∙ ap (λ ts. ts ++ trigger_of hs ∷ []) before

pub trigger_line-triggers :
    (path : Bytes) (i : ℕ) (hs : Hotstring) (rest : List Bytes) (st next : FileState)
    (left : List Bytes)
    → trigger_line path i hs rest st ≡ ok (next, left)
    → triggers next ≡ triggers st ++ trigger_of hs ∷ []
unfolding trigger_line settle
trigger_line-triggers path i hs rest st next left e =
    let waiting = record st { pending = st.pending ++ (hs, i) ∷ [] } in
    elim (Bool-cases (is_inline hs)) [
      | inl inline ↦
          let same : record (settle st) { hotstrings = (settle st).hotstrings ++ hs ∷ [] } ≡ next =
            ground (arith, inline) in
          rw (← same) (inline-triggers st hs)
      | inr body ↦ elim (Bool-cases (next_is_trigger rest)) [
        | inl more ↦
            let same : waiting ≡ next = ground (arith, body, more) in
            rw (← same) (push_pending-triggers st hs i)
        | inr last ↦
            let parsed =
              located path (front_line waiting.pending) (parse_body (collect_block 0 rest)) in
            let (tpl, _, made) =
              >>=-eq-ok {B = FileState × List Bytes} parsed
                (λ tpl. ok (flush_pending tpl waiting, (collect_block 0 rest).behind))
                {b = (next, left)} (ground (arith, body, last)) in
            let same : flush_pending tpl waiting ≡ next = cc in
            rw (← same) (flush_pending-triggers tpl waiting ∙ push_pending-triggers st hs i)
      ]
    ]
