-- ===== src/Connector/Replay/Lanes/Grouped.antt =====
-- Each lane has the due messages of its key, in their order.
use clawdentity.Shared.{
  ◌≡◌, refl, sym, ap, ◌∙◌, String, Bool, Option, none, some, List, [], ◌∷◌, ◌++◌, filter, ◌==◌,
  eq_iff, if◌then◌else◌, Bool-cases, inl, inr,
}
use mathlib.Core.List.{append_assoc, append-nil}
use clawdentity.Shared.Dict.{Dict, get, get-set}
use clawdentity.Connector.InboundInbox.Types.{InboundInboxItem}
use clawdentity.Connector.Replay.Lanes.{lane_key, push, group_from, group_due_items_by_lane}

-- The messages of a lane that there may not be.
abbrev pub or_empty : Option (List InboundInboxItem) → List InboundInboxItem
or_empty none = []
or_empty (some lane) = lane

abbrev pub in_lane : String → InboundInboxItem → Bool
in_lane key item = lane_key item == key

get-push :
    (lanes : Dict (List InboundInboxItem)) (item : InboundInboxItem) (key : String)
    (o : Option (List InboundInboxItem))
    → get lanes (lane_key item) ≡ o
    → or_empty (get (push lanes item o) key)
      ≡ or_empty (get lanes key) ++ (if in_lane key item then item ∷ [] else [])
unfolding push
get-push lanes item key none h = elim (Bool-cases (lane_key item == key)) [
  | inl same ↦
      rw
        (
          get-set lanes (lane_key item) key (item ∷ []),
          same,
          ← (eq_iff (lane_key item) key).0 same,
          h,
        )
        refl
  | inr other ↦ rw (get-set lanes (lane_key item) key (item ∷ []), other) (sym (append-nil _))
]
get-push lanes item key (some lane) h = elim (Bool-cases (lane_key item == key)) [
  | inl same ↦
      rw
        (
          get-set lanes (lane_key item) key (lane ++ (item ∷ [])),
          same,
          ← (eq_iff (lane_key item) key).0 same,
          h,
        )
        refl
  | inr other ↦
      rw (get-set lanes (lane_key item) key (lane ++ (item ∷ [])), other) (sym (append-nil _))
]

pub filter_step :
    (key : String) (item : InboundInboxItem) (due : List InboundInboxItem)
    → (if in_lane key item then item ∷ [] else []) ++ filter (in_lane key) due
      ≡ filter (in_lane key) (item ∷ due)
unfolding filter
filter_step key item due = elim (Bool-cases (lane_key item == key)) [
  | inl same ↦ rw same refl
  | inr other ↦ rw other refl
]

group_lem :
    (lanes : Dict (List InboundInboxItem)) (due : List InboundInboxItem) (key : String)
    → or_empty (get (group_from lanes due) key)
      ≡ or_empty (get lanes key) ++ filter (in_lane key) due
unfolding group_from filter
group_lem lanes [] key = sym (append-nil _)
group_lem lanes (item ∷ due) key =
    group_lem (push lanes item (get lanes (lane_key item))) due key
    ∙ ap (λ l. l ++ filter (in_lane key) due)
        (get-push lanes item key (get lanes (lane_key item)) refl)
    ∙ append_assoc (or_empty (get lanes key)) _ _
    ∙ ap (λ l. or_empty (get lanes key) ++ l) (filter_step key item due)

pub group_due-lane :
    (due : List InboundInboxItem) (key : String)
    → or_empty (get (group_due_items_by_lane due) key) ≡ filter (in_lane key) due
unfolding group_due_items_by_lane get
group_due-lane due key = group_lem [] due key
