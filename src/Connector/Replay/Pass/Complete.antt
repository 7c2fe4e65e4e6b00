-- ===== src/Connector/Replay/Pass/Complete.antt =====
-- A lane that gets enough turns attempts all its messages.
use clawdentity.Shared.{true, eq_refl, Memᴰ, filter-mem, length-filter-le, mem_of_filter}
use clawdentity.Connector.InboundInbox.Types.{PendingRow, to_pending_item}
use clawdentity.Connector.InboundInbox.Due.{is_due}
use clawdentity.Connector.InboundInbox.Listed.{listed}
use clawdentity.Connector.Replay.Lanes.{lane_key}
use clawdentity.Shared.{
  ℕ, ◌≤◌, ◌≡◌, refl, sym, ap, ◌∙◌, subst, String, false, Option, none, some, List, [], ◌∷◌, ◌++◌,
  All, filter, length, ◌==◌, Bool-cases, inl, inr, arith,
}
use mathlib.Core.List.{append-nil}
use clawdentity.Shared.Dict.{Dict, get}
use clawdentity.Connector.InboundInbox.Types.{InboundInboxItem}
use clawdentity.Connector.InboundInbox.Storage.{Database}
use clawdentity.Connector.InboundInbox.Calls.{InboxOptions}
use clawdentity.Connector.InboundInbox.Sound.{IsSound}
use clawdentity.Connector.Replay.Delivery.{InboundReplayPolicy}
use clawdentity.Connector.Replay.Lanes.Grouped.{or_empty, in_lane, group_due-lane}
use clawdentity.Connector.Replay.Pass.{
  Stage, delivering, accepted_by_hook, failed_with, to_lanes, Pass, PassStart, Turn, taken,
  begin_pass, replay_pending_inbound_messages,
}
use clawdentity.Connector.Replay.Pass.Attempted.{left, Fits}
use clawdentity.Connector.Replay.Pass.Order.{pass-InOrder}
use clawdentity.Connector.Replay.Lanes.{group_due_items_by_lane}
use mathlib.Core.Option.{map as map_option}
use clawdentity.Connector.Replay.Pass.Progress.{steps_left, steps_left-delivering}
use clawdentity.Connector.Replay.Pass.Rounds.{rounds, GoesOnIn, turns-Leaves}

to_lanes-get :
    (lanes : Dict (List InboundInboxItem)) (key : String) (items : List InboundInboxItem)
    → get lanes key ≡ some items
    → get (to_lanes lanes) key ≡ some (record { items = items; stage = delivering })
unfolding get to_lanes
to_lanes-get [] key items h = cc
to_lanes-get ((k, l) ∷ lanes) key items h = elim (Bool-cases (k == key)) [
  | inl same ↦
      let found : some l ≡ some items = rw same at h in
      rw same (ap (λ o. map_option (λ l. record { items = l; stage = delivering }) o) found)
  | inr differs ↦ rw differs (to_lanes-get lanes key items (rw differs at h))
]

none_left :
    (items : List InboundInboxItem) (stage : Stage)
    → steps_left items stage ≤ 0
    → left items stage ≡ []
none_left [] stage h = refl
none_left (x ∷ xs) delivering h = absurd (omega (arith, h))
none_left (x ∷ xs) accepted_by_hook h = absurd (omega (arith, h))
none_left (x ∷ xs) (failed_with e) h = absurd (omega (arith, h))

no_rest :
    (key : String) (due attempted rest : List InboundInboxItem)
    → rest ≡ []
    → filter (in_lane key) attempted ++ rest ≡ filter (in_lane key) due
    → filter (in_lane key) attempted ≡ filter (in_lane key) due
no_rest key due attempted rest e h =
    sym (append-nil _) ∙ ap (λ l. filter (in_lane key) attempted ++ l) (sym e) ∙ h

all_none : (xs ys : List InboundInboxItem) → xs ++ ys ≡ [] → xs ≡ []
all_none [] ys h = refl
all_none (x ∷ xs) ys h = cc

module _ (options : InboxOptions) (policy : InboundReplayPolicy) (to_iso : ℕ → String)
    (start : PassStart) (now_at : String) (ts : List Turn) (db : Database) (key : String) where
  abbrev due_now : List InboundInboxItem
  due_now = taken options policy to_iso start now_at db

  abbrev pass_of : Pass
  pass_of = replay_pending_inbound_messages options policy to_iso start now_at ts db

  all_attempted :
      (o : Option (List InboundInboxItem))
      → get (group_due_items_by_lane due_now) key ≡ o
      → IsSound db
      → All (GoesOnIn policy) ts
      → length (filter (in_lane key) due_now) ≤ rounds key false ts
      → filter (in_lane key) pass_of.attempted ≡ filter (in_lane key) due_now
  unfolding replay_pending_inbound_messages begin_pass
  all_attempted none found sound goes enough =
      let h = pass-InOrder options policy to_iso start now_at ts db key in
      let empty = sym (group_due-lane due_now key) ∙ ap or_empty found in
      all_none (filter (in_lane key) pass_of.attempted) h.rest (h.split ∙ empty) ∙ sym empty
  all_attempted (some items) found sound goes enough =
      let h = pass-InOrder options policy to_iso start now_at ts db key in
      let same = sym (ap or_empty found) ∙ group_due-lane due_now key in
      let ends =
        turns-Leaves options policy to_iso key ts false (length items)
          (begin_pass options policy to_iso start now_at db) goes
          (record {
            sound = sound;
            lane = record { items = items; stage = delivering };
            found = to_lanes-get (group_due_items_by_lane due_now) key items found;
            bound = omega (arith, steps_left-delivering items);
          }) in
      let done =
        none_left ends.lane.items ends.lane.stage
          (omega (arith, ends.bound, enough, ap length same)) in
      no_rest key due_now pass_of.attempted h.rest
        (sym (subst (Fits h.rest) ends.found h.fits) ∙ done) h.split

module _ (options : InboxOptions) (policy : InboundReplayPolicy) (to_iso : ℕ → String) where
  -- In a pass over sound tables, where no delivery ends by the runtime's end, all messages of one
  -- conversation, and of those that have none, that the pass took have been attempted, in the
  -- order of the inbox's list, once their lane has had a round for each of them, a delivery's end
  -- and after it the writing of its result: whatever turns of any lane and whatever calls of the
  -- inbox come before, between and after these.
  pub pass_attempts_all :
      (start : PassStart) (now_at : String) (ts : List Turn) (db : Database) (key : String)
      → IsSound db
      → All (GoesOnIn policy) ts
      → length (filter (in_lane key) (taken options policy to_iso start now_at db))
        ≤ rounds key false ts
      → filter
          (in_lane key)
          (replay_pending_inbound_messages options policy to_iso start now_at ts db).attempted
        ≡ filter (in_lane key) (taken options policy to_iso start now_at db)
  pass_attempts_all start now_at ts db key sound goes enough =
      all_attempted options policy to_iso start now_at ts db key
        (get (group_due_items_by_lane (taken options policy to_iso start now_at db)) key) refl sound
        goes enough

-- A pass that the runtime allows, with a token, a gateway and profiles.
abbrev pub ready : PassStart
ready = record {
  is_runtime_stopping = false;
  replay_in_flight = false;
  token_syncs = true;
  reachable = true;
  profiles_load = true;
}

module _ (options : InboxOptions) (policy : InboundReplayPolicy) (to_iso : ℕ → String) where
  -- In a pass over sound tables that finds the token, the gateway and the profiles, a pending
  -- message that is due at its start, in an inbox with no more messages than the batch size, has
  -- been attempted once its lane has had a round for each message that the pass took: whatever
  -- other turns and calls of the inbox there are, as long as no delivery ends by the runtime's end.
  pub due_attempted :
      (now_at id : String) (row : PendingRow) (ts : List Turn) (db : Database)
      → IsSound db
      → get db.pending id ≡ some row
      → is_due now_at row ≡ true
      → length db.pending ≤ policy.batch_size
      → All (GoesOnIn policy) ts
      → length (taken options policy to_iso ready now_at db)
        ≤ rounds (lane_key (to_pending_item row)) false ts
      → Memᴰ
          (to_pending_item row)
          (replay_pending_inbound_messages options policy to_iso ready now_at ts db).attempted
  unfolding taken
  due_attempted now_at id row ts db sound found due room goes enough =
      let item = to_pending_item row in
      let key = lane_key item in
      let list = taken options policy to_iso ready now_at db in
      let s = replay_pending_inbound_messages options policy to_iso ready now_at ts db in
      let all =
        pass_attempts_all options policy to_iso ready now_at ts db key sound goes
          (omega (arith, enough, length-filter-le (in_lane key) list)) in
      mem_of_filter (in_lane key) s.attempted (
        subst (Memᴰ item) (sym all) (
          filter-mem (in_lane key) list (listed now_at id policy.batch_size row db found due room)
            (eq_refl key)))
