-- ===== src/Connector/Replay/Pass/Order.antt =====
-- The messages of one lane are attempted in their order.
use clawdentity.Shared.{
  ℕ, ◌≡◌, refl, sym, subst, String, Bool, true, false, Option, none, some, List, [], ◌∷◌, ◌++◌,
  filter, ◌==◌, Bool-cases, inl, inr,
}
use clawdentity.Shared.Dict.{Dict, get, set, delete, get-set, get-delete}
use clawdentity.Connector.InboundInbox.Types.{InboundInboxItem}
use clawdentity.Connector.InboundInbox.Storage.{Database}
use clawdentity.Connector.InboundInbox.Calls.{InboxOptions, mark_delivered, mark_replay_failure}
use clawdentity.Connector.InboundInbox.Runs.{call}
use clawdentity.Connector.Replay.Delivery.{
  DeliveryError, InboundReplayPolicy, Tries, deliver_to_delivery_webhook_hook_with_retry,
}
use clawdentity.Connector.Replay.Lanes.{group_due_items_by_lane}
use clawdentity.Connector.Replay.Lanes.Grouped.{or_empty, in_lane, group_due-lane}
use clawdentity.Connector.Replay.Pass.{
  Stage, delivering, accepted_by_hook, failed_with, Lane, Pass, PassStart, Turn, delivery_ends,
  settles, calls, to_lanes, lane_ends_delivery, settle_accepted, settle_failed, replay_failure,
  lane_settles, after_call, turn, turns, taken, begin_pass, replay_pending_inbound_messages,
}
use clawdentity.Connector.Replay.Pass.Attempted.{
  left, Fits, left-delivering, InOrder, same_left, AllInOrder, move_lane, end_delivery-order,
}

to_lanes-left :
    (lanes : Dict (List InboundInboxItem)) (key : String)
    → Fits (or_empty (get lanes key)) (get (to_lanes lanes) key)
unfolding to_lanes get
to_lanes-left [] key = tt
to_lanes-left ((k, items) ∷ lanes) key = elim (Bool-cases (k == key)) [
  | inl same ↦ rw same (left-delivering items)
  | inr differs ↦ rw differs (to_lanes-left lanes key)
]

module _ (options : InboxOptions) (policy : InboundReplayPolicy) (to_iso : ℕ → String)
    (due : List InboundInboxItem) where
  abbrev Ordered : Pass → Type 0
  Ordered s = AllInOrder due s.attempted s.lanes

  -- A lane goes on to its rest, or to another stage of its first message.
  go_on :
      (key : String) (lane lane' : Lane) (s : Pass)
      → Ordered s
      → InOrder due key s.attempted (some lane)
      → left lane'.items lane'.stage ≡ left lane.items lane.stage
      → AllInOrder due s.attempted (set s.lanes key lane')
  go_on key lane lane' s h here same =
      move_lane due key s.attempted s.lanes _ (some lane') (λ k. get-set s.lanes key k lane') h
        (same_left due key s.attempted lane (some lane') here same)

  drop :
      (key : String) (lane : Lane) (s : Pass)
      → Ordered s
      → InOrder due key s.attempted (some lane)
      → AllInOrder due s.attempted (delete s.lanes key)
  drop key lane s h here =
      move_lane due key s.attempted s.lanes _ none (get-delete s.lanes key) h
        (same_left due key s.attempted lane none here tt)

  delivery-order :
      (key : String) (tries : Tries) (items : List InboundInboxItem) (stage : Stage) (s : Pass)
      → InOrder due key s.attempted (some (record { items = items; stage = stage }))
      → Ordered s
      → Ordered (lane_ends_delivery options policy to_iso key tries items stage s)
  unfolding lane_ends_delivery
  delivery-order key tries [] stage s here h = h
  delivery-order key tries (pending ∷ rest) delivering s here h =
      end_delivery-order due key pending rest s
        (deliver_to_delivery_webhook_hook_with_retry policy tries) h
        (subst (λ l. filter (in_lane key) s.attempted ++ l ≡ filter (in_lane key) due)
          (sym here.fits) here.split)
  delivery-order key tries (pending ∷ rest) accepted_by_hook s here h = h
  delivery-order key tries (pending ∷ rest) (failed_with e) s here h = h

  module _ (key : String) (pending : InboundInboxItem) (rest : List InboundInboxItem) (s : Pass)
      (h : Ordered s) where
    accepted-order :
        (thrown : String) (o : Option {0} (Database × Unit {0}))
        → InOrder due key s.attempted
            (some (record { items = pending ∷ rest; stage = accepted_by_hook }))
        → Ordered (settle_accepted options policy to_iso key thrown pending rest o s)
    unfolding settle_accepted
    accepted-order thrown none here = go_on key _ _ s h here refl
    accepted-order thrown (some (db, x)) here = go_on key _ _ s h here (left-delivering rest)

    failed-order :
        (e : DeliveryError) (o : Option (Database × Bool))
        → InOrder due key s.attempted
            (some (record { items = pending ∷ rest; stage = failed_with e }))
        → Ordered (settle_failed options policy to_iso key pending rest e o s)
    unfolding settle_failed
    failed-order e none here = drop key _ s h here
    failed-order e (some (db, false)) here = go_on key _ _ s h here (left-delivering rest)
    failed-order e (some (db, true)) here = go_on key _ _ s h here (left-delivering rest)

  settles-order :
      (key now : String) (now_ms : ℕ) (thrown : String) (items : List InboundInboxItem)
      (stage : Stage) (s : Pass)
      → InOrder due key s.attempted (some (record { items = items; stage = stage }))
      → Ordered s
      → Ordered (lane_settles options policy to_iso key now now_ms thrown items stage s)
  unfolding lane_settles
  settles-order key now now_ms thrown [] stage s here h = h
  settles-order key now now_ms thrown (pending ∷ rest) delivering s here h = h
  settles-order key now now_ms thrown (pending ∷ rest) accepted_by_hook s here h =
      accepted-order key pending rest s h thrown (mark_delivered options pending.request_id s.db)
        here
  settles-order key now now_ms thrown (pending ∷ rest) (failed_with e) s here h =
      failed-order key pending rest s h e
        (mark_replay_failure options now (replay_failure options policy to_iso now_ms pending e)
          s.db)
        here

  call-order :
      (o : Option {0} (Database × Unit {0})) (s : Pass)
      → Ordered s
      → Ordered (after_call options policy to_iso o s)
  unfolding after_call
  call-order none s h = h
  call-order (some (db, x)) s h = h

  turn-order : (t : Turn) (s : Pass) → Ordered s → Ordered (turn options policy to_iso t s)
  unfolding turn
  turn-order (delivery_ends key tries) s h = at (get s.lanes key) (h key)
    where
      at :
          (o : Option Lane)
          → InOrder due key s.attempted o
          → Ordered (elim o [
            | none ↦ s
            | some lane ↦ lane_ends_delivery options policy to_iso key tries lane.items lane.stage s
          ])
      at none here = h
      at (some lane) here = delivery-order key tries lane.items lane.stage s here h
  turn-order (settles key now now_ms thrown) s h = at (get s.lanes key) (h key)
    where
      at :
          (o : Option Lane)
          → InOrder due key s.attempted o
          → Ordered (elim o [
            | none ↦ s
            | some lane ↦
                lane_settles options policy to_iso key now now_ms thrown lane.items lane.stage s
          ])
      at none here = h
      at (some lane) here = settles-order key now now_ms thrown lane.items lane.stage s here h
  turn-order (calls c) s h = call-order (call options c s.db) s h

  turns-order : (ts : List Turn) (s : Pass) → Ordered s → Ordered (turns options policy to_iso ts s)
  unfolding turns
  turns-order [] s h = h
  turns-order (t ∷ ts) s h = turns-order ts (turn options policy to_iso t s) (turn-order t s h)

  begin-order :
      (lanes : Dict (List InboundInboxItem)) (key : String)
      → or_empty (get lanes key) ≡ filter (in_lane key) due
      → InOrder due key [] (get (to_lanes lanes) key)
  unfolding filter
  begin-order lanes key e = record {
    rest = or_empty (get lanes key);
    split = e;
    fits = to_lanes-left lanes key;
  }

module _ (options : InboxOptions) (policy : InboundReplayPolicy) (to_iso : ℕ → String) where
  pub pass-InOrder :
      (start : PassStart) (now_at : String) (ts : List Turn) (db : Database) (key : String)
      → let s = replay_pending_inbound_messages options policy to_iso start now_at ts db in
        InOrder (taken options policy to_iso start now_at db) key s.attempted (get s.lanes key)
  unfolding replay_pending_inbound_messages begin_pass
  pass-InOrder start now_at ts db key =
      let due = taken options policy to_iso start now_at db in
      turns-order options policy to_iso due ts (begin_pass options policy to_iso start now_at db)
        (λ k.
          begin-order options policy to_iso due (group_due_items_by_lane due) k
            (group_due-lane due k))
        key

  -- Of the messages of one conversation, and of those that have none, the ones whose delivery has
  -- ended are at any time the first of those that the pass took, in the order of the inbox's list,
  -- and each as often as there: whatever the deliveries give, in whatever order the lanes take
  -- turns, and whatever calls of the inbox come between.
  pub pass_in_order :
      (start : PassStart) (now_at : String) (ts : List Turn) (db : Database) (key : String)
      → let s = replay_pending_inbound_messages options policy to_iso start now_at ts db in
        (rest : List InboundInboxItem) × (filter (in_lane key) s.attempted ++ rest
          ≡ filter (in_lane key) (taken options policy to_iso start now_at db))
  pass_in_order start now_at ts db key =
      let h = pass-InOrder start now_at ts db key in (h.rest, h.split)
