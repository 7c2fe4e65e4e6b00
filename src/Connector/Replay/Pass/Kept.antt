-- ===== src/Connector/Replay/Pass/Kept.antt =====
-- A message leaves the inbox, and its delivery is reported, only if the webhook accepted it.
use clawdentity.Shared.{
  ℕ, ◌≡◌, refl, ap, String, Bool, true, false, Option, none, some, List, [], ◌∷◌, All,
}
use clawdentity.Shared.Dict.{get}
use clawdentity.Connector.InboundInbox.Types.{InboundInboxItem}
use clawdentity.Connector.InboundInbox.Storage.{Database, get_pending}
use clawdentity.Connector.InboundInbox.Calls.{InboxOptions, mark_replay_failure}
use clawdentity.Connector.InboundInbox.Sound.{IsSound, Succeeds}
use clawdentity.Connector.InboundInbox.Preserved.{mark_delivered-Succeeds, mark_failure-Succeeds}
use clawdentity.Connector.InboundInbox.Kept.{payload_of, Keeps, delivered-Keeps, fail_row-Keeps}
use clawdentity.Connector.InboundInbox.Runs.{call-Succeeds, call-Keeps}
use clawdentity.Connector.Replay.Delivery.{DeliveryError, InboundReplayPolicy, Tries}
use clawdentity.Connector.Replay.Pass.{
  Stage, delivering, accepted_by_hook, failed_with, Lane, delivered_to_webhook, dead_lettered,
  receipt, Pass, PassStart, Turn, delivery_ends, settles, calls, lane_ends_delivery,
  settle_accepted, settle_failed, replay_failure, lane_settles, after_call, turn, turns, begin_pass,
  replay_pending_inbound_messages,
}
use clawdentity.Connector.Replay.Pass.Holds.{
  is_accepted, Marked, MarkedAt, IsHonest, SparesIn, Holds, to_lanes-Marked, put_lane-Holds,
  end_delivery-Holds, db-Holds, receipt-Holds, start-MarkedAt,
}

module _ (options : InboxOptions) (policy : InboundReplayPolicy) (to_iso : ℕ → String)
    (id payload : String) where
  delivery-Holds :
      (key : String) (tries : Tries) (items : List InboundInboxItem) (stage : Stage) (s : Pass)
      → Holds id payload s
      → Holds id payload (lane_ends_delivery options policy to_iso key tries items stage s)
  unfolding lane_ends_delivery
  delivery-Holds key tries [] stage s h = h
  delivery-Holds key tries (pending ∷ rest) delivering s h =
      end_delivery-Holds id payload key pending rest _ s h
  delivery-Holds key tries (pending ∷ rest) accepted_by_hook s h = h
  delivery-Holds key tries (pending ∷ rest) (failed_with e) s h = h

  accepted-Holds :
      (key thrown : String) (pending : InboundInboxItem) (rest : List InboundInboxItem)
      (o : Option {0} (Database × Unit {0})) (s : Pass)
      → Succeeds o
      → (is_accepted s.accepted id ≡ false → Keeps id payload o)
      → is_accepted s.accepted pending.request_id ≡ true
      → Holds id payload s
      → Holds id payload (settle_accepted options policy to_iso key thrown pending rest o s)
  unfolding settle_accepted
  accepted-Holds key thrown pending rest none s ok keeps marked h = absurd ok
  accepted-Holds key thrown pending rest (some (db, x)) s ok keeps marked h =
      put_lane-Holds id payload key rest delivering _ (start-MarkedAt s.accepted rest) (
        receipt-Holds id payload (receipt pending delivered_to_webhook none) _ marked
          (db-Holds id payload db s ok keeps h))

  failed-Holds :
      (key : String) (pending : InboundInboxItem) (rest : List InboundInboxItem) (e : DeliveryError)
      (o : Option (Database × Bool)) (s : Pass)
      → Succeeds o
      → (is_accepted s.accepted id ≡ false → Keeps id payload o)
      → Holds id payload s
      → Holds id payload (settle_failed options policy to_iso key pending rest e o s)
  unfolding settle_failed
  failed-Holds key pending rest e none s ok keeps h = absurd ok
  failed-Holds key pending rest e (some (db, false)) s ok keeps h =
      put_lane-Holds id payload key rest delivering _ (start-MarkedAt s.accepted rest)
        (db-Holds id payload db s ok keeps h)
  failed-Holds key pending rest e (some (db, true)) s ok keeps h =
      put_lane-Holds id payload key rest delivering _ (start-MarkedAt s.accepted rest) (
        receipt-Holds id payload (receipt pending dead_lettered (some e.reason)) _ tt
          (db-Holds id payload db s ok keeps h))

  settles-Holds :
      (key now : String) (now_ms : ℕ) (thrown : String) (items : List InboundInboxItem)
      (stage : Stage) (s : Pass)
      → MarkedAt s.accepted items stage
      → Holds id payload s
      → Holds id payload (lane_settles options policy to_iso key now now_ms thrown items stage s)
  unfolding lane_settles mark_replay_failure get_pending
  settles-Holds key now now_ms thrown [] stage s m h = h
  settles-Holds key now now_ms thrown (pending ∷ rest) delivering s m h = h
  settles-Holds key now now_ms thrown (pending ∷ rest) accepted_by_hook s m h =
      accepted-Holds key thrown pending rest _ s
        (mark_delivered-Succeeds options pending.request_id s.db h.sound)
        (λ e.
          delivered-Keeps options id payload pending.request_id s.db
            (λ same. cc (m, e, ap (is_accepted s.accepted) same)) (h.kept e))
        m h
  settles-Holds key now now_ms thrown (pending ∷ rest) (failed_with e) s m h =
      let input = replay_failure options policy to_iso now_ms pending e in
      failed-Holds key pending rest e _ s (mark_failure-Succeeds options now input s.db h.sound)
        (λ no.
          fail_row-Keeps options id payload now input (get s.db.pending input.request_id) s.db refl
            h.sound (h.kept no))
        h

  call-Holds :
      (o : Option {0} (Database × Unit {0})) (s : Pass)
      → Succeeds o
      → (is_accepted s.accepted id ≡ false → Keeps id payload o)
      → Holds id payload s
      → Holds id payload (after_call options policy to_iso o s)
  unfolding after_call
  call-Holds none s ok keeps h = h
  call-Holds (some (db, x)) s ok keeps h = db-Holds id payload db s ok keeps h

  turn-Holds :
      (t : Turn) (s : Pass)
      → SparesIn id t
      → Holds id payload s
      → Holds id payload (turn options policy to_iso t s)
  unfolding turn
  turn-Holds (delivery_ends key tries) s spares h = at (get s.lanes key)
    where
      at :
          (o : Option Lane)
          → Holds id payload (elim o [
            | none ↦ s
            | some lane ↦ lane_ends_delivery options policy to_iso key tries lane.items lane.stage s
          ])
      at none = h
      at (some lane) = delivery-Holds key tries lane.items lane.stage s h
  turn-Holds (settles key now now_ms thrown) s spares h = at (get s.lanes key) (h.marked key)
    where
      at :
          (o : Option Lane)
          → Marked s.accepted o
          → Holds id payload (elim o [
            | none ↦ s
            | some lane ↦
                lane_settles options policy to_iso key now now_ms thrown lane.items lane.stage s
          ])
      at none m = h
      at (some lane) m = settles-Holds key now now_ms thrown lane.items lane.stage s m h
  turn-Holds (calls c) s spares h =
      call-Holds _ s (call-Succeeds options c s.db h.sound)
        (λ e. call-Keeps options id payload c s.db spares h.sound (h.kept e)) h

  turns-Holds :
      (ts : List Turn) (s : Pass)
      → All (SparesIn id) ts
      → Holds id payload s
      → Holds id payload (turns options policy to_iso ts s)
  unfolding turns
  turns-Holds [] s spares h = h
  turns-Holds (t ∷ ts) s (sp, spares) h =
      turns-Holds ts (turn options policy to_iso t s) spares (turn-Holds t s sp h)

  -- In a pass over sound tables a message that is in the inbox stays there with its payload,
  -- pending or as a dead letter, unless the webhook accepted it in this pass, and a receipt
  -- reports a delivery only of a message that the webhook accepted: whatever the deliveries give,
  -- in whatever order the lanes take turns, and whatever other calls come between, as long as none
  -- of these marks the message as delivered or purges dead letters.
  pub pass_keeps :
      (start : PassStart) (now_at : String) (ts : List Turn) (db : Database)
      → IsSound db
      → payload_of id db ≡ some payload
      → All (SparesIn id) ts
      → let s = replay_pending_inbound_messages options policy to_iso start now_at ts db in
        (is_accepted s.accepted id ≡ false → payload_of id s.db ≡ some payload)
        × All (IsHonest s.accepted) s.receipts
  unfolding replay_pending_inbound_messages begin_pass
  pass_keeps start now_at ts db sound here spares =
      let h =
        turns-Holds ts (begin_pass options policy to_iso start now_at db) spares (record {
          sound = sound;
          kept = λ e. here;
          marked = to_lanes-Marked [] _;
          honest = tt;
        }) in
      (h.kept, h.honest)
