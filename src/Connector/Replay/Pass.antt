-- ===== src/Connector/Replay/Pass.antt =====
-- packages/connector/src/runtime/replay.ts: `replayPendingInboundMessages`. A pass is run by turns:
-- each one is a stretch of one lane between two waits, or another call of the inbox, which may come
-- between any two of them. The status that is only reported is left out.
pub mod Holds
pub mod Kept
pub mod Attempted
pub mod Order
pub mod Progress
pub mod Rounds
pub mod Complete
use clawdentity.Shared.{
  ℕ, ◌+◌, ◌*◌, String, Bool, true, false, not, ◌||◌, Option, none, some, List, [], ◌∷◌, ◌++◌,
  if◌then◌else◌,
}
use clawdentity.Shared.Dict.{Dict, get, set, delete}
use clawdentity.Connector.InboundInbox.Types.{InboundInboxItem}
use clawdentity.Connector.InboundInbox.Storage.{Database}
use clawdentity.Connector.InboundInbox.Calls.{
  InboxOptions, ReplayFailure, mark_delivered, mark_replay_failure,
}
use clawdentity.Connector.InboundInbox.Due.{list_due_pending}
use clawdentity.Connector.InboundInbox.Runs.{Call, call}
use clawdentity.Connector.Replay.Delivery.{
  ErrorCode, hook_auth_rejected, runtime_stopping, other, DeliveryError, InboundReplayPolicy, Tries,
  compute_replay_delay_ms, deliver_to_delivery_webhook_hook_with_retry,
}
use clawdentity.Connector.Replay.Lanes.{group_due_items_by_lane}

-- Where the lane is with its first message: the webhook is called, it has accepted the message, or
-- the delivery failed.
pub data Stage : Type 0 where
  delivering : Stage
  accepted_by_hook : Stage
  failed_with : DeliveryError → Stage

pub record Lane : Type 0 where
  pub items : List InboundInboxItem
  pub stage : Stage

pub data ReceiptStatus : Type 0 where
  delivered_to_webhook dead_lettered : ReceiptStatus

pub record DeliveryReceiptInput : Type 0 where
  pub reason : Option String
  pub recipient_agent_did : String
  pub request_id : String
  pub sender_agent_did : String
  pub status : ReceiptStatus

-- `attempted` and `accepted` only record what happened: the messages whose delivery ended, the
-- last one at the end, and those that the webhook accepted.
pub record Pass : Type 0 where
  pub db : Database
  pub lanes : Dict Lane
  pub receipts : List DeliveryReceiptInput
  pub attempted : List InboundInboxItem
  pub accepted : List String

-- What the pass finds at its start: the two tests, whether the token's synchronisation and the
-- sender profiles' loading succeed, and whether the gateway is reachable.
pub record PassStart : Type 0 where
  pub is_runtime_stopping : Bool
  pub replay_in_flight : Bool
  pub token_syncs : Bool
  pub reachable : Bool
  pub profiles_load : Bool

-- A lane's delivery ends; the first message's result is written, at this time, where `thrown` is the
-- reason of an error that the database throws; or another call of the inbox.
pub data Turn : Type 0 where
  delivery_ends : (key : String) (tries : Tries) → Turn
  settles : (key now : String) (now_ms : ℕ) (thrown : String) → Turn
  calls : (c : Call) → Turn

unfoldable pub to_lanes : Dict (List InboundInboxItem) → Dict Lane
to_lanes [] = []
to_lanes ((key, items) ∷ lanes) =
    (key, record { items = items; stage = delivering }) ∷ to_lanes lanes

abbrev pub receipt : InboundInboxItem → ReceiptStatus → Option String → DeliveryReceiptInput
receipt pending status reason = record {
  reason = reason;
  recipient_agent_did = pending.to_agent_did;
  request_id = pending.request_id;
  sender_agent_did = pending.from_agent_did;
  status = status;
}

abbrev pub put_lane : String → List InboundInboxItem → Stage → Pass → Pass
put_lane key items stage s = record s {
  lanes = set s.lanes key (record { items = items; stage = stage });
}

unfoldable pub end_failed :
    String → InboundInboxItem → List InboundInboxItem → DeliveryError → ErrorCode → Pass → Pass
end_failed key pending rest e runtime_stopping s = record s { lanes = delete s.lanes key }
end_failed key pending rest e hook_auth_rejected s = put_lane key (pending ∷ rest) (failed_with e) s
end_failed key pending rest e other s = put_lane key (pending ∷ rest) (failed_with e) s

-- A delivery that has a result, which is always so, leaves the `try` block or enters its `catch`.
unfoldable pub end_delivery :
    String
    → InboundInboxItem
    → List InboundInboxItem
    → Option (ℕ × Option DeliveryError)
    → Pass
    → Pass
unfolding end_failed
end_delivery key pending rest none s = s
end_delivery key pending rest (some (attempt, none)) s =
    put_lane key (pending ∷ rest) accepted_by_hook (record s {
      attempted = s.attempted ++ (pending ∷ []);
      accepted = pending.request_id ∷ s.accepted;
    })
end_delivery key pending rest (some (attempt, some e)) s =
    end_failed key pending rest e e.code (record s { attempted = s.attempted ++ (pending ∷ []) })

module _ (options : InboxOptions) (policy : InboundReplayPolicy) (to_iso : ℕ → String) where
  unfoldable pub lane_ends_delivery : String → Tries → List InboundInboxItem → Stage → Pass → Pass
  unfolding end_delivery
  lane_ends_delivery key tries [] stage s = s
  lane_ends_delivery key tries (pending ∷ rest) delivering s =
      end_delivery key pending rest (deliver_to_delivery_webhook_hook_with_retry policy tries) s
  lane_ends_delivery key tries (pending ∷ rest) accepted_by_hook s = s
  lane_ends_delivery key tries (pending ∷ rest) (failed_with e) s = s

  -- An error that the call throws is caught as a failed delivery that may be retried.
  unfoldable pub settle_accepted :
      String
      → String
      → InboundInboxItem
      → List InboundInboxItem
      → Option {0} (Database × Unit {0})
      → Pass
      → Pass
  settle_accepted key thrown pending rest none s =
      put_lane key (pending ∷ rest)
        (failed_with (record { code = other; retryable = true; reason = thrown })) s
  settle_accepted key thrown pending rest (some (db, x)) s =
      put_lane key rest delivering (record s {
        db = db;
        receipts = s.receipts ++ (receipt pending delivered_to_webhook none ∷ []);
      })

  -- An error that the call throws ends the lane.
  unfoldable pub settle_failed :
      String
      → InboundInboxItem
      → List InboundInboxItem
      → DeliveryError
      → Option (Database × Bool)
      → Pass
      → Pass
  settle_failed key pending rest e none s = record s { lanes = delete s.lanes key }
  settle_failed key pending rest e (some (db, false)) s =
      put_lane key rest delivering (record s { db = db })
  settle_failed key pending rest e (some (db, true)) s = put_lane key rest delivering (record s {
    db = db;
    receipts = s.receipts ++ (receipt pending dead_lettered (some e.reason) ∷ []);
  })

  unfoldable pub replay_failure : ℕ → InboundInboxItem → DeliveryError → ReplayFailure
  replay_failure now_ms pending e = record {
    error_message = e.reason;
    max_non_retryable_attempts = policy.dead_letter_non_retryable_max_attempts;
    next_attempt_at = to_iso (
        now_ms
        + compute_replay_delay_ms (pending.attempt_count + 1) policy
          * (if e.retryable then 1 else 10));
    request_id = pending.request_id;
    retryable = e.retryable;
  }

  unfoldable pub lane_settles :
      String → String → ℕ → String → List InboundInboxItem → Stage → Pass → Pass
  unfolding settle_accepted settle_failed replay_failure
  lane_settles key now now_ms thrown [] stage s = s
  lane_settles key now now_ms thrown (pending ∷ rest) delivering s = s
  lane_settles key now now_ms thrown (pending ∷ rest) accepted_by_hook s =
      settle_accepted key thrown pending rest (mark_delivered options pending.request_id s.db) s
  lane_settles key now now_ms thrown (pending ∷ rest) (failed_with e) s =
      settle_failed key pending rest e
        (mark_replay_failure options now (replay_failure now_ms pending e) s.db) s

  -- A call that throws is rolled back.
  unfoldable pub after_call : Option {0} (Database × Unit {0}) → Pass → Pass
  after_call none s = s
  after_call (some (db, x)) s = record s { db = db }

  unfoldable pub turn : Turn → Pass → Pass
  unfolding lane_ends_delivery lane_settles after_call
  turn (delivery_ends key tries) s = elim (get s.lanes key) [
    | none ↦ s
    | some lane ↦ lane_ends_delivery key tries lane.items lane.stage s
  ]
  turn (settles key now now_ms thrown) s = elim (get s.lanes key) [
    | none ↦ s
    | some lane ↦ lane_settles key now now_ms thrown lane.items lane.stage s
  ]
  turn (calls c) s = after_call (call options c s.db) s

  unfoldable pub turns : List Turn → Pass → Pass
  unfolding turn
  turns [] s = s
  turns (t ∷ ts) s = turns ts (turn t s)

  -- The messages that the pass takes.
  unfoldable pub taken : PassStart → String → Database → List InboundInboxItem
  taken start now_at db =
      if start.is_runtime_stopping || start.replay_in_flight
      then []
      else if not start.token_syncs || (not start.reachable || not start.profiles_load)
      then []
      else list_due_pending now_at policy.batch_size db

  unfoldable pub begin_pass : PassStart → String → Database → Pass
  unfolding taken to_lanes
  begin_pass start now_at db = record {
    db = db;
    lanes = to_lanes (group_due_items_by_lane (taken start now_at db));
    receipts = [];
    attempted = [];
    accepted = [];
  }

  unfoldable pub replay_pending_inbound_messages : PassStart → String → List Turn → Database → Pass
  unfolding turns begin_pass
  replay_pending_inbound_messages start now_at ts db = turns ts (begin_pass start now_at db)
