-- ===== src/Proxy/Relay/Session.antt =====
-- apps/proxy/src/agent-relay-session/core.ts: the handlers that change a session's durable state.
pub mod Invariant
pub mod Alarm
pub mod Idempotent
pub mod GroupId
mod Tests
pub mod Receipts
pub mod Standing
pub mod Undisturbed
pub mod ReadBack
use clawdentity.Shared.{
  ℕ, ◌+◌, String, Bool, true, false, not, ◌||◌, ◌&&◌, Option, none, some, List, [], ◌∷◌, ◌++◌, leb,
  ltb, ◌==◌, option_eq, if◌then◌else◌, length,
}
use clawdentity.Shared.Dict.{get, set}
use clawdentity.Proxy.Relay.Types.{
  RelayDeliveryInput, RelayDeliveryResult, RelayDeliveryReceipt, RelayDeliveryState, delivered,
  queued, delivered_to_webhook, dead_lettered, RelayReceiptRecordInput, RelayReceiptLookupInput,
  status_state, QueuedRelayDelivery, RelayQueueState, RelayDeliveryPolicy, ReceiptStatus,
}
use clawdentity.Proxy.Relay.Policy.{Sample, compute_retry_delay_ms}
use clawdentity.Proxy.Relay.Queue.{is_queued, upsert_receipt}
use clawdentity.Proxy.Relay.Manager.{
  SendOutcome, accepted, refused, failed, Turns, Store, save_queue_state, load_queue_state,
  process_queue_deliveries, schedule_next_alarm, drain_queue_on_reconnect, schedule_from_storage,
}

-- `PROXY_RELAY_QUEUE_FULL`, and the plain error for an exhausted retry budget.
pub data DeliverError : Type 0 where
  queue_full retry_budget_exhausted : DeliverError

pub data Reply : Type 0 where
  ok : RelayDeliveryResult → Reply
  err : DeliverError → Reply

abbrev is_delivered : RelayDeliveryState → Bool
is_delivered delivered = true
is_delivered _ = false

pub to_relay_delivery_result : ℕ → String → ℕ → RelayDeliveryState → RelayDeliveryResult
to_relay_delivery_result connected_sockets delivery_id queue_depth state = record {
  delivery_id = delivery_id;
  state = state;
  delivered = is_delivered state;
  queued = is_queued state;
  connected_sockets = connected_sockets;
  queue_depth = queue_depth;
}

-- What a handler meets: the number of active sockets, the deliveries in flight, the outcome of the
-- one send, a random value, and the id that `generateUlid(nowMs)` makes.
pub record Meets : Type 0 where
  pub sockets : ℕ
  pub pending : ℕ
  pub outcome : SendOutcome
  pub random : Sample
  pub fresh_id : String

module _ (policy : RelayDeliveryPolicy) (now : ℕ) where
  pub receipt_for : RelayDeliveryInput → String → RelayDeliveryState → RelayDeliveryReceipt
  receipt_for input delivery_id state = record {
    request_id = input.request_id;
    delivery_id = delivery_id;
    state = state;
    expires_at_ms = now + policy.queue_ttl_ms;
    sender_agent_did = input.sender_agent_did;
    recipient_agent_did = input.recipient_agent_did;
    reason = none;
    status_updated_at = now;
  }

  -- The object literal of the code, which has no `groupId`.
  queued_delivery : Meets → RelayDeliveryInput → ℕ → QueuedRelayDelivery
  queued_delivery m input prior_attempts = record {
    delivery_id = m.fresh_id;
    request_id = input.request_id;
    sender_agent_did = input.sender_agent_did;
    recipient_agent_did = input.recipient_agent_did;
    delivery_source = input.delivery_source;
    group_id = none;
    conversation_id = input.conversation_id;
    reply_to = input.reply_to;
    payload = input.payload;
    created_at_ms = now;
    attempt_count = prior_attempts;
    expires_at_ms = now + policy.queue_ttl_ms;
    next_attempt_at_ms = now + compute_retry_delay_ms policy prior_attempts m.random;
  }

  -- The test of `existingReceipt`.
  is_answered : RelayDeliveryInput → Option RelayDeliveryReceipt → Bool
  is_answered input none = false
  is_answered input (some r) =
      ltb now r.expires_at_ms
      && r.sender_agent_did == input.sender_agent_did
      && r.recipient_agent_did == input.recipient_agent_did

  -- `saveQueueState` and `scheduleNextAlarm`, as the handlers end.
  save_and_schedule : ℕ → Store → RelayQueueState → Store
  save_and_schedule sockets s q = schedule_next_alarm policy now sockets (save_queue_state s q) q

  -- From the test of the retry budget on.
  enqueue : Meets → RelayDeliveryInput → ℕ → Store → RelayQueueState → Store × Reply
  unfolding save_and_schedule queued_delivery receipt_for to_relay_delivery_result
  enqueue m input prior_attempts s q =
      if leb policy.retry_max_attempts prior_attempts
      then (s, err retry_budget_exhausted)
      else if leb policy.queue_max_messages_per_agent (length q.deliveries)
      then (s, err queue_full)
      else (let q' : RelayQueueState = record {
        deliveries = q.deliveries ++ queued_delivery m input prior_attempts ∷ [];
        receipts = upsert_receipt q.receipts (receipt_for input m.fresh_id queued);
      } in
          (
            save_and_schedule m.sockets s q',
            ok (to_relay_delivery_result m.sockets m.fresh_id (length q'.deliveries) queued),
          ))

  -- After a send was tried: done if it was accepted, else on to the queue with one attempt made.
  sent : Meets → RelayDeliveryInput → SendOutcome → Store → RelayQueueState → Store × Reply
  unfolding enqueue
  sent m input accepted s q =
      let q' = record q {
        receipts = upsert_receipt q.receipts (receipt_for input m.fresh_id delivered);
      } in
      (
        save_and_schedule m.sockets s q',
        ok (to_relay_delivery_result m.sockets m.fresh_id (length q'.deliveries) delivered),
      )
  sent m input refused s q = enqueue m input 1 s q
  sent m input failed s q = enqueue m input 1 s q

  dispatch : Meets → RelayDeliveryInput → Store → RelayQueueState → Store × Reply
  unfolding sent
  dispatch m input s q =
      if ltb 0 m.sockets && ltb m.pending policy.max_in_flight_deliveries
      then sent m input m.outcome s q
      else enqueue m input 0 s q

  answer : Meets → RelayDeliveryReceipt → RelayQueueState → Reply
  unfolding to_relay_delivery_result
  answer m r q = ok (to_relay_delivery_result m.sockets r.delivery_id (length q.deliveries) r.state)

  respond :
      Meets
      → RelayDeliveryInput
      → Option RelayDeliveryReceipt
      → Store
      → RelayQueueState
      → Store × Reply
  unfolding dispatch answer
  respond m input none s q = dispatch m input s q
  respond m input (some r) s q =
      if is_answered input (some r) then (s, answer m r q) else dispatch m input s q

  pub deliver_to_connector : Meets → RelayDeliveryInput → Store → Store × Reply
  unfolding respond is_answered
  deliver_to_connector m input s =
      let (s', q) = load_queue_state s now in respond m input (get q.receipts input.request_id) s' q

  -- The receipt that `recordDeliveryReceipt` writes.
  pub recorded :
      Meets → RelayReceiptRecordInput → Option RelayDeliveryReceipt → RelayDeliveryReceipt
  recorded m input none = record {
    delivery_id = m.fresh_id;
    request_id = input.request_id;
    sender_agent_did = input.sender_agent_did;
    recipient_agent_did = input.recipient_agent_did;
    state = status_state input.status;
    reason = input.reason;
    expires_at_ms = now + policy.queue_ttl_ms;
    status_updated_at = now;
  }
  recorded m input (some r) = record r {
    state = status_state input.status;
    reason = input.reason;
    expires_at_ms = now + policy.queue_ttl_ms;
    status_updated_at = now;
  }

  pub is_foreign : RelayReceiptRecordInput → Option RelayDeliveryReceipt → Bool
  is_foreign input none = false
  is_foreign input (some r) =
      not (r.sender_agent_did == input.sender_agent_did)
      || not (r.recipient_agent_did == input.recipient_agent_did)

  abbrev same_state : ReceiptStatus → RelayDeliveryState → Bool
  same_state ReceiptStatus.to_webhook delivered_to_webhook = true
  same_state ReceiptStatus.to_dead_letter dead_lettered = true
  same_state _ _ = false

  -- Whether the receipt frame is pushed to the active sockets: the status or the reason is new.
  is_news : RelayReceiptRecordInput → Option RelayDeliveryReceipt → Bool
  is_news input none = true
  is_news input (some r) =
      not (same_state input.status r.state) || not (option_eq r.reason input.reason)

  -- The new store, and whether the receipt frame is pushed.
  pub record_delivery_receipt : Meets → RelayReceiptRecordInput → Store → Store × Bool
  unfolding save_and_schedule recorded is_foreign is_news
  record_delivery_receipt m input s =
      let (s', q) = load_queue_state s now in
      let existing = get q.receipts input.request_id in
      if is_foreign input existing
      then (s', false)
      else (let q' = record q {
        receipts = set q.receipts input.request_id (recorded m input existing);
      } in
          (save_and_schedule m.sockets s' q', is_news input existing))

  found_for : RelayReceiptLookupInput → Option RelayDeliveryReceipt → Option RelayDeliveryReceipt
  found_for input none = none
  found_for input (some r) = if r.sender_agent_did == input.sender_agent_did then some r else none

  -- `none` is `{ found: false }`.
  pub get_delivery_receipt : RelayReceiptLookupInput → Store → Store × Option RelayDeliveryReceipt
  unfolding found_for
  get_delivery_receipt input s =
      let (s', q) = load_queue_state s now in
      (s', found_for input (get q.receipts input.request_id))

  -- `alarm()`, but for the heartbeat frames that it sends first.
  pub alarm : ℕ → Turns → Store → Store
  alarm sockets turns s =
      let (s', q) = load_queue_state s now in
      let pass = process_queue_deliveries policy now sockets turns q in
      schedule_next_alarm policy now sockets
        (if pass.mutated then save_queue_state s' pass.state else s') pass.state

-- What can happen to a session: a delivery, a receipt or a lookup over RPC, the alarm, a connector
-- that connects, and a web socket event that only schedules.
pub data Event : Type 0 where
  delivers : Meets → RelayDeliveryInput → Event
  records : Meets → RelayReceiptRecordInput → Event
  looks_up : RelayReceiptLookupInput → Event
  alarm_fires : ℕ → Turns → Event
  reconnects : ℕ → Turns → Event
  socket_event : ℕ → Event

-- One handler at a time, from load to save. The runtime deletes an alarm that fires.
pub step : RelayDeliveryPolicy → Store → ℕ × Event → Store
step policy s (now, delivers m input) = (deliver_to_connector policy now m input s).0
step policy s (now, records m input) = (record_delivery_receipt policy now m input s).0
step policy s (now, looks_up input) = (get_delivery_receipt policy now input s).0
step policy s (now, alarm_fires sockets turns) =
    alarm policy now sockets turns (record s { alarm = none })
step policy s (now, reconnects sockets turns) = drain_queue_on_reconnect policy now sockets turns s
step policy s (now, socket_event sockets) = schedule_from_storage policy now sockets s

pub run : RelayDeliveryPolicy → Store → List (ℕ × Event) → Store
run policy s [] = s
run policy s (e ∷ es) = run policy (step policy s e) es

-- A session before its first event.
abbrev pub new_store : Store
new_store = record { queue = record { deliveries = []; receipts = [] }; alarm = none }
