-- ===== src/Proxy/Relay/Manager.antt =====
-- apps/proxy/src/agent-relay-session/queue-manager.ts: the durable queue of a session. The storage
-- has `get` and `put`; what it holds was written by `saveQueueState`.
pub mod Bounds
pub mod Others
pub mod Fate
pub mod Unchanged
pub mod Drain
use clawdentity.Shared.{
  ℕ, suc, ◌+◌, ◌≡◌, refl, Bool, true, false, ◌||◌, Option, none, List, [], ◌∷◌, map, leb, ltb,
  nat_eq, if◌then◌else◌, any,
}
use clawdentity.Shared.Dict.{Dict}
use clawdentity.Proxy.Relay.Types.{
  RelayDeliveryInput, RelayDeliveryReceipt, delivered, QueuedRelayDelivery, RelayQueueState,
  RelayDeliveryPolicy,
}
use clawdentity.Proxy.Relay.Policy.{Sample, compute_retry_delay_ms}
use clawdentity.Proxy.Relay.Queue.{
  normalize_receipts, delete_queued_receipt, upsert_receipt, prune_expired_queue_state,
}
use clawdentity.Proxy.Relay.Scheduler.{schedule_next_relay_alarm}

-- What `await sendDeliverFrame(...)` came to.
pub data SendOutcome : Type 0 where
  accepted refused failed : SendOutcome

-- What a pass of the delivery loop meets: for each round the number of deliveries in flight and the
-- outcome of the send, if there is one; and the values of `Math.random()`, in the order of their
-- use. Time stands still: every part of a pass uses the `nowMs` of its handler.
pub record Turns : Type 0 where
  pub pending : ℕ → ℕ
  pub outcome : ℕ → RelayDeliveryInput → SendOutcome
  pub random : ℕ → Sample

-- The durable part of a session: the stored queue and the alarm.
pub record Store : Type 0 where
  pub queue : RelayQueueState
  pub alarm : Option ℕ

-- A loaded queue state, and whether the loop has changed it.
pub record Pass : Type 0 where
  pub state : RelayQueueState
  pub mutated : Bool

unfoldable pub save_queue_state : Store → RelayQueueState → Store
save_queue_state s q = record s { queue = q }

unfoldable pub load_queue_state : Store → ℕ → Store × RelayQueueState
unfolding save_queue_state
load_queue_state s now =
    let read = record s.queue { receipts = normalize_receipts s.queue.receipts } in
    let (q, pruned) = prune_expired_queue_state read now in
    (if pruned then save_queue_state s q else s, q)

-- What one round of the delivery loop does with `queueState.deliveries[index]`.
pub data Round : Type 0 where
  window_full drop wait_more deliver retry give_up_sending : Round

-- What stays of a part of the array, the receipts, and `mutated`.
abbrev pub Rest : Type 0
Rest = List QueuedRelayDelivery × Dict RelayDeliveryReceipt × Bool

abbrev pub keep_front : QueuedRelayDelivery → Rest → Rest
keep_front d (ds, receipts, mutated) = (d ∷ ds, receipts, mutated)

-- `left.nextAttemptAtMs - right.nextAttemptAtMs`, then `left.createdAtMs - right.createdAtMs`: may
-- `left` stay in front of `right`?
unfoldable pub in_order : QueuedRelayDelivery → QueuedRelayDelivery → Bool
in_order left right =
    if nat_eq left.next_attempt_at_ms right.next_attempt_at_ms
    then leb left.created_at_ms right.created_at_ms
    else leb left.next_attempt_at_ms right.next_attempt_at_ms

unfoldable pub insert_sorted :
    QueuedRelayDelivery → List QueuedRelayDelivery → List QueuedRelayDelivery
insert_sorted d [] = d ∷ []
insert_sorted d (e ∷ es) = if in_order d e then d ∷ e ∷ es else e ∷ insert_sorted d es

-- `Array.prototype.sort`, which is stable: any stable sort has this result.
unfoldable pub sort_deliveries : List QueuedRelayDelivery → List QueuedRelayDelivery
sort_deliveries [] = []
sort_deliveries (d ∷ ds) = insert_sorted d (sort_deliveries ds)

unfoldable pub to_input : QueuedRelayDelivery → RelayDeliveryInput
to_input d = record {
  request_id = d.request_id;
  sender_agent_did = d.sender_agent_did;
  recipient_agent_did = d.recipient_agent_did;
  delivery_source = d.delivery_source;
  group_id = d.group_id;
  conversation_id = d.conversation_id;
  reply_to = d.reply_to;
  payload = d.payload;
}

module _ (policy : RelayDeliveryPolicy) (now : ℕ) where
  -- `delivery.nextAttemptAtMs = nowMs + computeRetryDelayMs(...)`
  unfoldable pub reschedule : Sample → QueuedRelayDelivery → QueuedRelayDelivery
  reschedule r d = record d {
    next_attempt_at_ms = now + compute_retry_delay_ms policy d.attempt_count r;
  }

  -- The loops that put off what is due; `i` counts the random values.
  unfoldable pub postpone_due : Turns → ℕ → List QueuedRelayDelivery → List QueuedRelayDelivery
  unfolding reschedule
  postpone_due turns i [] = []
  postpone_due turns i (d ∷ ds) =
      (if leb d.next_attempt_at_ms now then reschedule (turns.random i) d else d)
      ∷ postpone_due turns (suc i) ds

  unfoldable pub delivered_receipt : QueuedRelayDelivery → RelayDeliveryReceipt
  delivered_receipt d = record {
    request_id = d.request_id;
    delivery_id = d.delivery_id;
    state = delivered;
    expires_at_ms = now + policy.queue_ttl_ms;
    sender_agent_did = d.sender_agent_did;
    recipient_agent_did = d.recipient_agent_did;
    reason = none;
    status_updated_at = now;
  }

  unfoldable pub retried : Sample → QueuedRelayDelivery → QueuedRelayDelivery
  unfolding reschedule
  retried r d = reschedule r (record d { attempt_count = d.attempt_count + 1 })

  after_send : SendOutcome → QueuedRelayDelivery → Round
  after_send accepted d = deliver
  after_send refused d = if leb policy.retry_max_attempts (d.attempt_count + 1) then drop else retry
  after_send failed d =
      if leb policy.retry_max_attempts (d.attempt_count + 1) then drop else give_up_sending

  unfoldable pub round : Turns → ℕ → QueuedRelayDelivery → Round
  unfolding after_send to_input
  round turns i d =
      if leb policy.max_in_flight_deliveries (turns.pending i)
      then window_full
      else if leb d.expires_at_ms now
      then drop
      else if leb policy.retry_max_attempts d.attempt_count
      then drop
      else if ltb now d.next_attempt_at_ms
      then wait_more
      else after_send (turns.outcome i (to_input d)) d

  -- The `for` loop from `deliveries[index]` on: what stays of that part of the array, the receipts,
  -- and `mutated`. A round either splices its delivery out or moves `index` past it.
  unfoldable pub process_from :
      Turns → ℕ → List QueuedRelayDelivery → Dict RelayDeliveryReceipt → Bool → Rest
  unfolding delivered_receipt retried
  process_from turns i [] receipts mutated = ([], receipts, mutated)
  process_from turns i (d ∷ ds) receipts mutated = elim (round turns i d) [
    | window_full ↦ (d ∷ ds, receipts, mutated)
    | drop ↦
        process_from turns (suc i) ds (delete_queued_receipt receipts d.request_id d.delivery_id)
          true
    | wait_more ↦ keep_front d (process_from turns (suc i) ds receipts mutated)
    | deliver ↦ process_from turns (suc i) ds (upsert_receipt receipts (delivered_receipt d)) true
    | retry ↦ keep_front (retried (turns.random i) d) (process_from turns (suc i) ds receipts true)
    | give_up_sending ↦ (retried (turns.random i) d ∷ postpone_due turns (suc i) ds, receipts, true)
  ]

  -- The six ways of a round, for proofs by induction on the loop.
  process_cases :
      (P : Rest → Type 0) (turns : Turns) (i : ℕ) (d : QueuedRelayDelivery)
      (ds : List QueuedRelayDelivery) (receipts : Dict RelayDeliveryReceipt) (mutated : Bool)
      → (round turns i d ≡ window_full → P (d ∷ ds, receipts, mutated))
      → (round turns i d ≡ drop
          → P (
              process_from turns
                (suc i)
                ds
                (delete_queued_receipt receipts d.request_id d.delivery_id)
                true))
      → (round turns i d ≡ wait_more
          → P (keep_front d (process_from turns (suc i) ds receipts mutated)))
      → (round turns i d ≡ deliver
          → P (process_from turns (suc i) ds (upsert_receipt receipts (delivered_receipt d)) true))
      → (round turns i d ≡ retry
          → P (
              keep_front
                (retried (turns.random i) d)
                (process_from turns (suc i) ds receipts true)))
      → (round turns i d ≡ give_up_sending
          → P (retried (turns.random i) d ∷ postpone_due turns (suc i) ds, receipts, true))
      → P (process_from turns i (d ∷ ds) receipts mutated)
  unfolding process_from
  process_cases P turns i d ds receipts mutated full dropped waits delivers retries stops =
      by_round (round turns i d) refl
    where
      by_round :
          (r : Round) → round turns i d ≡ r → P (process_from turns i (d ∷ ds) receipts mutated)
      by_round window_full e = rw (e, process_from) (full e)
      by_round drop e = rw (e, process_from) (dropped e)
      by_round wait_more e = rw (e, process_from) (waits e)
      by_round deliver e = rw (e, process_from) (delivers e)
      by_round retry e = rw (e, process_from) (retries e)
      by_round give_up_sending e = rw (e, process_from) (stops e)

  -- `sockets` is `getActiveSockets(nowMs).length`.
  unfoldable pub process_queue_deliveries : ℕ → Turns → RelayQueueState → Pass
  process_queue_deliveries sockets turns q =
      if nat_eq sockets 0
      then record {
        state = record q { deliveries = postpone_due turns 0 q.deliveries };
        mutated = any (λ d. leb d.next_attempt_at_ms now) q.deliveries;
      }
      else (let (ds, receipts, mutated) =
            process_from turns 0 (sort_deliveries q.deliveries) q.receipts false in
          record { state = record { deliveries = ds; receipts = receipts }; mutated = mutated })

  unfoldable pub schedule_next_alarm : ℕ → Store → RelayQueueState → Store
  schedule_next_alarm sockets s q = record s {
    alarm = schedule_next_relay_alarm q now (ltb 0 sockets);
  }

  -- `if (delivery.nextAttemptAtMs > nowMs) delivery.nextAttemptAtMs = nowMs`
  unfoldable pub make_due : QueuedRelayDelivery → QueuedRelayDelivery
  make_due d = if ltb now d.next_attempt_at_ms then record d { next_attempt_at_ms = now } else d

  unfoldable pub drain_queue_on_reconnect : ℕ → Turns → Store → Store
  unfolding make_due
  drain_queue_on_reconnect sockets turns s =
      let (s', q) = load_queue_state s now in
      let due = record q { deliveries = map make_due q.deliveries } in
      let pass = process_queue_deliveries sockets turns due in
      let changed = any (λ d. ltb now d.next_attempt_at_ms) q.deliveries || pass.mutated in
      schedule_next_alarm sockets (if changed then save_queue_state s' pass.state else s')
        pass.state

  unfoldable pub schedule_from_storage : ℕ → Store → Store
  schedule_from_storage sockets s =
      let (s', q) = load_queue_state s now in schedule_next_alarm sockets s' q
