-- ===== src/Proxy/Relay/Queue.antt =====
-- apps/proxy/src/agent-relay-session/queue-state.ts: pruning, receipts and the next wake-up.
pub mod Prune
pub mod Survival
use clawdentity.Shared.{
  ℕ, ◌+◌, ◌≡◌, String, max, Bool, true, false, not, ◌||◌, ◌&&◌, Option, none, some, List, [], ◌∷◌,
  leb, ltb, ◌==◌, if◌then◌else◌, any, filter,
}
use clawdentity.Shared.Dict.{Dict, get, set, delete, retain}
use clawdentity.Proxy.Relay.Types.{
  RelayDeliveryReceipt, RelayDeliveryState, delivered, queued, delivered_to_webhook, dead_lettered,
  QueuedRelayDelivery, RelayQueueState,
}

abbrev pub is_queued : RelayDeliveryState → Bool
is_queued queued = true
is_queued _ = false

-- The entries of a stored object survive only under their own request id. The types of the fields
-- hold by construction here.
unfoldable pub normalize_receipts : Dict RelayDeliveryReceipt → Dict RelayDeliveryReceipt
normalize_receipts input = retain (λ key receipt. receipt.request_id == key) input

delete_if_queued :
    Dict RelayDeliveryReceipt
    → String
    → String
    → Option RelayDeliveryReceipt
    → Dict RelayDeliveryReceipt
delete_if_queued receipts request_id delivery_id none = receipts
delete_if_queued receipts request_id delivery_id (some receipt) =
    if not (receipt.delivery_id == delivery_id) || not (is_queued receipt.state)
    then receipts
    else delete receipts request_id

-- The argument is `queueState.receipts`, the only part that the function touches.
unfoldable pub delete_queued_receipt :
    Dict RelayDeliveryReceipt → String → String → Dict RelayDeliveryReceipt
unfolding delete_if_queued
delete_queued_receipt receipts request_id delivery_id =
    delete_if_queued receipts request_id delivery_id (get receipts request_id)

unfoldable pub upsert_receipt :
    Dict RelayDeliveryReceipt → RelayDeliveryReceipt → Dict RelayDeliveryReceipt
upsert_receipt receipts receipt = set receipts receipt.request_id receipt

-- The first loop of `pruneExpiredQueueState`: the receipts after it, and the deliveries retained.
pub drop_expired_receipts :
    List QueuedRelayDelivery → ℕ → Dict RelayDeliveryReceipt → Dict RelayDeliveryReceipt
drop_expired_receipts [] now receipts = receipts
drop_expired_receipts (d ∷ ds) now receipts = drop_expired_receipts ds now (
    if leb d.expires_at_ms now
    then delete_queued_receipt receipts d.request_id d.delivery_id
    else receipts)

pub retained_deliveries : List QueuedRelayDelivery → ℕ → List QueuedRelayDelivery
retained_deliveries ds now = filter (λ d. not (leb d.expires_at_ms now)) ds

-- The second loop: receipts that have run out.
pub live_receipts : Dict RelayDeliveryReceipt → ℕ → Dict RelayDeliveryReceipt
live_receipts receipts now = retain (λ _ receipt. not (leb receipt.expires_at_ms now)) receipts

unfoldable pub prune_expired_queue_state : RelayQueueState → ℕ → RelayQueueState × Bool
unfolding retained_deliveries drop_expired_receipts live_receipts
prune_expired_queue_state q now =
    let kept = retained_deliveries q.deliveries now in
    let unqueued = drop_expired_receipts q.deliveries now q.receipts in
    let live = live_receipts unqueued now in
    (
      record { deliveries = kept; receipts = live },
      any (λ d. leb d.expires_at_ms now) q.deliveries
          || any (λ entry. leb entry.1.expires_at_ms now) unqueued,
    )

-- `if (earliest === undefined || candidate < earliest) earliest = candidate`
unfoldable pub earlier : Option ℕ → ℕ → Option ℕ
earlier none candidate = some candidate
earlier (some earliest) candidate = if ltb candidate earliest then some candidate else some earliest

unfoldable pub wake_from : Option ℕ → List QueuedRelayDelivery → ℕ → Option ℕ
wake_from earliest [] now = earliest
wake_from earliest (d ∷ ds) now =
    wake_from (earlier earliest (max (now + 1) d.next_attempt_at_ms)) ds now

unfoldable pub find_next_queue_wake_ms : RelayQueueState → ℕ → Option ℕ
unfolding wake_from earlier
find_next_queue_wake_ms q now = wake_from none q.deliveries now
