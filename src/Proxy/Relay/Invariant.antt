-- ===== src/Proxy/Relay/Invariant.antt =====
-- The invariant of a session's queue state.
use clawdentity.Shared.{◌≤◌, ◌<◌, ◌≡◌, [], List, length, All, arith}
use clawdentity.Shared.Dict.{Dict, IsDistinct}
use clawdentity.Proxy.Relay.Types.{
  RelayDeliveryReceipt, QueuedRelayDelivery, RelayQueueState, RelayDeliveryPolicy,
}

-- Each receipt stands under its own request id.
abbrev pub IsKeyed : Dict RelayDeliveryReceipt → Type 0
IsKeyed = All (λ entry. entry.1.request_id ≡ entry.0)

-- A queued delivery may still be sent.
abbrev pub HasAttemptsLeft : RelayDeliveryPolicy → List QueuedRelayDelivery → Type 0
HasAttemptsLeft policy = All (λ d. d.attempt_count < policy.retry_max_attempts)

pub record IsWellFormed (policy : RelayDeliveryPolicy) (q : RelayQueueState) : Type 0 where
  pub bounded : length q.deliveries ≤ policy.queue_max_messages_per_agent
  pub attempts : HasAttemptsLeft policy q.deliveries
  pub keyed : IsKeyed q.receipts
  pub distinct : IsDistinct q.receipts

abbrev pub empty_queue : RelayQueueState
empty_queue = record { deliveries = []; receipts = [] }

-- The queue of a session with an empty storage.
pub empty_queue-IsWellFormed : (policy : RelayDeliveryPolicy) → IsWellFormed policy empty_queue
empty_queue-IsWellFormed policy = omega arith
