-- ===== src/Proxy/Relay/Session/Receipts.antt =====
-- What is read of a receipt after it was written.
use clawdentity.Shared.{
  ℕ, ◌+◌, ◌<◌, ◌≡◌, refl, inr, String, false, Option, none, some, List, [], ◌∷◌, arith, eq_iff, All,
}
use clawdentity.Shared.Dict.{get, get-set_self}
use clawdentity.Proxy.Relay.Types.{
  RelayDeliveryReceipt, RelayReceiptRecordInput, ReceiptStatus, to_webhook, to_dead_letter,
  status_state, QueuedRelayDelivery, RelayDeliveryPolicy,
}
use clawdentity.Proxy.Relay.Queue.{is_queued}
use clawdentity.Proxy.Relay.Queue.Survival.{Spares, prune-get, normalize-get}
use clawdentity.Proxy.Relay.Manager.{Store, save_queue_state, load_queue_state, schedule_next_alarm}
use clawdentity.Proxy.Relay.Session.{Meets, recorded, is_foreign, record_delivery_receipt}

pub load-get :
    (s : Store) (now : ℕ) (k : String) (r : RelayDeliveryReceipt)
    → get s.queue.receipts k ≡ some r
    → r.request_id ≡ k
    → now < r.expires_at_ms
    → All (Spares now r) s.queue.deliveries
    → get (load_queue_state s now).1.receipts k ≡ some r
unfolding load_queue_state
load-get s now k r e key live h =
    prune-get _ now k r (normalize-get s.queue.receipts k r e key) live h

-- The stored receipt of the request, if any, has the parties of the input.
abbrev pub IsOwn : RelayReceiptRecordInput → Option RelayDeliveryReceipt → Type 0
IsOwn input none = Unit {0}
IsOwn input (some r) =
    (r.request_id ≡ input.request_id)
    × (r.sender_agent_did ≡ input.sender_agent_did)
    × (r.recipient_agent_did ≡ input.recipient_agent_did)

module _ (policy : RelayDeliveryPolicy) (now : ℕ) (m : Meets)
    (input : RelayReceiptRecordInput) where
  pub not_foreign :
      (o : Option RelayDeliveryReceipt) → IsOwn input o → is_foreign policy now input o ≡ false
  unfolding is_foreign
  not_foreign none h = refl
  not_foreign (some r) h = ground (
    arith,
    eq_iff r.sender_agent_did input.sender_agent_did,
    eq_iff r.recipient_agent_did input.recipient_agent_did,
  )

  pub recorded_fields :
      (o : Option RelayDeliveryReceipt)
      → IsOwn input o
      → ((recorded policy now m input o).request_id ≡ input.request_id)
        × ((recorded policy now m input o).sender_agent_did ≡ input.sender_agent_did)
        × ((recorded policy now m input o).state ≡ status_state input.status)
        × ((recorded policy now m input o).reason ≡ input.reason)
        × ((recorded policy now m input o).expires_at_ms ≡ now + policy.queue_ttl_ms)
  unfolding recorded
  recorded_fields none h = ground arith
  recorded_fields (some r) h = ground arith

pub status-not_queued : (st : ReceiptStatus) → is_queued (status_state st) ≡ false
status-not_queued to_webhook = refl
status-not_queued to_dead_letter = refl

pub All-Spares :
    (now : ℕ) (r : RelayDeliveryReceipt) (ds : List QueuedRelayDelivery)
    → is_queued r.state ≡ false
    → All (Spares now r) ds
All-Spares now r [] h = tt
All-Spares now r (d ∷ ds) h = (inr (inr h), All-Spares now r ds h)

module _ (policy : RelayDeliveryPolicy) (now : ℕ) (m : Meets) (input : RelayReceiptRecordInput)
    (s : Store) where
  abbrev pub existing : Option RelayDeliveryReceipt
  existing = get (load_queue_state s now).1.receipts input.request_id

  pub record-stores :
      IsOwn input existing
      → get (record_delivery_receipt policy now m input s).0.queue.receipts input.request_id
        ≡ some (recorded policy now m input existing)
  unfolding record_delivery_receipt save_queue_state schedule_next_alarm
  record-stores own =
      rw (not_foreign policy now m input existing own)
        (get-set_self (load_queue_state s now).1.receipts input.request_id _)
