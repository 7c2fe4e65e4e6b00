-- ===== src/Proxy/Relay/Queue/Survival.antt =====
-- Which receipts pruning keeps.
use clawdentity.Shared.{
  ℕ, ◌<◌, ◌≡◌, ◌≢◌, ◌⊎◌, String, false, some, List, [], ◌∷◌, arith, eq_iff, All,
}
use clawdentity.Shared.Dict.{Dict, get, get-delete, get-retain_of_keep}
use clawdentity.Proxy.Relay.Types.{RelayDeliveryReceipt, QueuedRelayDelivery, RelayQueueState}
use clawdentity.Proxy.Relay.Queue.{
  is_queued, normalize_receipts, delete_queued_receipt, drop_expired_receipts,
  prune_expired_queue_state,
}

-- The delivery is still in time, or the receipt is not its own, or the receipt is no longer queued.
abbrev pub Spares : ℕ → RelayDeliveryReceipt → QueuedRelayDelivery → Type 0
Spares now r d =
    (now < d.expires_at_ms) ⊎ (d.delivery_id ≢ r.delivery_id) ⊎ (is_queued r.state ≡ false)

delete-Spares :
    (receipts : Dict RelayDeliveryReceipt) (d : QueuedRelayDelivery) (k : String)
    (r : RelayDeliveryReceipt)
    → get receipts k ≡ some r
    → (d.delivery_id ≢ r.delivery_id) ⊎ (is_queued r.state ≡ false)
    → get (delete_queued_receipt receipts d.request_id d.delivery_id) k ≡ some r
unfolding delete_queued_receipt
delete-Spares receipts d k r e h = ground (
  arith,
  get-delete receipts d.request_id k,
  eq_iff d.request_id k,
  eq_iff r.delivery_id d.delivery_id,
)

drop-Spares :
    (ds : List QueuedRelayDelivery) (now : ℕ) (receipts : Dict RelayDeliveryReceipt) (k : String)
    (r : RelayDeliveryReceipt)
    → All (Spares now r) ds
    → get receipts k ≡ some r
    → get (drop_expired_receipts ds now receipts) k ≡ some r
unfolding drop_expired_receipts
drop-Spares [] now receipts k r h e = e
drop-Spares (d ∷ ds) now receipts k r (p, h) e =
    drop-Spares ds now _ k r h (ground (arith, delete-Spares receipts d k r e))

-- A receipt in time that the queued deliveries spare is kept.
pub prune-get :
    (q : RelayQueueState) (now : ℕ) (k : String) (r : RelayDeliveryReceipt)
    → get q.receipts k ≡ some r
    → now < r.expires_at_ms
    → All (Spares now r) q.deliveries
    → get (prune_expired_queue_state q now).0.receipts k ≡ some r
unfolding prune_expired_queue_state
prune-get q now k r e live h =
    get-retain_of_keep _ _ k r (drop-Spares q.deliveries now q.receipts k r h e) (ground arith)

-- A receipt under its own request id passes the check of a load.
pub normalize-get :
    (receipts : Dict RelayDeliveryReceipt) (k : String) (r : RelayDeliveryReceipt)
    → get receipts k ≡ some r
    → r.request_id ≡ k
    → get (normalize_receipts receipts) k ≡ some r
unfolding normalize_receipts
normalize-get receipts k r e key =
    get-retain_of_keep _ receipts k r e ((eq_iff r.request_id k).1 key)
