-- ===== src/Proxy/Relay/Queue/Prune.antt =====
-- What pruning keeps and drops.
use clawdentity.Shared.{
  ℕ, ◌≡◌, refl, String, true, List, [], ◌∷◌, arith, eq_iff, ◌==◌, length-filter-le, All, All-filter,
}
use clawdentity.Shared.Dict.{
  Dict, IsDistinct, All-set, All-delete, All-retain, set-IsDistinct, delete-IsDistinct,
  retain-IsDistinct, retain-All,
}
use clawdentity.Proxy.Relay.Types.{
  RelayDeliveryReceipt, QueuedRelayDelivery, RelayQueueState, RelayDeliveryPolicy,
}
use clawdentity.Proxy.Relay.Invariant.{IsKeyed, IsWellFormed}
use clawdentity.Proxy.Relay.Queue.{
  normalize_receipts, delete_queued_receipt, upsert_receipt, drop_expired_receipts,
  prune_expired_queue_state,
}

-- To delete a queued receipt keeps what holds of all receipts, and upserting a receipt too.
module _ (P : String × RelayDeliveryReceipt → Type 0) where
  pub All-delete_queued_receipt :
      (receipts : Dict RelayDeliveryReceipt) (request_id delivery_id : String)
      → All P receipts
      → All P (delete_queued_receipt receipts request_id delivery_id)
  unfolding delete_queued_receipt
  All-delete_queued_receipt receipts request_id delivery_id h =
      ground (arith, All-delete P receipts request_id h)

  pub All-drop_expired_receipts :
      (ds : List QueuedRelayDelivery) (now : ℕ) (receipts : Dict RelayDeliveryReceipt)
      → All P receipts
      → All P (drop_expired_receipts ds now receipts)
  unfolding drop_expired_receipts
  All-drop_expired_receipts [] now receipts h = h
  All-drop_expired_receipts (d ∷ ds) now receipts h =
      All-drop_expired_receipts ds now _
        (ground (arith, All-delete_queued_receipt receipts d.request_id d.delivery_id h))

pub delete_queued_receipt-IsDistinct :
    (receipts : Dict RelayDeliveryReceipt) (request_id delivery_id : String)
    → IsDistinct receipts
    → IsDistinct (delete_queued_receipt receipts request_id delivery_id)
unfolding delete_queued_receipt
delete_queued_receipt-IsDistinct receipts request_id delivery_id h =
    ground (arith, delete-IsDistinct receipts request_id h)

pub drop_expired_receipts-IsDistinct :
    (ds : List QueuedRelayDelivery) (now : ℕ) (receipts : Dict RelayDeliveryReceipt)
    → IsDistinct receipts
    → IsDistinct (drop_expired_receipts ds now receipts)
unfolding drop_expired_receipts
drop_expired_receipts-IsDistinct [] now receipts h = h
drop_expired_receipts-IsDistinct (d ∷ ds) now receipts h =
    drop_expired_receipts-IsDistinct ds now _
      (ground (arith, delete_queued_receipt-IsDistinct receipts d.request_id d.delivery_id h))

pub upsert_receipt-IsKeyed :
    (receipts : Dict RelayDeliveryReceipt) (r : RelayDeliveryReceipt)
    → IsKeyed receipts
    → IsKeyed (upsert_receipt receipts r)
unfolding upsert_receipt
upsert_receipt-IsKeyed receipts r h = All-set _ receipts r.request_id r h refl

pub upsert_receipt-IsDistinct :
    (receipts : Dict RelayDeliveryReceipt) (r : RelayDeliveryReceipt)
    → IsDistinct receipts
    → IsDistinct (upsert_receipt receipts r)
unfolding upsert_receipt
upsert_receipt-IsDistinct receipts r h = set-IsDistinct receipts r.request_id r h

-- What is stored under its own key passes the check at the next load.
pub normalize_receipts_of_IsKeyed :
    (receipts : Dict RelayDeliveryReceipt)
    → IsKeyed receipts
    → normalize_receipts receipts ≡ receipts
unfolding normalize_receipts
normalize_receipts_of_IsKeyed receipts h = retain-All _ receipts (checks receipts h)
  where
    checks :
        (m : Dict RelayDeliveryReceipt) → IsKeyed m → All (λ e. (e.1.request_id == e.0) ≡ true) m
    checks [] h = tt
    checks ((k, r) ∷ m) (e, h) = ((eq_iff r.request_id k).1 e, checks m h)

pub prune-IsWellFormed :
    (policy : RelayDeliveryPolicy) (q : RelayQueueState) (now : ℕ)
    → IsWellFormed policy q
    → IsWellFormed policy (prune_expired_queue_state q now).0
unfolding prune_expired_queue_state
prune-IsWellFormed policy q now v = record {
  bounded = omega (arith, length-filter-le {0} _ q.deliveries, v.bounded);
  attempts = All-filter _ _ q.deliveries v.attempts;
  keyed = All-retain _ _ _ (All-drop_expired_receipts _ q.deliveries now q.receipts v.keyed);
  distinct =
      retain-IsDistinct _ _
        (drop_expired_receipts-IsDistinct q.deliveries now q.receipts v.distinct);
}
