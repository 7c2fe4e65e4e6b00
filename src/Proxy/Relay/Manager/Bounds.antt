-- ===== src/Proxy/Relay/Manager/Bounds.antt =====
-- The delivery loop and the reconnect drain keep the queue well formed.
use clawdentity.Shared.{
  ℕ, suc, ◌+◌, ◌≤◌, ◌<◌, ◌≡◌, String, refl, ◌⊎◌, Bool, true, false, List, [], ◌∷◌, map, arith,
  length, All,
}
use clawdentity.Shared.Dict.{Dict, IsDistinct}
use clawdentity.Proxy.Relay.Types.{
  RelayDeliveryReceipt, QueuedRelayDelivery, RelayQueueState, RelayDeliveryPolicy,
}
use clawdentity.Proxy.Relay.Invariant.{IsKeyed, HasAttemptsLeft, IsWellFormed}
use clawdentity.Proxy.Relay.Queue.{delete_queued_receipt, upsert_receipt}
use clawdentity.Proxy.Relay.Queue.Prune.{
  All-delete_queued_receipt, delete_queued_receipt-IsDistinct, upsert_receipt-IsKeyed,
  upsert_receipt-IsDistinct, normalize_receipts_of_IsKeyed, prune-IsWellFormed,
}
use clawdentity.Proxy.Relay.Manager.{
  Turns, Store, retry, give_up_sending, save_queue_state, load_queue_state, postpone_due,
  insert_sorted, sort_deliveries, delivered_receipt, round, process_from, process_queue_deliveries,
  make_due, schedule_next_alarm, drain_queue_on_reconnect,
}

module _ (policy : RelayDeliveryPolicy) (now : ℕ) where
  pub length-postpone_due :
      (turns : Turns) (i : ℕ) (ds : List QueuedRelayDelivery)
      → length (postpone_due policy now turns i ds) ≡ length ds
  unfolding postpone_due
  length-postpone_due turns i [] = refl
  length-postpone_due turns i (d ∷ ds) = omega (arith, length-postpone_due turns (suc i) ds)

  postpone_due-HasAttemptsLeft :
      (turns : Turns) (i : ℕ) (ds : List QueuedRelayDelivery)
      → HasAttemptsLeft policy ds
      → HasAttemptsLeft policy (postpone_due policy now turns i ds)
  unfolding postpone_due
  postpone_due-HasAttemptsLeft turns i [] h = tt
  postpone_due-HasAttemptsLeft turns i (d ∷ ds) (p, h) =
      (ground arith, postpone_due-HasAttemptsLeft turns (suc i) ds h)

  length-insert_sorted :
      (d : QueuedRelayDelivery) (ds : List QueuedRelayDelivery)
      → length (insert_sorted d ds) ≡ suc (length ds)
  unfolding insert_sorted
  length-insert_sorted d [] = refl
  length-insert_sorted d (e ∷ es) = ground (arith, length-insert_sorted d es)

  pub length-sort_deliveries :
      (ds : List QueuedRelayDelivery) → length (sort_deliveries ds) ≡ length ds
  unfolding sort_deliveries
  length-sort_deliveries [] = refl
  length-sort_deliveries (d ∷ ds) =
      omega (arith, length-insert_sorted d (sort_deliveries ds), length-sort_deliveries ds)

  module _ (P : QueuedRelayDelivery → Type 0) where
    All-insert_sorted :
        (d : QueuedRelayDelivery) (ds : List QueuedRelayDelivery)
        → P d
        → All P ds
        → All P (insert_sorted d ds)
    unfolding insert_sorted
    All-insert_sorted d [] p h = (p, tt)
    All-insert_sorted d (e ∷ es) p (q, h) = ground (arith, All-insert_sorted d es p h)

    pub All-sort_deliveries :
        (ds : List QueuedRelayDelivery) → All P ds → All P (sort_deliveries ds)
    unfolding sort_deliveries
    All-sort_deliveries [] h = tt
    All-sort_deliveries (d ∷ ds) (p, h) =
        All-insert_sorted d (sort_deliveries ds) p (All-sort_deliveries ds h)

  -- A delivery is tried again only with attempts left.
  retry-attempts :
      (turns : Turns) (i : ℕ) (d : QueuedRelayDelivery)
      → (round policy now turns i d ≡ retry) ⊎ (round policy now turns i d ≡ give_up_sending)
      → d.attempt_count + 1 < policy.retry_max_attempts
  unfolding round
  retry-attempts turns i d h = ground arith

  process_from-length :
      (turns : Turns) (i : ℕ) (ds : List QueuedRelayDelivery) (receipts : Dict RelayDeliveryReceipt)
      (mutated : Bool)
      → length (process_from policy now turns i ds receipts mutated).0 ≤ length ds
  unfolding process_from
  process_from-length turns i [] receipts mutated = omega arith
  process_from-length turns i (d ∷ ds) receipts mutated = ground (
    arith,
    length-postpone_due turns (suc i) ds,
    process_from-length turns (suc i) ds receipts mutated,
    process_from-length turns (suc i) ds receipts true,
    process_from-length turns (suc i) ds (delete_queued_receipt receipts d.request_id d.delivery_id)
        true,
    process_from-length turns (suc i) ds (upsert_receipt receipts (delivered_receipt policy now d))
        true,
  )

  process_from-HasAttemptsLeft :
      (turns : Turns) (i : ℕ) (ds : List QueuedRelayDelivery) (receipts : Dict RelayDeliveryReceipt)
      (mutated : Bool)
      → HasAttemptsLeft policy ds
      → HasAttemptsLeft policy (process_from policy now turns i ds receipts mutated).0
  unfolding process_from
  process_from-HasAttemptsLeft turns i [] receipts mutated h = tt
  process_from-HasAttemptsLeft turns i (d ∷ ds) receipts mutated (p, h) = ground (
    arith,
    retry-attempts turns i d,
    postpone_due-HasAttemptsLeft turns (suc i) ds h,
    process_from-HasAttemptsLeft turns (suc i) ds receipts mutated h,
    process_from-HasAttemptsLeft turns (suc i) ds receipts true h,
    process_from-HasAttemptsLeft turns (suc i) ds
        (delete_queued_receipt receipts d.request_id d.delivery_id) true h,
    process_from-HasAttemptsLeft turns (suc i) ds
        (upsert_receipt receipts (delivered_receipt policy now d)) true h,
  )

  abbrev HasGoodKeys : Dict RelayDeliveryReceipt → Type 0
  HasGoodKeys receipts = IsKeyed receipts × IsDistinct receipts

  process_from-keys :
      (turns : Turns) (i : ℕ) (ds : List QueuedRelayDelivery) (receipts : Dict RelayDeliveryReceipt)
      (mutated : Bool)
      → HasGoodKeys receipts
      → HasGoodKeys (process_from policy now turns i ds receipts mutated).1
  unfolding process_from
  process_from-keys turns i [] receipts mutated h = h
  process_from-keys turns i (d ∷ ds) receipts mutated (k, u) = ground (
    arith,
    process_from-keys turns (suc i) ds receipts mutated,
    process_from-keys turns (suc i) ds receipts true,
    process_from-keys turns (suc i) ds (delete_queued_receipt receipts d.request_id d.delivery_id)
        true,
    process_from-keys turns (suc i) ds (upsert_receipt receipts (delivered_receipt policy now d))
        true,
    All-delete_queued_receipt (λ (e : String × RelayDeliveryReceipt). e.1.request_id ≡ e.0) receipts
        d.request_id d.delivery_id k,
    delete_queued_receipt-IsDistinct receipts d.request_id d.delivery_id u,
    upsert_receipt-IsKeyed receipts (delivered_receipt policy now d) k,
    upsert_receipt-IsDistinct receipts (delivered_receipt policy now d) u,
  )

  pub process-IsWellFormed :
      (sockets : ℕ) (turns : Turns) (q : RelayQueueState)
      → IsWellFormed policy q
      → IsWellFormed policy (process_queue_deliveries policy now sockets turns q).state
  unfolding process_queue_deliveries
  process-IsWellFormed sockets turns q v = ground (
    arith,
    length-postpone_due turns 0 q.deliveries,
    postpone_due-HasAttemptsLeft turns 0 q.deliveries v.attempts,
    length-sort_deliveries q.deliveries,
    process_from-length turns 0 (sort_deliveries q.deliveries) q.receipts false,
    process_from-HasAttemptsLeft turns 0 (sort_deliveries q.deliveries) q.receipts false
        (All-sort_deliveries _ q.deliveries v.attempts),
    process_from-keys turns 0 (sort_deliveries q.deliveries) q.receipts false (v.keyed, v.distinct),
  )

  length-map-make_due :
      (ds : List QueuedRelayDelivery) → length (map (make_due policy now) ds) ≡ length ds
  length-map-make_due [] = refl
  length-map-make_due (d ∷ ds) = omega (arith, length-map-make_due ds)

  make_due-HasAttemptsLeft :
      (ds : List QueuedRelayDelivery)
      → HasAttemptsLeft policy ds
      → HasAttemptsLeft policy (map (make_due policy now) ds)
  unfolding make_due
  make_due-HasAttemptsLeft [] h = tt
  make_due-HasAttemptsLeft (d ∷ ds) (p, h) = (ground arith, make_due-HasAttemptsLeft ds h)

  pub make_due-IsWellFormed :
      (q : RelayQueueState)
      → IsWellFormed policy q
      → IsWellFormed policy (record q { deliveries = map (make_due policy now) q.deliveries })
  make_due-IsWellFormed q v = record {
    bounded = omega (arith, length-map-make_due q.deliveries, v.bounded);
    attempts = make_due-HasAttemptsLeft q.deliveries v.attempts;
    keyed = v.keyed;
    distinct = v.distinct;
  }

  -- A load gives a well-formed state, and leaves one in the storage.
  pub load-IsWellFormed :
      (s : Store)
      → IsWellFormed policy s.queue
      → IsWellFormed policy (load_queue_state s now).0.queue
        × IsWellFormed policy (load_queue_state s now).1
  unfolding load_queue_state save_queue_state
  load-IsWellFormed s v =
      rw (normalize_receipts_of_IsKeyed s.queue.receipts v.keyed)
        (ground (arith, prune-IsWellFormed policy s.queue now v))

  pub drain-IsWellFormed :
      (sockets : ℕ) (turns : Turns) (s : Store)
      → IsWellFormed policy s.queue
      → IsWellFormed policy (drain_queue_on_reconnect policy now sockets turns s).queue
  unfolding drain_queue_on_reconnect save_queue_state schedule_next_alarm
  drain-IsWellFormed sockets turns s v =
      let (stored, loaded) = load-IsWellFormed s v in
      let due = make_due-IsWellFormed _ loaded in
      ground (arith, process-IsWellFormed sockets turns _ due)
