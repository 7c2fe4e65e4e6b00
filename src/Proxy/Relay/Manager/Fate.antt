-- ===== src/Proxy/Relay/Manager/Fate.antt =====
-- What becomes of a queued delivery in a pass over the queue.
use clawdentity.Shared.{
  ℕ, suc, ◌+◌, ◌≤◌, ◌≡◌, refl, ◌⊎◌, inl, inr, String, Bool, true, false, some, List, [], ◌∷◌, Memᴰ,
  arith, eq_iff, nat_eq, ◌==◌, Bool-cases,
}
use clawdentity.Shared.Dict.{Dict, get, get-set, get-set_self, get-delete}
use clawdentity.Proxy.Relay.Types.{
  RelayDeliveryReceipt, delivered, QueuedRelayDelivery, RelayQueueState, RelayDeliveryPolicy,
}
use clawdentity.Proxy.Relay.Policy.{Sample}
use clawdentity.Proxy.Relay.Queue.{delete_queued_receipt, upsert_receipt}
use clawdentity.Proxy.Relay.Manager.{
  Turns, drop, postpone_due, insert_sorted, sort_deliveries, delivered_receipt, retried, round,
  process_from, process_cases, in_order, process_queue_deliveries,
}

-- The same delivery, perhaps put off, and after at most one more attempt.
abbrev pub IsLaterForm : QueuedRelayDelivery → QueuedRelayDelivery → Type 0
IsLaterForm d e =
    (e ≡ record d { attempt_count = e.attempt_count; next_attempt_at_ms = e.next_attempt_at_ms })
    × (d.attempt_count ≤ e.attempt_count)
    × (e.attempt_count ≤ d.attempt_count + 1)

-- The request has a receipt that says it was delivered.
abbrev pub IsReceipted : Dict RelayDeliveryReceipt → String → Type 0
IsReceipted receipts request_id =
    (r : RelayDeliveryReceipt) × (get receipts request_id ≡ some r) × (r.state ≡ delivered)

-- The ways that a delivery can go, given the deliveries and receipts that are left.
pub data Fate (policy : RelayDeliveryPolicy) (now : ℕ) (d : QueuedRelayDelivery)
    (ds : List QueuedRelayDelivery) (receipts : Dict RelayDeliveryReceipt) : Type 0 where
  still_queued :
      (e : QueuedRelayDelivery) → Memᴰ e ds → IsLaterForm d e → Fate policy now d ds receipts
  accepted_by_connector : IsReceipted receipts d.request_id → Fate policy now d ds receipts
  out_of_time : d.expires_at_ms ≤ now → Fate policy now d ds receipts
  out_of_attempts : policy.retry_max_attempts ≤ d.attempt_count + 1 → Fate policy now d ds receipts

module _ (policy : RelayDeliveryPolicy) (now : ℕ) where
  Fate-cons :
      {d : QueuedRelayDelivery} {ds : List QueuedRelayDelivery}
      {receipts : Dict RelayDeliveryReceipt} (e : QueuedRelayDelivery)
      → Fate policy now d ds receipts
      → Fate policy now d (e ∷ ds) receipts
  Fate-cons e (still_queued f m l) = still_queued f (Memᴰ.tail m) l
  Fate-cons e (accepted_by_connector r) = accepted_by_connector r
  Fate-cons e (out_of_time h) = out_of_time h
  Fate-cons e (out_of_attempts h) = out_of_attempts h

  delete_queued_receipt-IsReceipted :
      (receipts : Dict RelayDeliveryReceipt) (k request_id delivery_id : String)
      → IsReceipted receipts k
      → IsReceipted (delete_queued_receipt receipts request_id delivery_id) k
  unfolding delete_queued_receipt
  delete_queued_receipt-IsReceipted receipts k request_id delivery_id (r, e, s) =
      (r, ground (arith, get-delete receipts request_id k, eq_iff request_id k), s)

  upsert_receipt-IsReceipted :
      (receipts : Dict RelayDeliveryReceipt) (k : String) (d : QueuedRelayDelivery)
      → IsReceipted receipts k
      → IsReceipted (upsert_receipt receipts (delivered_receipt policy now d)) k
  unfolding upsert_receipt delivered_receipt
  upsert_receipt-IsReceipted receipts k d (r, e, s) = elim (Bool-cases (d.request_id == k)) [
    | inl same ↦ (
      delivered_receipt policy now d,
      ground (arith, get-set receipts d.request_id k (delivered_receipt policy now d)),
      refl,
    )
    | inr other ↦
        (r, ground (arith, get-set receipts d.request_id k (delivered_receipt policy now d)), s)
  ]

  fresh_receipt :
      (receipts : Dict RelayDeliveryReceipt) (d : QueuedRelayDelivery)
      → IsReceipted (upsert_receipt receipts (delivered_receipt policy now d)) d.request_id
  unfolding upsert_receipt delivered_receipt
  fresh_receipt receipts d =
      (delivered_receipt policy now d, get-set_self receipts d.request_id _, refl)

  retried-IsLaterForm :
      (d : QueuedRelayDelivery) (r : Sample) → IsLaterForm d (retried policy now r d)
  unfolding retried
  retried-IsLaterForm d r = ground arith

  -- A receipt of a delivery lasts to the end of the pass.
  process_from-IsReceipted :
      (k : String) (turns : Turns) (i : ℕ) (ds : List QueuedRelayDelivery)
      (receipts : Dict RelayDeliveryReceipt) (mutated : Bool)
      → IsReceipted receipts k
      → IsReceipted (process_from policy now turns i ds receipts mutated).1 k
  unfolding process_from
  process_from-IsReceipted k turns i [] receipts mutated h = h
  process_from-IsReceipted k turns i (d ∷ ds) receipts mutated h =
      process_cases policy now (λ t. IsReceipted t.1 k) turns i d ds receipts mutated (λ _. h)
        (λ _.
          process_from-IsReceipted k turns (suc i) ds _ true
            (delete_queued_receipt-IsReceipted receipts k d.request_id d.delivery_id h))
        (λ _. process_from-IsReceipted k turns (suc i) ds receipts mutated h)
        (λ _.
          process_from-IsReceipted k turns (suc i) ds _ true
            (upsert_receipt-IsReceipted receipts k d h))
        (λ _. process_from-IsReceipted k turns (suc i) ds receipts true h) (λ _. h)

  postpone_due-mem :
      {d : QueuedRelayDelivery} (turns : Turns) (i : ℕ) (ds : List QueuedRelayDelivery)
      → Memᴰ d ds
      → (e : QueuedRelayDelivery) × Memᴰ e (postpone_due policy now turns i ds) × IsLaterForm d e
  unfolding postpone_due
  postpone_due-mem turns i [] m = elim m [ ]
  postpone_due-mem turns i (d ∷ ds) (Memᴰ.head same) = (_, Memᴰ.head refl, rw same (ground arith))
  postpone_due-mem turns i (d ∷ ds) (Memᴰ.tail m) =
      let (e, m', l) = postpone_due-mem turns (suc i) ds m in (e, Memᴰ.tail m', l)

  -- Why a round drops its delivery.
  drop-Fate :
      (turns : Turns) (i : ℕ) (d : QueuedRelayDelivery)
      → round policy now turns i d ≡ drop
      → (d.expires_at_ms ≤ now) ⊎ (policy.retry_max_attempts ≤ d.attempt_count + 1)
  unfolding round
  drop-Fate turns i d e = ground arith

  dropped_Fate :
      {ds : List QueuedRelayDelivery} {receipts : Dict RelayDeliveryReceipt}
      (d : QueuedRelayDelivery)
      → (d.expires_at_ms ≤ now) ⊎ (policy.retry_max_attempts ≤ d.attempt_count + 1)
      → Fate policy now d ds receipts
  dropped_Fate d (inl h) = out_of_time h
  dropped_Fate d (inr h) = out_of_attempts h

  process_from-Fate :
      (turns : Turns) (i : ℕ) (d : QueuedRelayDelivery) (ds : List QueuedRelayDelivery)
      (receipts : Dict RelayDeliveryReceipt) (mutated : Bool)
      → Memᴰ d ds
      → Fate policy now d
          (process_from policy now turns i ds receipts mutated).0
          (process_from policy now turns i ds receipts mutated).1
  process_from-Fate turns i d [] receipts mutated m = elim m [ ]
  process_from-Fate turns i d (e ∷ ds) receipts mutated (Memᴰ.head same) = rw same (
      process_cases policy now (λ t. Fate policy now e t.0 t.1) turns i e ds receipts mutated
        (λ _. still_queued e (Memᴰ.head refl) (ground arith))
        (λ r. dropped_Fate e (drop-Fate turns i e r))
        (λ _. still_queued e (Memᴰ.head refl) (ground arith))
        (λ _. accepted_by_connector (
          process_from-IsReceipted e.request_id turns (suc i) ds _ true (fresh_receipt receipts e)))
        (λ _. still_queued _ (Memᴰ.head refl) (retried-IsLaterForm e (turns.random i)))
        (λ _. still_queued _ (Memᴰ.head refl) (retried-IsLaterForm e (turns.random i))))
  process_from-Fate turns i d (e ∷ ds) receipts mutated (Memᴰ.tail m) =
      process_cases policy now (λ t. Fate policy now d t.0 t.1) turns i e ds receipts mutated
        (λ _. still_queued d (Memᴰ.tail m) (ground arith))
        (λ _. process_from-Fate turns (suc i) d ds _ true m)
        (λ _. Fate-cons e (process_from-Fate turns (suc i) d ds receipts mutated m))
        (λ _. process_from-Fate turns (suc i) d ds _ true m)
        (λ _. Fate-cons _ (process_from-Fate turns (suc i) d ds receipts true m))
        (λ _.
          let (f, m', l) = postpone_due-mem turns (suc i) ds m in still_queued f (Memᴰ.tail m') l)

  insert_sorted-mem :
      (d e : QueuedRelayDelivery) (ds : List QueuedRelayDelivery)
      → (d ≡ e) ⊎ Memᴰ d ds
      → Memᴰ d (insert_sorted e ds)
  unfolding insert_sorted
  insert_sorted-mem d e [] (inl h) = Memᴰ.head h
  insert_sorted-mem d e (x ∷ xs) (inl h) = elim (Bool-cases (in_order e x)) [
    | inl p ↦ rw p (Memᴰ.head h)
    | inr p ↦ rw p (Memᴰ.tail (insert_sorted-mem d e xs (inl h)))
  ]
  insert_sorted-mem d e [] (inr m) = elim m [ ]
  insert_sorted-mem d e (x ∷ xs) (inr (Memᴰ.head h)) = elim (Bool-cases (in_order e x)) [
    | inl p ↦ rw p (Memᴰ.tail (Memᴰ.head h))
    | inr p ↦ rw p (Memᴰ.head h)
  ]
  insert_sorted-mem d e (x ∷ xs) (inr (Memᴰ.tail m)) = elim (Bool-cases (in_order e x)) [
    | inl p ↦ rw p (Memᴰ.tail (Memᴰ.tail m))
    | inr p ↦ rw p (Memᴰ.tail (insert_sorted-mem d e xs (inr m)))
  ]

  sort_deliveries-mem :
      (d : QueuedRelayDelivery) (ds : List QueuedRelayDelivery)
      → Memᴰ d ds
      → Memᴰ d (sort_deliveries ds)
  unfolding sort_deliveries
  sort_deliveries-mem d [] m = elim m [ ]
  sort_deliveries-mem d (e ∷ ds) (Memᴰ.head h) = insert_sorted-mem d e _ (inl h)
  sort_deliveries-mem d (e ∷ ds) (Memᴰ.tail m) =
      insert_sorted-mem d e _ (inr (sort_deliveries-mem d ds m))

-- A delivery never vanishes in a pass over the queue: after it the delivery is still queued, with
-- at most one more attempt counted, or its request has a receipt with the state "delivered", or its
-- time had run out, or the attempt was its last.
pub process-Fate :
    (policy : RelayDeliveryPolicy) (now sockets : ℕ) (turns : Turns) (q : RelayQueueState)
    (d : QueuedRelayDelivery)
    → Memᴰ d q.deliveries
    → Fate policy now d
        (process_queue_deliveries policy now sockets turns q).state.deliveries
        (process_queue_deliveries policy now sockets turns q).state.receipts
unfolding process_queue_deliveries
process-Fate policy now sockets turns q d m = elim (Bool-cases (nat_eq sockets 0)) [
  | inl offline ↦
      let (e, m', l) = postpone_due-mem policy now turns 0 q.deliveries m in
      rw offline (still_queued e m' l)
  | inr online ↦ rw online (
      process_from-Fate policy now turns 0 d _ q.receipts false
        (sort_deliveries-mem policy now d q.deliveries m))
]
