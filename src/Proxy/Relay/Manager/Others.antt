-- ===== src/Proxy/Relay/Manager/Others.antt =====
-- A pass over the queue leaves the receipt of a request that is not queued alone.
use clawdentity.Shared.{
  ℕ, suc, ◌≡◌, ◌≢◌, String, Bool, true, false, some, List, [], ◌∷◌, arith, eq_iff, All, nat_eq,
  Bool-cases, inl, inr, map,
}
use clawdentity.Shared.Dict.{Dict, get, get-set, get-delete}
use clawdentity.Proxy.Relay.Types.{
  RelayDeliveryReceipt, QueuedRelayDelivery, RelayQueueState, RelayDeliveryPolicy,
}
use clawdentity.Proxy.Relay.Queue.{delete_queued_receipt, upsert_receipt}
use clawdentity.Proxy.Relay.Manager.{
  Turns, Rest, postpone_due, reschedule, retried, sort_deliveries, delivered_receipt, process_from,
  process_cases, process_queue_deliveries, make_due,
}
use clawdentity.Proxy.Relay.Manager.Bounds.{All-sort_deliveries}

-- No delivery of this request is in the list.
abbrev pub IsElsewhere : String → List QueuedRelayDelivery → Type 0
IsElsewhere k = All (λ d. d.request_id ≢ k)

deleted-get :
    (receipts : Dict RelayDeliveryReceipt) (d : QueuedRelayDelivery) (k : String)
    → d.request_id ≢ k
    → get (delete_queued_receipt receipts d.request_id d.delivery_id) k ≡ get receipts k
unfolding delete_queued_receipt
deleted-get receipts d k differs =
    ground (arith, differs, get-delete receipts d.request_id k, eq_iff d.request_id k)

module _ (policy : RelayDeliveryPolicy) (now : ℕ) where
  upserted-get :
      (receipts : Dict RelayDeliveryReceipt) (d : QueuedRelayDelivery) (k : String)
      → d.request_id ≢ k
      → get (upsert_receipt receipts (delivered_receipt policy now d)) k ≡ get receipts k
  unfolding upsert_receipt delivered_receipt
  upserted-get receipts d k differs = ground (
    arith,
    differs,
    get-set receipts d.request_id k (delivered_receipt policy now d),
    eq_iff d.request_id k,
  )

  pub postpone_due-IsElsewhere :
      (turns : Turns) (i : ℕ) (k : String) (ds : List QueuedRelayDelivery)
      → IsElsewhere k ds
      → IsElsewhere k (postpone_due policy now turns i ds)
  unfolding postpone_due reschedule
  postpone_due-IsElsewhere turns i k [] h = tt
  postpone_due-IsElsewhere turns i k (d ∷ ds) (p, h) =
      (ground (arith, p), postpone_due-IsElsewhere turns (suc i) k ds h)

  pub make_due-IsElsewhere :
      (k : String) (ds : List QueuedRelayDelivery)
      → IsElsewhere k ds
      → IsElsewhere k (map (make_due policy now) ds)
  unfolding make_due
  make_due-IsElsewhere k [] h = tt
  make_due-IsElsewhere k (d ∷ ds) (p, h) = (ground (arith, p), make_due-IsElsewhere k ds h)

  -- The receipt of the request is still this one, and no delivery of it is in the queue.
  abbrev Leaves : String → RelayDeliveryReceipt → Rest → Type 0
  Leaves k r rest = IsElsewhere k rest.0 × (get rest.1 k ≡ some r)

  process_from-Leaves :
      (turns : Turns) (k : String) (r : RelayDeliveryReceipt) (i : ℕ)
      (ds : List QueuedRelayDelivery) (receipts : Dict RelayDeliveryReceipt) (mutated : Bool)
      → IsElsewhere k ds
      → get receipts k ≡ some r
      → Leaves k r (process_from policy now turns i ds receipts mutated)
  unfolding process_from retried reschedule
  process_from-Leaves turns k r i [] receipts mutated h e = (tt, e)
  process_from-Leaves turns k r i (d ∷ ds) receipts mutated (p, h) e =
      process_cases policy now (Leaves k r) turns i d ds receipts mutated (λ x. ((p, h), e))
        (λ x.
          process_from-Leaves turns k r (suc i) ds
            (delete_queued_receipt receipts d.request_id d.delivery_id) true h
            (rw (deleted-get receipts d k p) e))
        (λ x.
          let (a, b) = process_from-Leaves turns k r (suc i) ds receipts mutated h e in ((p, a), b))
        (λ x.
          process_from-Leaves turns k r (suc i) ds
            (upsert_receipt receipts (delivered_receipt policy now d)) true h
            (rw (upserted-get receipts d k p) e))
        (λ x.
          let (a, b) = process_from-Leaves turns k r (suc i) ds receipts true h e in ((p, a), b))
        (λ x. ((p, postpone_due-IsElsewhere turns (suc i) k ds h), e))

  pub process-Leaves :
      (sockets : ℕ) (turns : Turns) (k : String) (r : RelayDeliveryReceipt) (q : RelayQueueState)
      → IsElsewhere k q.deliveries
      → get q.receipts k ≡ some r
      → IsElsewhere k (process_queue_deliveries policy now sockets turns q).state.deliveries
        × (get (process_queue_deliveries policy now sockets turns q).state.receipts k ≡ some r)
  unfolding process_queue_deliveries
  process-Leaves sockets turns k r q h e = elim (Bool-cases (nat_eq sockets 0)) [
    | inl closed ↦ rw closed (postpone_due-IsElsewhere turns 0 k q.deliveries h, e)
    | inr opened ↦ rw opened (
        process_from-Leaves turns k r 0 (sort_deliveries q.deliveries) q.receipts false
          (All-sort_deliveries policy now (λ d. d.request_id ≢ k) q.deliveries h) e)
  ]
