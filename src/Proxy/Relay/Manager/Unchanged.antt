-- ===== src/Proxy/Relay/Manager/Unchanged.antt =====
-- A pass that reports no change has made none, so that it need not be saved.
use clawdentity.Shared.{
  ℕ, suc, ◌≡◌, refl, Bool, true, false, not, List, [], ◌∷◌, map, arith, leb, ltb, any, filter, All,
}
use clawdentity.Shared.Dict.{Dict}
use clawdentity.Proxy.Relay.Types.{
  RelayDeliveryReceipt, QueuedRelayDelivery, RelayQueueState, RelayDeliveryPolicy,
}
use clawdentity.Proxy.Relay.Queue.{prune_expired_queue_state}
use clawdentity.Proxy.Relay.Manager.{
  Turns, Store, save_queue_state, load_queue_state, postpone_due, insert_sorted, sort_deliveries,
  process_from, process_cases, process_queue_deliveries, make_due,
}

-- `any p` false: the filter by `not p` keeps everything.
filter_of_any {ℓ} :
    {A : Type ℓ} (p : A → Bool) (xs : List A) → any p xs ≡ false → filter (λ x. not (p x)) xs ≡ xs
unfolding any filter
filter_of_any p [] h = refl
filter_of_any p (x ∷ xs) h = ground (arith, filter_of_any p xs)

-- What a load returns is what the storage then holds.
pub load-deliveries :
    (s : Store) (now : ℕ)
    → (load_queue_state s now).0.queue.deliveries ≡ (load_queue_state s now).1.deliveries
unfolding load_queue_state save_queue_state prune_expired_queue_state
load-deliveries s now =
    ground (
      arith,
      filter_of_any (λ (d : QueuedRelayDelivery). leb d.expires_at_ms now) s.queue.deliveries,
    )

module _ (policy : RelayDeliveryPolicy) (now : ℕ) where
  process_from-mutated :
      (turns : Turns) (i : ℕ) (ds : List QueuedRelayDelivery) (receipts : Dict RelayDeliveryReceipt)
      → (process_from policy now turns i ds receipts true).2 ≡ true
  unfolding process_from
  process_from-mutated turns i [] receipts = refl
  process_from-mutated turns i (d ∷ ds) receipts =
      process_cases policy now (λ t. t.2 ≡ true) turns i d ds receipts true (λ _. refl)
        (λ _. process_from-mutated turns (suc i) ds _)
        (λ _. process_from-mutated turns (suc i) ds receipts)
        (λ _. process_from-mutated turns (suc i) ds _)
        (λ _. process_from-mutated turns (suc i) ds receipts) (λ _. refl)

  process_from-unmutated :
      (turns : Turns) (i : ℕ) (ds : List QueuedRelayDelivery) (receipts : Dict RelayDeliveryReceipt)
      (mutated : Bool)
      → (process_from policy now turns i ds receipts mutated).2 ≡ false
      → ((process_from policy now turns i ds receipts mutated).0 ≡ ds)
        × ((process_from policy now turns i ds receipts mutated).1 ≡ receipts)
  unfolding process_from
  process_from-unmutated turns i [] receipts mutated = λ _. (refl, refl)
  process_from-unmutated turns i (d ∷ ds) receipts mutated =
      process_cases policy now (λ t. t.2 ≡ false → (t.0 ≡ d ∷ ds) × (t.1 ≡ receipts)) turns i d ds
        receipts mutated (λ _ _. (refl, refl)) (λ _ h. cc (process_from-mutated turns (suc i) ds _))
        (λ _ h. ground (arith, process_from-unmutated turns (suc i) ds receipts mutated h))
        (λ _ h. cc (process_from-mutated turns (suc i) ds _))
        (λ _ h. cc (process_from-mutated turns (suc i) ds receipts)) (λ _ h. cc)

  module _ (P : QueuedRelayDelivery → Type 0) where
    All-of-insert_sorted :
        (d : QueuedRelayDelivery) (ds : List QueuedRelayDelivery)
        → All P (insert_sorted d ds)
        → P d × All P ds
    unfolding insert_sorted
    All-of-insert_sorted d [] h = h
    All-of-insert_sorted d (e ∷ es) h = ground (arith, All-of-insert_sorted d es)

    All-of-sort_deliveries : (ds : List QueuedRelayDelivery) → All P (sort_deliveries ds) → All P ds
    unfolding sort_deliveries
    All-of-sort_deliveries [] h = tt
    All-of-sort_deliveries (d ∷ ds) h =
        let (p, rest) = All-of-insert_sorted d (sort_deliveries ds) h in
        (p, All-of-sort_deliveries ds rest)

  postpone_due_of_any :
      (turns : Turns) (i : ℕ) (ds : List QueuedRelayDelivery)
      → any (λ d. leb d.next_attempt_at_ms now) ds ≡ false
      → postpone_due policy now turns i ds ≡ ds
  unfolding any postpone_due
  postpone_due_of_any turns i [] h = refl
  postpone_due_of_any turns i (d ∷ ds) h = ground (arith, postpone_due_of_any turns (suc i) ds)

  pub map-make_due_of_any :
      (ds : List QueuedRelayDelivery)
      → any (λ d. ltb now d.next_attempt_at_ms) ds ≡ false
      → map (make_due policy now) ds ≡ ds
  unfolding any make_due
  map-make_due_of_any [] h = refl
  map-make_due_of_any (d ∷ ds) h = ground (arith, map-make_due_of_any ds)

  -- A pass that reports no change leaves the receipts, and the deliveries up to their order.
  pub process-unmutated :
      (P : QueuedRelayDelivery → Type 0) (sockets : ℕ) (turns : Turns) (q : RelayQueueState)
      → (process_queue_deliveries policy now sockets turns q).mutated ≡ false
      → ((process_queue_deliveries policy now sockets turns q).state.receipts ≡ q.receipts)
        × (All P (process_queue_deliveries policy now sockets turns q).state.deliveries
            → All P q.deliveries)
  unfolding process_queue_deliveries
  process-unmutated P sockets turns q h = ground (
    arith,
    postpone_due_of_any turns 0 q.deliveries,
    process_from-unmutated turns 0 (sort_deliveries q.deliveries) q.receipts false,
    All-of-sort_deliveries P q.deliveries,
  )
