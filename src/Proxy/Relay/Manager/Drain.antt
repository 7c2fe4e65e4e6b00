-- ===== src/Proxy/Relay/Manager/Drain.antt =====
-- A connector that accepts everything empties the queue.
use clawdentity.Shared.{
  ℕ, suc, ◌≤◌, ◌<◌, ◌≡◌, refl, sym, subst, inl, inr, Bool, true, false, not, ◌||◌, List, [], ◌∷◌,
  map, arith, leb, ltb, Bool-cases, any, All, filter-passes,
}
use clawdentity.Shared.Dict.{Dict}
use clawdentity.Proxy.Relay.Types.{
  RelayDeliveryInput, RelayDeliveryReceipt, QueuedRelayDelivery, RelayQueueState,
  RelayDeliveryPolicy,
}
use clawdentity.Proxy.Relay.Invariant.{HasAttemptsLeft, IsWellFormed}
use clawdentity.Proxy.Relay.Queue.{prune_expired_queue_state}
use clawdentity.Proxy.Relay.Manager.{
  accepted, Turns, Store, deliver, save_queue_state, load_queue_state, round, process_from,
  sort_deliveries, process_queue_deliveries, make_due, schedule_next_alarm, to_input,
  drain_queue_on_reconnect,
}
use clawdentity.Proxy.Relay.Manager.Bounds.{All-sort_deliveries, load-IsWellFormed}
use clawdentity.Proxy.Relay.Manager.Unchanged.{
  load-deliveries, map-make_due_of_any, process-unmutated,
}

-- In every round the window has room and the connector accepts.
pub record AcceptsAll (policy : RelayDeliveryPolicy) (turns : Turns) : Type 0 where
  pub room : (i : ℕ) → turns.pending i < policy.max_in_flight_deliveries
  pub accepts : (i : ℕ) (input : RelayDeliveryInput) → turns.outcome i input ≡ accepted

module _ (policy : RelayDeliveryPolicy) (now : ℕ) where
  -- May be sent now.
  abbrev IsReady : QueuedRelayDelivery → Type 0
  IsReady d =
      (now < d.expires_at_ms)
      × (d.attempt_count < policy.retry_max_attempts)
      × (d.next_attempt_at_ms ≤ now)

  module _ (turns : Turns) (h : AcceptsAll policy turns) where
    ready_round :
        (i : ℕ) (d : QueuedRelayDelivery) → IsReady d → round policy now turns i d ≡ deliver
    unfolding round
    ready_round i d (live, left, due) = ground (arith, h.room i, h.accepts i (to_input d))

    process_from_ready :
        (i : ℕ) (ds : List QueuedRelayDelivery) (receipts : Dict RelayDeliveryReceipt)
        (mutated : Bool)
        → All IsReady ds
        → (process_from policy now turns i ds receipts mutated).0 ≡ []
    unfolding process_from
    process_from_ready i [] receipts mutated r = refl
    process_from_ready i (d ∷ ds) receipts mutated (p, r) =
        rw (ready_round i d p, process_from) (process_from_ready (suc i) ds _ true r)

    process_ready :
        (sockets : ℕ) (q : RelayQueueState)
        → 0 < sockets
        → All IsReady q.deliveries
        → (process_queue_deliveries policy now sockets turns q).state.deliveries ≡ []
    unfolding process_queue_deliveries
    process_ready sockets q online r = ground (
      arith,
      process_from_ready 0 (sort_deliveries q.deliveries) q.receipts false
          (All-sort_deliveries policy now IsReady q.deliveries r),
    )

  All-IsReady :
      (ds : List QueuedRelayDelivery)
      → All (λ d. not (leb d.expires_at_ms now) ≡ true) ds
      → HasAttemptsLeft policy ds
      → All IsReady (map (make_due policy now) ds)
  unfolding make_due
  All-IsReady [] h k = tt
  All-IsReady (d ∷ ds) (p, h) (a, k) = (ground arith, All-IsReady ds h k)

  loaded_live :
      (s : Store)
      → All (λ d. not (leb d.expires_at_ms now) ≡ true) (load_queue_state s now).1.deliveries
  unfolding load_queue_state prune_expired_queue_state
  loaded_live s = filter-passes _ s.queue.deliveries

  none_left : (ds : List QueuedRelayDelivery) → All (λ _. ⊥) ds → ds ≡ []
  none_left [] h = refl
  none_left (d ∷ ds) h = absurd h.0

-- When the agent's connector comes back, has room in every round and accepts every frame, the drain
-- leaves no delivery in the stored queue, however long their retries had been put off.
pub drain-AcceptsAll :
    (policy : RelayDeliveryPolicy) (now sockets : ℕ) (turns : Turns) (s : Store)
    → IsWellFormed policy s.queue
    → 0 < sockets
    → AcceptsAll policy turns
    → (drain_queue_on_reconnect policy now sockets turns s).queue.deliveries ≡ []
unfolding drain_queue_on_reconnect save_queue_state schedule_next_alarm
drain-AcceptsAll policy now sockets turns s v online h =
    let q = (load_queue_state s now).1 in
    let due : RelayQueueState = record q { deliveries = map (make_due policy now) q.deliveries } in
    let pass = process_queue_deliveries policy now sockets turns due in
    let ready =
      All-IsReady policy now q.deliveries (loaded_live policy now s)
        (load-IsWellFormed policy now s v).1.attempts in
    let empty = process_ready policy now turns h sockets due online ready in
    let moved = any (λ (d : QueuedRelayDelivery). ltb now d.next_attempt_at_ms) q.deliveries in
    elim (Bool-cases (moved || pass.mutated)) [
      | inl saved ↦ rw saved empty
      | inr unchanged ↦
          let still : pass.mutated ≡ false = ground arith in
          let same : map (make_due policy now) q.deliveries ≡ q.deliveries =
            map-make_due_of_any policy now q.deliveries (ground arith) in
          rw (unchanged, load-deliveries s now)
            (none_left policy now q.deliveries (
              subst (All (λ _. ⊥)) same (
                (process-unmutated policy now (λ _. ⊥) sockets turns due still).1
                  (subst (All (λ _. ⊥)) (sym empty) tt))))
    ]
