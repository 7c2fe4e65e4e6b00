-- ===== src/Proxy/Relay/Session/Idempotent.antt =====
-- A delivery that is sent again.
use clawdentity.Shared.{
  ℕ, ◌+◌, ◌≤◌, ◌<◌, ◌≡◌, sym, ap, refl, ◌≢◌, inl, inr, String, true, not, none, some, List, [], ◌∷◌,
  arith, eq_refl, leb, All, All-append, All-filter, length, length-filter-le,
}
use clawdentity.Shared.Dict.{get, get-set_self}
use clawdentity.Proxy.Relay.Types.{
  RelayDeliveryInput, RelayDeliveryReceipt, RelayDeliveryResult, RelayDeliveryState, delivered,
  queued, QueuedRelayDelivery, RelayQueueState, RelayDeliveryPolicy,
}
use clawdentity.Proxy.Relay.Queue.{upsert_receipt, prune_expired_queue_state}
use clawdentity.Proxy.Relay.Queue.Survival.{Spares}
use clawdentity.Proxy.Relay.Manager.{
  SendOutcome, accepted, refused, failed, Store, save_queue_state, load_queue_state,
  schedule_next_alarm,
}
use clawdentity.Shared.{Bool-cases, false, ltb, ◌&&◌}
use clawdentity.Proxy.Relay.Queue.{is_queued}
use clawdentity.Proxy.Relay.Manager.Others.{IsElsewhere}
use clawdentity.Proxy.Relay.Session.{Event, run}
use clawdentity.Proxy.Relay.Session.Standing.{read-Stands}
use clawdentity.Proxy.Relay.Session.Undisturbed.{Undisturbed, run-Stands}
use clawdentity.Proxy.Relay.Session.{
  Meets, ok, to_relay_delivery_result, receipt_for, queued_delivery, is_answered, save_and_schedule,
  enqueue, sent, dispatch, answer, respond, deliver_to_connector,
}

-- No queued delivery has this id.
abbrev pub IsFresh : String → List QueuedRelayDelivery → Type 0
IsFresh id = All (λ d. d.delivery_id ≢ id)

module _ (policy : RelayDeliveryPolicy) (now : ℕ) (m : Meets) (input : RelayDeliveryInput) where
  -- What a first delivery leaves behind when it succeeds.
  record IsAccepted (later : ℕ) (s : Store) (r : RelayDeliveryResult) : Type 0 where
    id : r.delivery_id ≡ m.fresh_id
    receipt :
        get s.queue.receipts input.request_id
        ≡ some (receipt_for policy now input m.fresh_id r.state)
    spared : All (Spares later (receipt_for policy now input m.fresh_id r.state)) s.queue.deliveries

  fresh-Spares :
      (later : ℕ) (state : RelayDeliveryState) (ds : List QueuedRelayDelivery)
      → IsFresh m.fresh_id ds
      → All (Spares later (receipt_for policy now input m.fresh_id state)) ds
  unfolding receipt_for
  fresh-Spares later state [] h = tt
  fresh-Spares later state (d ∷ ds) (p, h) = (inr (inl p), fresh-Spares later state ds h)

  module _ (later : ℕ) (soon : later < now + policy.queue_ttl_ms) where
    enqueue-IsAccepted :
        (prior : ℕ) (s : Store) (q : RelayQueueState) (r : RelayDeliveryResult)
        → IsFresh m.fresh_id q.deliveries
        → (enqueue policy now m input prior s q).1 ≡ ok r
        → IsAccepted later (enqueue policy now m input prior s q).0 r
    unfolding enqueue save_queue_state schedule_next_alarm upsert_receipt
    enqueue-IsAccepted prior s q r fresh e =
        let d = queued_delivery policy now m input prior in
        let receipt = receipt_for policy now input m.fresh_id queued in
        ground (
          arith,
          get-set_self q.receipts input.request_id receipt,
          All-append (Spares later receipt) q.deliveries (d ∷ [])
              (fresh-Spares later queued q.deliveries fresh) (inl soon, tt),
        )

    sent-IsAccepted :
        (o : SendOutcome) (s : Store) (q : RelayQueueState) (r : RelayDeliveryResult)
        → IsFresh m.fresh_id q.deliveries
        → (sent policy now m input o s q).1 ≡ ok r
        → IsAccepted later (sent policy now m input o s q).0 r
    unfolding sent save_and_schedule save_queue_state schedule_next_alarm upsert_receipt receipt_for
        to_relay_delivery_result
    sent-IsAccepted accepted s q r fresh e = ground (
      arith,
      get-set_self q.receipts input.request_id (receipt_for policy now input m.fresh_id delivered),
      fresh-Spares later delivered q.deliveries fresh,
    )
    sent-IsAccepted refused s q r fresh e = enqueue-IsAccepted 1 s q r fresh e
    sent-IsAccepted failed s q r fresh e = enqueue-IsAccepted 1 s q r fresh e

    dispatch-IsAccepted :
        (s : Store) (q : RelayQueueState) (r : RelayDeliveryResult)
        → IsFresh m.fresh_id q.deliveries
        → (dispatch policy now m input s q).1 ≡ ok r
        → IsAccepted later (dispatch policy now m input s q).0 r
    unfolding dispatch
    dispatch-IsAccepted s q r fresh e =
        ground (arith, sent-IsAccepted m.outcome s q r fresh, enqueue-IsAccepted 0 s q r fresh)

    load-IsFresh :
        (s : Store)
        → IsFresh m.fresh_id s.queue.deliveries
        → IsFresh m.fresh_id (load_queue_state s now).1.deliveries
    unfolding load_queue_state prune_expired_queue_state
    load-IsFresh s h = All-filter _ _ s.queue.deliveries h

    deliver-IsAccepted :
        (s : Store) (r : RelayDeliveryResult)
        → get (load_queue_state s now).1.receipts input.request_id ≡ none
        → IsFresh m.fresh_id s.queue.deliveries
        → (deliver_to_connector policy now m input s).1 ≡ ok r
        → IsAccepted later (deliver_to_connector policy now m input s).0 r
    unfolding deliver_to_connector respond
    deliver-IsAccepted s r new fresh e = rw new (
        dispatch-IsAccepted (load_queue_state s now).0 (load_queue_state s now).1 r
          (load-IsFresh s fresh) (rw (new, respond) at e))

module _ (policy : RelayDeliveryPolicy) (now : ℕ) (m : Meets) (input : RelayDeliveryInput)
    (k : String) where
  enqueue-queued :
      (prior : ℕ) (s : Store) (q : RelayQueueState) (r : RelayDeliveryResult)
      → (enqueue policy now m input prior s q).1 ≡ ok r
      → is_queued r.state ≡ true
  unfolding enqueue to_relay_delivery_result
  enqueue-queued prior s q r e = ground arith

  sent-IsElsewhere :
      (o : SendOutcome) (s : Store) (q : RelayQueueState) (r : RelayDeliveryResult)
      → IsElsewhere k q.deliveries
      → (sent policy now m input o s q).1 ≡ ok r
      → is_queued r.state ≡ false
      → IsElsewhere k (sent policy now m input o s q).0.queue.deliveries
  unfolding sent save_and_schedule save_queue_state schedule_next_alarm
  sent-IsElsewhere accepted s q r h e idle = h
  sent-IsElsewhere refused s q r h e idle = absurd (cc (enqueue-queued 1 s q r e, idle))
  sent-IsElsewhere failed s q r h e idle = absurd (cc (enqueue-queued 1 s q r e, idle))

  dispatch-IsElsewhere :
      (s : Store) (q : RelayQueueState) (r : RelayDeliveryResult)
      → IsElsewhere k q.deliveries
      → (dispatch policy now m input s q).1 ≡ ok r
      → is_queued r.state ≡ false
      → IsElsewhere k (dispatch policy now m input s q).0.queue.deliveries
  unfolding dispatch
  dispatch-IsElsewhere s q r h e idle =
      elim (Bool-cases (ltb 0 m.sockets && ltb m.pending policy.max_in_flight_deliveries)) [
        | inl sends ↦ rw sends (sent-IsElsewhere m.outcome s q r h (rw (sends, dispatch) at e) idle)
        | inr queues ↦ absurd (cc (enqueue-queued 0 s q r (rw (queues, dispatch) at e), idle))
      ]

  deliver-IsElsewhere :
      (s : Store) (r : RelayDeliveryResult)
      → get (load_queue_state s now).1.receipts input.request_id ≡ none
      → IsElsewhere k s.queue.deliveries
      → (deliver_to_connector policy now m input s).1 ≡ ok r
      → is_queued r.state ≡ false
      → IsElsewhere k (deliver_to_connector policy now m input s).0.queue.deliveries
  unfolding deliver_to_connector respond load_queue_state prune_expired_queue_state
  deliver-IsElsewhere s r new h e idle = rw new (
      dispatch-IsElsewhere (load_queue_state s now).0 (load_queue_state s now).1 r
        (All-filter _ _ s.queue.deliveries h) (rw (new, respond) at e) idle)

answered :
    (policy : RelayDeliveryPolicy) (now later : ℕ) (input : RelayDeliveryInput) (id : String)
    (state : RelayDeliveryState)
    → later < now + policy.queue_ttl_ms
    → is_answered policy later input (some (receipt_for policy now input id state)) ≡ true
unfolding is_answered receipt_for
answered policy now later input id state soon =
    ground (arith, eq_refl input.sender_agent_did, eq_refl input.recipient_agent_did)

length-load-le :
    (s : Store) (now : ℕ)
    → length (load_queue_state s now).0.queue.deliveries ≤ length s.queue.deliveries
unfolding load_queue_state save_queue_state prune_expired_queue_state
length-load-le s now = ground (
  arith,
  length-filter-le (λ (d : QueuedRelayDelivery). not (leb d.expires_at_ms now)) s.queue.deliveries,
)

deliver_answered :
    (policy : RelayDeliveryPolicy) (now : ℕ) (m : Meets) (input : RelayDeliveryInput) (s : Store)
    (receipt : RelayDeliveryReceipt)
    → get (load_queue_state s now).1.receipts input.request_id ≡ some receipt
    → is_answered policy now input (some receipt) ≡ true
    → deliver_to_connector policy now m input s ≡ (
      (load_queue_state s now).0,
      ok (
          to_relay_delivery_result m.sockets receipt.delivery_id
            (length (load_queue_state s now).1.deliveries)
            receipt.state),
    )
unfolding deliver_to_connector respond answer
deliver_answered policy now m input s receipt found yes_answered = rw (found, respond, yes_answered)

-- A request that has no receipt and no queued delivery is delivered, other events happen, and the
-- same request comes again before the receipt's time runs out. The repeat succeeds, with the delivery
-- id and the state of the first answer, and adds nothing to the queue, whatever the sockets and the
-- connector do by then. The id made for the first delivery is that of no delivery in the queue and
-- is made for no later one. In between come only events, each a step from load to save, up to the
-- repeat's time: no report for the request, no delivery of it from or to others, and, if the first
-- answer was "queued", no alarm and no reconnect, which may send what is queued.
pub deliver_twice :
    (policy : RelayDeliveryPolicy) (now later : ℕ) (m m' : Meets) (input : RelayDeliveryInput)
    (events : List (ℕ × Event)) (s : Store) (r : RelayDeliveryResult)
    → get (load_queue_state s now).1.receipts input.request_id ≡ none
    → IsElsewhere input.request_id s.queue.deliveries
    → IsFresh m.fresh_id s.queue.deliveries
    → later < now + policy.queue_ttl_ms
    → (deliver_to_connector policy now m input s).1 ≡ ok r
    → Undisturbed policy later (receipt_for policy now input m.fresh_id r.state) events
    → let s' : Store = run policy (deliver_to_connector policy now m input s).0 events in
      let again = deliver_to_connector policy later m' input s' in
      (r' : RelayDeliveryResult) × (again.1 ≡ ok r')
      × (r'.delivery_id ≡ r.delivery_id)
      × (r'.state ≡ r.state)
      × (length again.0.queue.deliveries ≤ length s'.queue.deliveries)
unfolding receipt_for to_relay_delivery_result
deliver_twice policy now later m m' input events s r new elsewhere fresh soon e quiet =
    let first = deliver-IsAccepted policy now m input later soon s r new fresh e in
    let receipt = receipt_for policy now input m.fresh_id r.state in
    let s' = run policy (deliver_to_connector policy now m input s).0 events in
    let stands =
      run-Stands policy later receipt soon events (deliver_to_connector policy now m input s).0
        quiet
        (record {
          found = first.receipt;
          spared = first.spared;
          clear = deliver-IsElsewhere policy now m input input.request_id s r new elsewhere e;
        }) in
    let found = (read-Stands policy later receipt soon later (omega arith) s' stands).found in
    let again =
      deliver_answered policy later m' input s' receipt found
        (answered policy now later input m.fresh_id r.state soon) in
    (_, ap (λ p. p.1) again, sym first.id, refl, rw again (length-load-le s' later))
