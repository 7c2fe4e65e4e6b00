-- ===== src/Proxy/Relay/Session/Standing.antt =====
-- A receipt stands while other events happen to the session.
use clawdentity.Shared.{
  ℕ, ◌≤◌, ◌<◌, ◌≡◌, ◌≢◌, refl, ap, ◌∙◌, ◌⊎◌, inl, inr, String, Bool, true, false, Option, none,
  some, List, [], ◌∷◌, ◌++◌, leb, ltb, arith, eq_iff, All, All-append, All-filter, Bool-cases,
  length, ◌&&◌, ◌==◌,
}
use clawdentity.Shared.Dict.{get, set, get-set}
use clawdentity.Proxy.Relay.Types.{
  RelayDeliveryInput, RelayDeliveryReceipt, RelayReceiptRecordInput, queued, delivered,
  QueuedRelayDelivery, RelayQueueState, RelayDeliveryPolicy,
}
use clawdentity.Proxy.Relay.Queue.{
  is_queued, normalize_receipts, upsert_receipt, prune_expired_queue_state,
}
use clawdentity.Proxy.Relay.Queue.Survival.{Spares}
use clawdentity.Proxy.Relay.Manager.{
  SendOutcome, accepted, refused, failed, Store, save_queue_state, load_queue_state,
  schedule_next_alarm,
}
use clawdentity.Proxy.Relay.Manager.Others.{IsElsewhere}
use clawdentity.Proxy.Relay.Session.{
  Meets, receipt_for, queued_delivery, is_answered, save_and_schedule, enqueue, sent, dispatch,
  respond, deliver_to_connector, recorded, is_foreign, record_delivery_receipt, Event, delivers,
  records, looks_up, alarm_fires, reconnects, socket_event,
}
use clawdentity.Proxy.Relay.Session.Receipts.{load-get}

sooner :
    (now later : ℕ) (r : RelayDeliveryReceipt) (ds : List QueuedRelayDelivery)
    → now ≤ later
    → All (Spares later r) ds
    → All (Spares now r) ds
sooner now later r [] le h = tt
sooner now later r (d ∷ ds) le (inl live, h) =
    (inl (omega (arith, le, live)), sooner now later r ds le h)
sooner now later r (d ∷ ds) le (inr p, h) = (inr p, sooner now later r ds le h)

module _ (policy : RelayDeliveryPolicy) (later : ℕ) (r : RelayDeliveryReceipt) where
  -- The receipt is stored, up to this time no load drops it, and if it is not "queued", no delivery
  -- of its request is in the queue.
  pub record Stands (q : RelayQueueState) : Type 0 where
    pub found : get q.receipts r.request_id ≡ some r
    pub spared : All (Spares later r) q.deliveries
    pub clear : is_queued r.state ≡ false → IsElsewhere r.request_id q.deliveries

  -- The event leaves the receipt of the request alone. A delivery is of another request, or the same
  -- one again, and makes another id; a report is of another request; and a "queued" delivery is not
  -- tried again.
  abbrev pub SparesReceipt : Event → Type 0
  SparesReceipt (delivers m input) =
      (m.fresh_id ≢ r.delivery_id)
      × ((input.request_id ≢ r.request_id)
          ⊎ ((input.sender_agent_did ≡ r.sender_agent_did)
              × (input.recipient_agent_did ≡ r.recipient_agent_did)))
  SparesReceipt (records m input) = input.request_id ≢ r.request_id
  SparesReceipt (looks_up input) = Unit
  SparesReceipt (alarm_fires sockets turns) = is_queued r.state ≡ false
  SparesReceipt (reconnects sockets turns) = is_queued r.state ≡ false
  SparesReceipt (socket_event sockets) = Unit

  set-Stands :
      (other : RelayDeliveryReceipt) (key : String) (q : RelayQueueState)
      → key ≢ r.request_id
      → Stands q
      → Stands (record q { receipts = set q.receipts key other })
  set-Stands other key q differs h = record {
    found = ground (
      arith,
      h.found,
      differs,
      get-set q.receipts key r.request_id other,
      eq_iff key r.request_id,
    );
    spared = h.spared;
    clear = h.clear;
  }

  module _ (live : later < r.expires_at_ms) where
    module _ (now : ℕ) (before : now ≤ later) where
      pub read-Stands : (s : Store) → Stands s.queue → Stands (load_queue_state s now).1
      unfolding load_queue_state prune_expired_queue_state
      read-Stands s h = record {
        found =
            load-get s now r.request_id r h.found refl (omega (arith, before, live))
              (sooner now later r s.queue.deliveries before h.spared);
        spared = All-filter _ _ s.queue.deliveries h.spared;
        clear = λ e. All-filter _ _ s.queue.deliveries (h.clear e);
      }

      pub load-Stands : (s : Store) → Stands s.queue → Stands (load_queue_state s now).0.queue
      unfolding load_queue_state save_queue_state
      load-Stands s h =
          by_flag
            (prune_expired_queue_state
              (record s.queue { receipts = normalize_receipts s.queue.receipts }) now).1
            refl
        where
          by_flag :
              (b : Bool)
              → (prune_expired_queue_state
                  (record s.queue { receipts = normalize_receipts s.queue.receipts })
                  now).1
                ≡ b
              → Stands (load_queue_state s now).0.queue
          by_flag true e = rw (load_queue_state, e) (unfold load_queue_state in read-Stands s h)
          by_flag false e = rw (load_queue_state, e) h

      enqueue-Stands :
          (m : Meets) (input : RelayDeliveryInput) (prior : ℕ) (s : Store) (q : RelayQueueState)
          → m.fresh_id ≢ r.delivery_id
          → input.request_id ≢ r.request_id
          → Stands s.queue
          → Stands q
          → Stands (enqueue policy now m input prior s q).0.queue
      unfolding enqueue save_and_schedule save_queue_state schedule_next_alarm upsert_receipt
          queued_delivery receipt_for
      enqueue-Stands m input prior s q fresh differs stored h =
          elim (Bool-cases (leb policy.retry_max_attempts prior)) [
            | inl out ↦ rw out stored
            | inr try_it ↦
                elim (Bool-cases (leb policy.queue_max_messages_per_agent (length q.deliveries))) [
                  | inl full ↦ rw (try_it, full) stored
                  | inr room ↦
                      rw (try_it, room)
                        (set-Stands (receipt_for policy now input m.fresh_id queued)
                          input.request_id
                          (record q {
                            deliveries =
                                q.deliveries ++ (queued_delivery policy now m input prior ∷ []);
                          })
                          differs
                          (record {
                            found = h.found;
                            spared =
                                All-append (Spares later r) q.deliveries _ h.spared
                                  (inr (inl fresh), tt);
                            clear = λ e.
                                All-append (λ d. d.request_id ≢ r.request_id) q.deliveries _
                                  (h.clear e) (differs, tt);
                          }))
                ]
          ]

      sent-Stands :
          (m : Meets) (input : RelayDeliveryInput) (o : SendOutcome) (s : Store)
          (q : RelayQueueState)
          → m.fresh_id ≢ r.delivery_id
          → input.request_id ≢ r.request_id
          → Stands s.queue
          → Stands q
          → Stands (sent policy now m input o s q).0.queue
      unfolding sent save_and_schedule save_queue_state schedule_next_alarm upsert_receipt
          receipt_for
      sent-Stands m input accepted s q fresh differs stored h =
          set-Stands (receipt_for policy now input m.fresh_id delivered) input.request_id q differs
            h
      sent-Stands m input refused s q fresh differs stored h =
          enqueue-Stands m input 1 s q fresh differs stored h
      sent-Stands m input failed s q fresh differs stored h =
          enqueue-Stands m input 1 s q fresh differs stored h

      dispatch-Stands :
          (m : Meets) (input : RelayDeliveryInput) (s : Store) (q : RelayQueueState)
          → m.fresh_id ≢ r.delivery_id
          → input.request_id ≢ r.request_id
          → Stands s.queue
          → Stands q
          → Stands (dispatch policy now m input s q).0.queue
      unfolding dispatch
      dispatch-Stands m input s q fresh differs stored h =
          elim (Bool-cases (ltb 0 m.sockets && ltb m.pending policy.max_in_flight_deliveries)) [
            | inl sends ↦ rw sends (sent-Stands m input m.outcome s q fresh differs stored h)
            | inr queues ↦ rw queues (enqueue-Stands m input 0 s q fresh differs stored h)
          ]

      respond-Stands :
          (m : Meets) (input : RelayDeliveryInput) (o : Option RelayDeliveryReceipt) (s : Store)
          (q : RelayQueueState)
          → m.fresh_id ≢ r.delivery_id
          → input.request_id ≢ r.request_id
          → Stands s.queue
          → Stands q
          → Stands (respond policy now m input o s q).0.queue
      unfolding respond
      respond-Stands m input none s q fresh differs stored h =
          dispatch-Stands m input s q fresh differs stored h
      respond-Stands m input (some other) s q fresh differs stored h =
          elim (Bool-cases (is_answered policy now input (some other))) [
            | inl known ↦ rw known stored
            | inr new ↦ rw new (dispatch-Stands m input s q fresh differs stored h)
          ]

      -- The same request, from the same parties, is answered from the receipt.
      repeat-Stands :
          (m : Meets) (input : RelayDeliveryInput) (s : Store) (q : RelayQueueState)
          → (input.sender_agent_did ≡ r.sender_agent_did)
          → (input.recipient_agent_did ≡ r.recipient_agent_did)
          → Stands s.queue
          → Stands (respond policy now m input (some r) s q).0.queue
      unfolding respond is_answered
      repeat-Stands m input s q sender recipient h =
          let known : is_answered policy now input (some r) ≡ true =
            unfold is_answered in
            ground (
              arith,
              before,
              live,
              sender,
              recipient,
              eq_iff r.sender_agent_did input.sender_agent_did,
              eq_iff r.recipient_agent_did input.recipient_agent_did,
            ) in
          rw known h

      pub deliver-Stands :
          (m : Meets) (input : RelayDeliveryInput) (s : Store)
          → SparesReceipt (delivers m input)
          → Stands s.queue
          → Stands (deliver_to_connector policy now m input s).0.queue
      unfolding deliver_to_connector
      deliver-Stands m input s (fresh, inl differs) h =
          respond-Stands m input _ _ _ fresh differs (load-Stands s h) (read-Stands s h)
      deliver-Stands m input s (fresh, inr (sender, recipient)) h =
          elim (Bool-cases (input.request_id == r.request_id)) [
            | inl same ↦
                let there : get (load_queue_state s now).1.receipts input.request_id ≡ some r =
                  ap (get (load_queue_state s now).1.receipts)
                    ((eq_iff input.request_id r.request_id).0 same)
                  ∙ (read-Stands s h).found in
                rw there (
                  repeat-Stands m input (load_queue_state s now).0 (load_queue_state s now).1 sender
                    recipient (load-Stands s h))
            | inr other ↦
                respond-Stands m input _ _ _ fresh
                  (λ e. ground (arith, other, e, eq_iff input.request_id r.request_id))
                  (load-Stands s h) (read-Stands s h)
          ]

      pub record-Stands :
          (m : Meets) (input : RelayReceiptRecordInput) (s : Store)
          → input.request_id ≢ r.request_id
          → Stands s.queue
          → Stands (record_delivery_receipt policy now m input s).0.queue
      unfolding record_delivery_receipt save_and_schedule save_queue_state schedule_next_alarm
      record-Stands m input s differs h =
          let existing = get (load_queue_state s now).1.receipts input.request_id in
          elim (Bool-cases (is_foreign policy now input existing)) [
            | inl foreign ↦ rw foreign (load-Stands s h)
            | inr own ↦ rw own (
                set-Stands (recorded policy now m input existing) input.request_id
                  (load_queue_state s now).1 differs (read-Stands s h))
          ]
