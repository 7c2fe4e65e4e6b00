-- ===== src/Proxy/Relay/Session/ReadBack.antt =====
-- A reported status is read back.
use clawdentity.Shared.{
  ℕ, ◌+◌, ◌<◌, ◌≡◌, refl, sym, subst, ◌∙◌, false, some, List, eq_iff, All-filter, arith,
}
use clawdentity.Shared.Dict.{get}
use clawdentity.Proxy.Relay.Types.{
  RelayDeliveryReceipt, RelayReceiptRecordInput, RelayReceiptLookupInput, status_state,
  RelayDeliveryPolicy,
}
use clawdentity.Proxy.Relay.Queue.{is_queued, prune_expired_queue_state}
use clawdentity.Proxy.Relay.Manager.{Store, save_queue_state, load_queue_state, schedule_next_alarm}
use clawdentity.Proxy.Relay.Manager.Others.{IsElsewhere}
use clawdentity.Proxy.Relay.Session.{
  Meets, recorded, record_delivery_receipt, get_delivery_receipt, Event, run,
}
use clawdentity.Proxy.Relay.Session.Receipts.{
  IsOwn, existing, not_foreign, recorded_fields, status-not_queued, record-stores, All-Spares,
}
use clawdentity.Proxy.Relay.Session.Standing.{read-Stands}
use clawdentity.Proxy.Relay.Session.Undisturbed.{Undisturbed, run-Stands}

module _ (policy : RelayDeliveryPolicy) (now : ℕ) (m : Meets) (input : RelayReceiptRecordInput)
    (s : Store) where
  -- The receipt that the report writes.
  abbrev pub written : RelayDeliveryReceipt
  written = recorded policy now m input (existing policy now m input s)

  record-IsElsewhere :
      IsOwn input (existing policy now m input s)
      → IsElsewhere input.request_id s.queue.deliveries
      → IsElsewhere input.request_id
          (record_delivery_receipt policy now m input s).0.queue.deliveries
  unfolding record_delivery_receipt save_queue_state schedule_next_alarm load_queue_state
      prune_expired_queue_state
  record-IsElsewhere own h =
      rw (not_foreign policy now m input (existing policy now m input s) own)
        (All-filter _ _ s.queue.deliveries h)

  -- A status that the connector reports for a request that is not queued is what the sender reads
  -- back, with its reason, until the receipt's time runs out, whatever deliveries, alarms, reconnects
  -- and lookups there are in between, each a step from load to save, up to the lookup's time: as
  -- long as no other report is for the request, no delivery of it is from or to others, and none
  -- makes the receipt's delivery id anew. The receipt that was there before, if any, must have the
  -- request id and the parties of the report.
  pub get-record :
      (later : ℕ) (ask : RelayReceiptLookupInput) (events : List (ℕ × Event))
      → IsOwn input (existing policy now m input s)
      → IsElsewhere input.request_id s.queue.deliveries
      → ask.request_id ≡ input.request_id
      → ask.sender_agent_did ≡ input.sender_agent_did
      → later < now + policy.queue_ttl_ms
      → Undisturbed policy later written events
      → (r : RelayDeliveryReceipt) × ((get_delivery_receipt policy later ask
            (run policy (record_delivery_receipt policy now m input s).0 events)).1
          ≡ some r)
        × (r.state ≡ status_state input.status)
        × (r.reason ≡ input.reason)
  unfolding get_delivery_receipt
  get-record later ask events own elsewhere same_id same_sender soon' quiet =
      let r = written in
      let (key, sender, state, reason, expires) =
        recorded_fields policy now m input (existing policy now m input s) own in
      let soon : later < r.expires_at_ms = omega (arith, soon', expires) in
      let after = (record_delivery_receipt policy now m input s).0 in
      let idle : is_queued r.state ≡ false = rw state (status-not_queued input.status) in
      let stands = run-Stands policy later r soon events after quiet (record {
        found =
            subst (λ k. get after.queue.receipts k ≡ some r) (sym key)
              (record-stores policy now m input s own);
        spared = All-Spares later r after.queue.deliveries idle;
        clear = λ e.
            subst (λ k. IsElsewhere k after.queue.deliveries) (sym key)
              (record-IsElsewhere own elsewhere);
      }) in
      let found =
        (read-Stands policy later r soon later (omega arith) (run policy after events)
          stands).found in
      let visible = (eq_iff r.sender_agent_did ask.sender_agent_did).1 (sender ∙ sym same_sender) in
      (r, rw (same_id ∙ sym key, found, visible) refl, state, reason)
