-- ===== src/Proxy/Relay/Session/Invariant.antt =====
-- Every handler keeps a session's stored queue well formed.
use clawdentity.Shared.{
  ℕ, ◌<◌, ◌≡◌, refl, Option, none, some, List, [], ◌∷◌, ◌++◌, arith, inl, inr, Option-cases,
  length-append, All-append,
}
use clawdentity.Shared.Dict.{get, set, All-set, All-get, set-IsDistinct}
use clawdentity.Proxy.Relay.Types.{
  RelayDeliveryInput, RelayDeliveryReceipt, queued, RelayReceiptRecordInput, RelayQueueState,
  RelayDeliveryPolicy,
}
use clawdentity.Proxy.Relay.Invariant.{IsKeyed, HasAttemptsLeft, IsWellFormed}
use clawdentity.Proxy.Relay.Queue.{upsert_receipt}
use clawdentity.Proxy.Relay.Queue.Prune.{upsert_receipt-IsKeyed, upsert_receipt-IsDistinct}
use clawdentity.Proxy.Relay.Manager.{
  SendOutcome, accepted, refused, failed, Turns, Store, save_queue_state, schedule_next_alarm,
  schedule_from_storage,
}
use clawdentity.Proxy.Relay.Manager.Bounds.{
  process-IsWellFormed, load-IsWellFormed, drain-IsWellFormed,
}
use clawdentity.Proxy.Relay.Session.{
  Meets, receipt_for, queued_delivery, enqueue, sent, dispatch, respond, deliver_to_connector,
  recorded, record_delivery_receipt, get_delivery_receipt, alarm, Event, delivers, records,
  looks_up, alarm_fires, reconnects, socket_event, step, run,
}

module _ (policy : RelayDeliveryPolicy) (now : ℕ) where
  upsert-IsWellFormed :
      (q : RelayQueueState) (r : RelayDeliveryReceipt)
      → IsWellFormed policy q
      → IsWellFormed policy (record q { receipts = upsert_receipt q.receipts r })
  upsert-IsWellFormed q r v = record {
    bounded = v.bounded;
    attempts = v.attempts;
    keyed = upsert_receipt-IsKeyed q.receipts r v.keyed;
    distinct = upsert_receipt-IsDistinct q.receipts r v.distinct;
  }

  appended-HasAttemptsLeft :
      (m : Meets) (input : RelayDeliveryInput) (prior : ℕ) (q : RelayQueueState)
      → HasAttemptsLeft policy q.deliveries
      → prior < policy.retry_max_attempts
      → HasAttemptsLeft policy (q.deliveries ++ queued_delivery policy now m input prior ∷ [])
  unfolding queued_delivery
  appended-HasAttemptsLeft m input prior q h p = All-append _ q.deliveries _ h (p, tt)

  enqueue-IsWellFormed :
      (m : Meets) (input : RelayDeliveryInput) (prior : ℕ) (s : Store) (q : RelayQueueState)
      → IsWellFormed policy s.queue
      → IsWellFormed policy q
      → IsWellFormed policy (enqueue policy now m input prior s q).0.queue
  unfolding enqueue save_queue_state schedule_next_alarm
  enqueue-IsWellFormed m input prior s q stored v = ground (
    arith,
    length-append {0} q.deliveries (queued_delivery policy now m input prior ∷ []),
    appended-HasAttemptsLeft m input prior q,
    upsert_receipt-IsKeyed q.receipts (receipt_for policy now input m.fresh_id queued) v.keyed,
    upsert_receipt-IsDistinct q.receipts (receipt_for policy now input m.fresh_id queued)
        v.distinct,
  )

  sent-IsWellFormed :
      (m : Meets) (input : RelayDeliveryInput) (o : SendOutcome) (s : Store) (q : RelayQueueState)
      → IsWellFormed policy s.queue
      → IsWellFormed policy q
      → IsWellFormed policy (sent policy now m input o s q).0.queue
  unfolding sent save_queue_state schedule_next_alarm
  sent-IsWellFormed m input accepted s q stored v = upsert-IsWellFormed q _ v
  sent-IsWellFormed m input refused s q stored v = enqueue-IsWellFormed m input 1 s q stored v
  sent-IsWellFormed m input failed s q stored v = enqueue-IsWellFormed m input 1 s q stored v

  dispatch-IsWellFormed :
      (m : Meets) (input : RelayDeliveryInput) (s : Store) (q : RelayQueueState)
      → IsWellFormed policy s.queue
      → IsWellFormed policy q
      → IsWellFormed policy (dispatch policy now m input s q).0.queue
  unfolding dispatch
  dispatch-IsWellFormed m input s q stored v = ground (
    arith,
    sent-IsWellFormed m input m.outcome s q stored v,
    enqueue-IsWellFormed m input 0 s q stored v,
  )

  respond-IsWellFormed :
      (m : Meets) (input : RelayDeliveryInput) (r : Option RelayDeliveryReceipt) (s : Store)
      (q : RelayQueueState)
      → IsWellFormed policy s.queue
      → IsWellFormed policy q
      → IsWellFormed policy (respond policy now m input r s q).0.queue
  unfolding respond
  respond-IsWellFormed m input none s q stored v = dispatch-IsWellFormed m input s q stored v
  respond-IsWellFormed m input (some r) s q stored v =
      ground (arith, dispatch-IsWellFormed m input s q stored v)

  deliver-IsWellFormed :
      (m : Meets) (input : RelayDeliveryInput) (s : Store)
      → IsWellFormed policy s.queue
      → IsWellFormed policy (deliver_to_connector policy now m input s).0.queue
  unfolding deliver_to_connector
  deliver-IsWellFormed m input s v =
      let (stored, loaded) = load-IsWellFormed policy now s v in
      respond-IsWellFormed m input _ _ _ stored loaded

  -- A receipt is written under its own request id.
  recorded-request_id :
      (m : Meets) (input : RelayReceiptRecordInput) (q : RelayQueueState)
      → IsKeyed q.receipts
      → (recorded policy now m input (get q.receipts input.request_id)).request_id
        ≡ input.request_id
  unfolding recorded
  recorded-request_id m input q k = elim (Option-cases (get q.receipts input.request_id)) [
    | inl e ↦ rw e refl
    | inr (r, e) ↦ rw e (All-get _ q.receipts input.request_id r k e)
  ]

  recorded-IsWellFormed :
      (m : Meets) (input : RelayReceiptRecordInput) (q : RelayQueueState)
      → IsWellFormed policy q
      → IsWellFormed policy (record q {
        receipts =
            set q.receipts input.request_id
              (recorded policy now m input (get q.receipts input.request_id));
      })
  recorded-IsWellFormed m input q v = record {
    bounded = v.bounded;
    attempts = v.attempts;
    keyed = All-set _ q.receipts _ _ v.keyed (recorded-request_id m input q v.keyed);
    distinct = set-IsDistinct q.receipts _ _ v.distinct;
  }

  record-IsWellFormed :
      (m : Meets) (input : RelayReceiptRecordInput) (s : Store)
      → IsWellFormed policy s.queue
      → IsWellFormed policy (record_delivery_receipt policy now m input s).0.queue
  unfolding record_delivery_receipt save_queue_state schedule_next_alarm
  record-IsWellFormed m input s v =
      let (stored, loaded) = load-IsWellFormed policy now s v in
      ground (arith, recorded-IsWellFormed m input _ loaded)

  alarm-IsWellFormed :
      (sockets : ℕ) (turns : Turns) (s : Store)
      → IsWellFormed policy s.queue
      → IsWellFormed policy (alarm policy now sockets turns s).queue
  unfolding alarm save_queue_state schedule_next_alarm
  alarm-IsWellFormed sockets turns s v =
      let (stored, loaded) = load-IsWellFormed policy now s v in
      ground (arith, process-IsWellFormed policy now sockets turns _ loaded)

pub step-IsWellFormed :
    (policy : RelayDeliveryPolicy) (s : Store) (e : ℕ × Event)
    → IsWellFormed policy s.queue
    → IsWellFormed policy (step policy s e).queue
unfolding step get_delivery_receipt schedule_from_storage schedule_next_alarm
step-IsWellFormed policy s (now, delivers m input) v = deliver-IsWellFormed policy now m input s v
step-IsWellFormed policy s (now, records m input) v = record-IsWellFormed policy now m input s v
step-IsWellFormed policy s (now, looks_up input) v = (load-IsWellFormed policy now s v).0
step-IsWellFormed policy s (now, alarm_fires sockets turns) v =
    alarm-IsWellFormed policy now sockets turns (record s { alarm = none }) v
step-IsWellFormed policy s (now, reconnects sockets turns) v =
    drain-IsWellFormed policy now sockets turns s v
step-IsWellFormed policy s (now, socket_event sockets) v = (load-IsWellFormed policy now s v).0

-- After any events from an empty storage, the queue holds at most the configured number of
-- messages, each queued delivery has an attempt left, and every receipt stands once, under its own
-- request id.
pub run-IsWellFormed :
    (policy : RelayDeliveryPolicy) (s : Store) (es : List (ℕ × Event))
    → IsWellFormed policy s.queue
    → IsWellFormed policy (run policy s es).queue
unfolding run
run-IsWellFormed policy s [] v = v
run-IsWellFormed policy s (e ∷ es) v =
    run-IsWellFormed policy (step policy s e) es (step-IsWellFormed policy s e v)
