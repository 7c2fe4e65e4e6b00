-- ===== src/Proxy/Relay/Session/Alarm.antt =====
-- No queued delivery is stranded: while the stored queue holds one, the session's alarm is set.
use clawdentity.Shared.{
  ℕ, ◌≡◌, refl, sym, subst, ◌∙◌, ◌⊎◌, inl, inr, false, ◌||◌, Option, none, some, List, [], ◌∷◌, map,
  arith, leb, ltb, Bool-cases, any, filter, length, All,
}
use clawdentity.Shared.Dict.{get}
use clawdentity.Proxy.Relay.Types.{
  RelayDeliveryInput, RelayDeliveryReceipt, RelayReceiptRecordInput, QueuedRelayDelivery,
  RelayQueueState, RelayDeliveryPolicy,
}
use clawdentity.Proxy.Relay.Queue.{prune_expired_queue_state}
use clawdentity.Proxy.Relay.Scheduler.{schedule_next_relay_alarm}
use clawdentity.Proxy.Relay.Scheduler.Wake.{Wakes, schedule-Wakes}
use clawdentity.Proxy.Relay.Manager.{
  SendOutcome, accepted, refused, failed, Turns, Store, save_queue_state, load_queue_state,
  process_queue_deliveries, make_due, schedule_next_alarm, drain_queue_on_reconnect,
  schedule_from_storage,
}
use clawdentity.Proxy.Relay.Manager.Unchanged.{
  load-deliveries, map-make_due_of_any, process-unmutated,
}
use clawdentity.Proxy.Relay.Session.{
  Meets, save_and_schedule, enqueue, sent, dispatch, respond, deliver_to_connector,
  record_delivery_receipt, get_delivery_receipt, alarm, Event, delivers, records, looks_up,
  alarm_fires, reconnects, socket_event, step, run, is_foreign,
}

-- The stored queue and the stored alarm fit.
abbrev pub IsScheduled : ℕ → Store → Type 0
IsScheduled now s = Wakes now s.queue.deliveries s.alarm

-- A stored queue that is not empty has an alarm.
abbrev pub IsArmed : Store → Type 0
IsArmed s = (s.queue.deliveries ≡ []) ⊎ ((t : ℕ) × (s.alarm ≡ some t))

none_left : (ds : List QueuedRelayDelivery) → All (λ _. ⊥) ds → ds ≡ []
none_left [] h = refl
none_left (d ∷ ds) h = absurd h.0

module _ (policy : RelayDeliveryPolicy) (now : ℕ) where
  Wakes-of_unmutated :
      (sockets : ℕ) (turns : Turns) (q : RelayQueueState) (a : Option ℕ)
      → (process_queue_deliveries policy now sockets turns q).mutated ≡ false
      → Wakes now (process_queue_deliveries policy now sockets turns q).state.deliveries a
      → Wakes now q.deliveries a
  Wakes-of_unmutated sockets turns q a h (inl e) = inl (
      none_left q.deliveries (
        (process-unmutated policy now (λ _. ⊥) sockets turns q h).1
          (subst (All (λ _. ⊥)) (sym e) tt)))
  Wakes-of_unmutated sockets turns q a h (inr (t, p, later, rest)) =
      inr (t, p, later, (process-unmutated policy now _ sockets turns q h).1 rest)

  alarm-IsScheduled :
      (sockets : ℕ) (turns : Turns) (s : Store) → IsScheduled now (alarm policy now sockets turns s)
  unfolding alarm save_queue_state schedule_next_alarm
  alarm-IsScheduled sockets turns s =
      let q = (load_queue_state s now).1 in
      let pass = process_queue_deliveries policy now sockets turns q in
      let wakes = schedule-Wakes pass.state now (ltb 0 sockets) in
      elim (Bool-cases pass.mutated) [
        | inl saved ↦ rw saved wakes
        | inr unchanged ↦
            rw (unchanged, load-deliveries s now)
              (Wakes-of_unmutated sockets turns q _ unchanged wakes)
      ]

  socket_event-IsScheduled :
      (sockets : ℕ) (s : Store) → IsScheduled now (schedule_from_storage policy now sockets s)
  unfolding schedule_from_storage schedule_next_alarm
  socket_event-IsScheduled sockets s =
      rw (load-deliveries s now) (schedule-Wakes (load_queue_state s now).1 now (ltb 0 sockets))

  drain-IsScheduled :
      (sockets : ℕ) (turns : Turns) (s : Store)
      → IsScheduled now (drain_queue_on_reconnect policy now sockets turns s)
  unfolding drain_queue_on_reconnect save_queue_state schedule_next_alarm
  drain-IsScheduled sockets turns s =
      let q = (load_queue_state s now).1 in
      let due : RelayQueueState = record q {
        deliveries = map (make_due policy now) q.deliveries;
      } in
      let pass = process_queue_deliveries policy now sockets turns due in
      let wakes = schedule-Wakes pass.state now (ltb 0 sockets) in
      let moved = any (λ (d : QueuedRelayDelivery). ltb now d.next_attempt_at_ms) q.deliveries in
      elim (Bool-cases (moved || pass.mutated)) [
        | inl saved ↦ rw saved wakes
        | inr unchanged ↦
            let still : pass.mutated ≡ false = ground arith in
            let same : map (make_due policy now) q.deliveries ≡ q.deliveries =
              map-make_due_of_any policy now q.deliveries (ground arith) in
            rw (unchanged, load-deliveries s now)
              (subst (λ ds. Wakes now ds (schedule_next_relay_alarm pass.state now (ltb 0 sockets)))
                same (Wakes-of_unmutated sockets turns due _ still wakes))
      ]

  load-alarm : (s : Store) → (load_queue_state s now).0.alarm ≡ s.alarm
  unfolding load_queue_state save_queue_state
  load-alarm s = ground arith

  load_empty : (s : Store) → s.queue.deliveries ≡ [] → (load_queue_state s now).1.deliveries ≡ []
  unfolding load_queue_state prune_expired_queue_state filter
  load_empty s e = rw e

  -- Loading keeps the alarm, and no empty queue gains a delivery.
  load-IsArmed : (s : Store) → IsArmed s → IsArmed (load_queue_state s now).0
  load-IsArmed s (inl e) = inl (load-deliveries s now ∙ load_empty s e)
  load-IsArmed s (inr (t, p)) = inr (t, load-alarm s ∙ p)

  IsArmed-of_IsScheduled : (s : Store) → IsScheduled now s → IsArmed s
  IsArmed-of_IsScheduled s (inl e) = inl e
  IsArmed-of_IsScheduled s (inr (t, p, _, _)) = inr (t, p)

  save_and_schedule-IsArmed :
      (sockets : ℕ) (s : Store) (q : RelayQueueState)
      → IsArmed (save_and_schedule policy now sockets s q)
  unfolding save_and_schedule save_queue_state schedule_next_alarm
  save_and_schedule-IsArmed sockets s q =
      IsArmed-of_IsScheduled (save_and_schedule policy now sockets s q)
        (schedule-Wakes q now (ltb 0 sockets))

  enqueue-IsArmed :
      (m : Meets) (input : RelayDeliveryInput) (prior : ℕ) (s : Store) (q : RelayQueueState)
      → IsArmed s
      → IsArmed (enqueue policy now m input prior s q).0
  unfolding enqueue
  enqueue-IsArmed m input prior s q h = elim (Bool-cases (leb policy.retry_max_attempts prior)) [
    | inl spent ↦ rw spent h
    | inr left ↦ elim (Bool-cases (leb policy.queue_max_messages_per_agent (length q.deliveries))) [
      | inl full ↦ rw (left, full) h
      | inr room ↦ rw (left, room) (save_and_schedule-IsArmed m.sockets s _)
    ]
  ]

  sent-IsArmed :
      (m : Meets) (input : RelayDeliveryInput) (o : SendOutcome) (s : Store) (q : RelayQueueState)
      → IsArmed s
      → IsArmed (sent policy now m input o s q).0
  unfolding sent
  sent-IsArmed m input accepted s q h = save_and_schedule-IsArmed m.sockets s _
  sent-IsArmed m input refused s q h = enqueue-IsArmed m input 1 s q h
  sent-IsArmed m input failed s q h = enqueue-IsArmed m input 1 s q h

  dispatch-IsArmed :
      (m : Meets) (input : RelayDeliveryInput) (s : Store) (q : RelayQueueState)
      → IsArmed s
      → IsArmed (dispatch policy now m input s q).0
  unfolding dispatch
  dispatch-IsArmed m input s q h =
      ground (arith, sent-IsArmed m input m.outcome s q h, enqueue-IsArmed m input 0 s q h)

  respond-IsArmed :
      (m : Meets) (input : RelayDeliveryInput) (r : Option RelayDeliveryReceipt) (s : Store)
      (q : RelayQueueState)
      → IsArmed s
      → IsArmed (respond policy now m input r s q).0
  unfolding respond
  respond-IsArmed m input none s q h = dispatch-IsArmed m input s q h
  respond-IsArmed m input (some r) s q h = ground (arith, dispatch-IsArmed m input s q h)

  record-IsArmed :
      (m : Meets) (input : RelayReceiptRecordInput) (s : Store)
      → IsArmed s
      → IsArmed (record_delivery_receipt policy now m input s).0
  unfolding record_delivery_receipt
  record-IsArmed m input s h =
      elim (Bool-cases
        (is_foreign policy now input (get (load_queue_state s now).1.receipts input.request_id))) [
          | inl foreign ↦ rw foreign (load-IsArmed s h)
          | inr own ↦ rw own (save_and_schedule-IsArmed m.sockets _ _)
        ]

-- An alarm, a reconnect or a web socket event ends with an alarm in time for every delivery in the
-- stored queue: later than the event, and not after the moment when the delivery may be sent.
pub step-IsScheduled :
    (policy : RelayDeliveryPolicy) (s : Store) (now sockets : ℕ) (turns : Turns)
    → IsScheduled now (step policy s (now, alarm_fires sockets turns))
      × IsScheduled now (step policy s (now, reconnects sockets turns))
      × IsScheduled now (step policy s (now, socket_event sockets))
unfolding step
step-IsScheduled policy s now sockets turns = (
  alarm-IsScheduled policy now sockets turns (record s { alarm = none }),
  drain-IsScheduled policy now sockets turns s,
  socket_event-IsScheduled policy now sockets s,
)

step-IsArmed :
    (policy : RelayDeliveryPolicy) (s : Store) (e : ℕ × Event)
    → IsArmed s
    → IsArmed (step policy s e)
unfolding step deliver_to_connector get_delivery_receipt
step-IsArmed policy s (now, delivers m input) h =
    respond-IsArmed policy now m input _ _ _ (load-IsArmed policy now s h)
step-IsArmed policy s (now, records m input) h = record-IsArmed policy now m input s h
step-IsArmed policy s (now, looks_up input) h = load-IsArmed policy now s h
step-IsArmed policy s (now, alarm_fires sockets turns) h =
    IsArmed-of_IsScheduled policy now (alarm policy now sockets turns (record s { alarm = none }))
      (alarm-IsScheduled policy now sockets turns (record s { alarm = none }))
step-IsArmed policy s (now, reconnects sockets turns) h =
    IsArmed-of_IsScheduled policy now (drain_queue_on_reconnect policy now sockets turns s)
      (drain-IsScheduled policy now sockets turns s)
step-IsArmed policy s (now, socket_event sockets) h =
    IsArmed-of_IsScheduled policy now (schedule_from_storage policy now sockets s)
      (socket_event-IsScheduled policy now sockets s)

-- From a store whose alarm is set or whose queue is empty, any events, failing or not, lead to such
-- a store: the session never holds a queued delivery without an alarm to wake it.
pub run-IsArmed :
    (policy : RelayDeliveryPolicy) (s : Store) (es : List (ℕ × Event))
    → IsArmed s
    → IsArmed (run policy s es)
unfolding run
run-IsArmed policy s [] h = h
run-IsArmed policy s (e ∷ es) h =
    run-IsArmed policy (step policy s e) es (step-IsArmed policy s e h)
