-- ===== src/Proxy/Relay/Session/Undisturbed.antt =====
-- No event of another request disturbs a receipt.
use clawdentity.Shared.{
  ℕ, ◌≤◌, ◌<◌, ◌≡◌, inl, inr, false, none, List, [], ◌∷◌, map, any, ltb, ◌||◌, All, Bool-cases,
}
use clawdentity.Proxy.Relay.Types.{RelayDeliveryReceipt, RelayQueueState, RelayDeliveryPolicy}
use clawdentity.Proxy.Relay.Queue.{is_queued}
use clawdentity.Proxy.Relay.Manager.{
  Turns, Store, save_queue_state, load_queue_state, schedule_next_alarm, schedule_from_storage,
  make_due, process_queue_deliveries, drain_queue_on_reconnect,
}
use clawdentity.Proxy.Relay.Manager.Others.{make_due-IsElsewhere, process-Leaves}
use clawdentity.Proxy.Relay.Session.{
  get_delivery_receipt, alarm, Event, delivers, records, looks_up, alarm_fires, reconnects,
  socket_event, step, run,
}
use clawdentity.Proxy.Relay.Session.Receipts.{All-Spares}
use clawdentity.Proxy.Relay.Session.Standing.{
  Stands, SparesReceipt, read-Stands, load-Stands, deliver-Stands, record-Stands,
}

module _ (policy : RelayDeliveryPolicy) (later : ℕ) (r : RelayDeliveryReceipt) where
  -- Events up to this time that leave the receipt alone.
  abbrev pub Undisturbed : List (ℕ × Event) → Type 0
  Undisturbed = All (λ e. (e.0 ≤ later) × SparesReceipt policy later r e.1)

module _ (policy : RelayDeliveryPolicy) (later : ℕ) (r : RelayDeliveryReceipt)
    (live : later < r.expires_at_ms) where
  module _ (now : ℕ) (before : now ≤ later) where
    pass-Stands :
        (sockets : ℕ) (turns : Turns) (q : RelayQueueState)
        → is_queued r.state ≡ false
        → Stands policy later r q
        → Stands policy later r (process_queue_deliveries policy now sockets turns q).state
    pass-Stands sockets turns q idle h =
        let (elsewhere, found) =
          process-Leaves policy now sockets turns r.request_id r q (h.clear idle) h.found in
        record { found = found; spared = All-Spares later r _ idle; clear = λ e. elsewhere }

    alarm-Stands :
        (sockets : ℕ) (turns : Turns) (s : Store)
        → is_queued r.state ≡ false
        → Stands policy later r s.queue
        → Stands policy later r (alarm policy now sockets turns s).queue
    unfolding alarm save_queue_state schedule_next_alarm
    alarm-Stands sockets turns s idle h =
        let q = (load_queue_state s now).1 in
        let pass = process_queue_deliveries policy now sockets turns q in
        elim (Bool-cases pass.mutated) [
          | inl changed ↦
              rw changed
                (pass-Stands sockets turns q idle (read-Stands policy later r live now before s h))
          | inr same ↦ rw same (load-Stands policy later r live now before s h)
        ]

    drain-Stands :
        (sockets : ℕ) (turns : Turns) (s : Store)
        → is_queued r.state ≡ false
        → Stands policy later r s.queue
        → Stands policy later r (drain_queue_on_reconnect policy now sockets turns s).queue
    unfolding drain_queue_on_reconnect save_queue_state schedule_next_alarm
    drain-Stands sockets turns s idle h =
        let q = (load_queue_state s now).1 in
        let read = read-Stands policy later r live now before s h in
        let due = record q { deliveries = map (make_due policy now) q.deliveries } in
        let pass = process_queue_deliveries policy now sockets turns due in
        elim (Bool-cases (any (λ d. ltb now d.next_attempt_at_ms) q.deliveries || pass.mutated)) [
          | inl changed ↦ rw changed (
              pass-Stands sockets turns due idle (record {
                found = read.found;
                spared = All-Spares later r due.deliveries idle;
                clear =
                    λ e. make_due-IsElsewhere policy now r.request_id q.deliveries (read.clear e);
              }))
          | inr same ↦ rw same (load-Stands policy later r live now before s h)
        ]

    step-Stands :
        (e : Event) (s : Store)
        → SparesReceipt policy later r e
        → Stands policy later r s.queue
        → Stands policy later r (step policy s (now, e)).queue
    unfolding step schedule_from_storage schedule_next_alarm get_delivery_receipt
    step-Stands (delivers m input) s spares h =
        deliver-Stands policy later r live now before m input s spares h
    step-Stands (records m input) s spares h =
        record-Stands policy later r live now before m input s spares h
    step-Stands (looks_up input) s spares h = load-Stands policy later r live now before s h
    step-Stands (alarm_fires sockets turns) s spares h =
        alarm-Stands sockets turns (record s { alarm = none }) spares h
    step-Stands (reconnects sockets turns) s spares h = drain-Stands sockets turns s spares h
    step-Stands (socket_event sockets) s spares h = load-Stands policy later r live now before s h

  pub run-Stands :
      (events : List (ℕ × Event)) (s : Store)
      → Undisturbed policy later r events
      → Stands policy later r s.queue
      → Stands policy later r (run policy s events).queue
  unfolding run
  run-Stands [] s h k = k
  run-Stands ((now, e) ∷ events) s ((before, spares), h) k =
      run-Stands events (step policy s (now, e)) h (step-Stands now before e s spares k)
