-- ===== src/Proxy/Relay/Session/Tests.antt =====
-- Runs of a session on small inputs.
use clawdentity.Shared.{
  ℕ, ◌≤◌, ◌≡◌, refl, ◌≢◌, inl, true, false, none, some, List, [], ◌∷◌, Memᴰ, arith, length, filter,
  any,
}
use clawdentity.Shared.Dict.{get, set, delete, retain}
use clawdentity.Proxy.Relay.Types.{
  RelayDeliveryInput, RelayDeliveryReceipt, RelayDeliveryResult, queued, delivered_to_webhook,
  to_webhook, RelayReceiptRecordInput, RelayReceiptLookupInput, QueuedRelayDelivery,
  RelayDeliveryPolicy,
}
use clawdentity.Proxy.Relay.Invariant.{IsWellFormed, empty_queue-IsWellFormed}
use clawdentity.Proxy.Relay.Policy.{Sample, compute_retry_delay_ms}
use clawdentity.Proxy.Relay.Queue.{
  normalize_receipts, delete_queued_receipt, upsert_receipt, prune_expired_queue_state,
  find_next_queue_wake_ms,
}
use clawdentity.Proxy.Relay.Scheduler.{schedule_next_relay_alarm}
use clawdentity.Proxy.Relay.Manager.{
  accepted, failed, Turns, Store, load_queue_state, process_queue_deliveries, process_from,
  postpone_due, drain_queue_on_reconnect, schedule_from_storage, to_input, round, sort_deliveries,
  insert_sorted, in_order, make_due, save_queue_state, schedule_next_alarm,
}
use clawdentity.Proxy.Relay.Manager.Fate.{Fate, process-Fate}
use clawdentity.Proxy.Relay.Manager.Drain.{drain-AcceptsAll}
use clawdentity.Proxy.Relay.Session.{
  Meets, ok, deliver_to_connector, record_delivery_receipt, get_delivery_receipt, alarm, Event,
  delivers, alarm_fires, reconnects, socket_event, step, run, new_store,
}
use clawdentity.Proxy.Relay.Session.Invariant.{run-IsWellFormed}
use clawdentity.Proxy.Relay.Session.Alarm.{IsScheduled, IsArmed, step-IsScheduled, run-IsArmed}
use clawdentity.Proxy.Relay.Session.ReadBack.{get-record}
use clawdentity.Proxy.Relay.Session.{looks_up, socket_event}
use clawdentity.Proxy.Relay.Session.Idempotent.{deliver_twice}
use clawdentity.Proxy.Relay.Session.GroupId.{queued_without_group}

session : Unit {0}
unfolding deliver_to_connector record_delivery_receipt get_delivery_receipt alarm step run
    load_queue_state save_queue_state process_queue_deliveries process_from round postpone_due
    sort_deliveries insert_sorted in_order to_input make_due schedule_next_alarm
    drain_queue_on_reconnect schedule_from_storage normalize_receipts delete_queued_receipt
    upsert_receipt prune_expired_queue_state find_next_queue_wake_ms schedule_next_relay_alarm
    compute_retry_delay_ms get set delete retain filter any
session = tt

abbrev policy : RelayDeliveryPolicy
policy = record {
  max_frame_bytes = 1000;
  max_in_flight_deliveries = 2;
  queue_max_messages_per_agent = 2;
  queue_ttl_ms = 1000;
  retry_initial_ms = 10;
  jitter_num = 1;
  jitter_den = 5;
  retry_max_attempts = 3;
  retry_max_ms = 100;
}

abbrev middle : Sample
middle = record { num = 1; den = 2; below_one = omega arith }

abbrev hello : RelayDeliveryInput
hello = record {
  conversation_id = none;
  delivery_source = none;
  group_id = some "g";
  payload = "{}";
  recipient_agent_did = "bob";
  reply_to = none;
  request_id = "r1";
  sender_agent_did = "ann";
}

abbrev offline : Meets
offline = record { sockets = 0; pending = 0; outcome = failed; random = middle; fresh_id = "d1" }

abbrev online : Meets
online = record { sockets = 1; pending = 0; outcome = accepted; random = middle; fresh_id = "d2" }

abbrev all_accepted : Turns
all_accepted = record { pending = λ _. 0; outcome = λ _ _. accepted; random = λ _. middle }

abbrev all_failed : Turns
all_failed = record { pending = λ _. 0; outcome = λ _ _. failed; random = λ _. middle }

abbrev queued_once : QueuedRelayDelivery
queued_once = record {
  attempt_count = 0;
  created_at_ms = 5;
  delivery_id = "d1";
  delivery_source = none;
  group_id = none;
  expires_at_ms = 1005;
  next_attempt_at_ms = 15;
  payload = "{}";
  recipient_agent_did = "bob";
  reply_to = none;
  request_id = "r1";
  sender_agent_did = "ann";
  conversation_id = none;
}

abbrev waiting_receipt : RelayDeliveryReceipt
waiting_receipt = record {
  delivery_id = "d1";
  expires_at_ms = 1005;
  recipient_agent_did = "bob";
  reason = none;
  request_id = "r1";
  sender_agent_did = "ann";
  status_updated_at = 5;
  state = queued;
}

abbrev waiting : Store
waiting = record {
  queue = record { deliveries = queued_once ∷ []; receipts = ("r1", waiting_receipt) ∷ [] };
  alarm = some 15;
}

abbrev queued_result : RelayDeliveryResult
queued_result = record {
  connected_sockets = 0;
  delivered = false;
  delivery_id = "d1";
  queue_depth = 1;
  queued = true;
  state = queued;
}

-- An offline agent: the delivery is queued, and the alarm set for its next attempt.
queues_offline : deliver_to_connector policy 5 offline hello new_store ≡ (waiting, ok queued_result)
unfolding session
queues_offline = refl

-- The alarm delivers it.
alarm_delivers : (step policy waiting (20, alarm_fires 1 all_accepted)).queue.deliveries ≡ []
unfolding session
alarm_delivers = refl

-- A failed attempt is counted, and the delivery waits for its retry.
alarm_retries : (step policy waiting (20, alarm_fires 1 all_failed)) ≡ record {
  queue = record {
    deliveries = record queued_once { attempt_count = 1; next_attempt_at_ms = 30 } ∷ [];
    receipts = ("r1", waiting_receipt) ∷ [];
  };
  alarm = some 30;
}
unfolding session
alarm_retries = refl

-- With its time over the delivery goes, and its queued receipt with it.
alarm_expires :
    (step policy waiting (1005, alarm_fires 1 all_accepted)).queue
    ≡ record { deliveries = []; receipts = [] }
unfolding session
alarm_expires = refl

process-Fate_example :
    Fate policy 20 queued_once
      (process_queue_deliveries policy 20 1 all_failed waiting.queue).state.deliveries
      (process_queue_deliveries policy 20 1 all_failed waiting.queue).state.receipts
process-Fate_example =
    process-Fate policy 20 1 all_failed waiting.queue queued_once (Memᴰ.head refl)

abbrev history : List (ℕ × Event)
history = (5, delivers offline hello) ∷ (20, alarm_fires 1 all_failed) ∷ []

run-IsWellFormed_example : IsWellFormed policy (run policy new_store history).queue
run-IsWellFormed_example =
    run-IsWellFormed policy new_store history (empty_queue-IsWellFormed policy)

run-IsArmed_example : IsArmed (run policy new_store history)
run-IsArmed_example = run-IsArmed policy new_store history (inl refl)

step-IsScheduled_example :
    IsScheduled 20 (step policy waiting (20, alarm_fires 1 all_failed))
    × IsScheduled 20 (step policy waiting (20, reconnects 1 all_failed))
    × IsScheduled 20 (step policy waiting (20, socket_event 1))
step-IsScheduled_example = step-IsScheduled policy waiting 20 1 all_failed

abbrev report : RelayReceiptRecordInput
report = record {
  reason = none;
  recipient_agent_did = "bob";
  request_id = "r1";
  sender_agent_did = "ann";
  status = to_webhook;
}

abbrev ask : RelayReceiptLookupInput
ask = record { request_id = "r1"; sender_agent_did = "ann" }

-- The alarm fires between the report and the lookup.
abbrev then_alarm : List (ℕ × Event)
then_alarm = (700, alarm_fires 1 all_failed) ∷ []

get-record_example :
    (r : RelayDeliveryReceipt) × ((get_delivery_receipt policy 1500 ask
        (run policy (record_delivery_receipt policy 600 online report new_store).0 then_alarm)).1
      ≡ some r)
    × (r.state ≡ delivered_to_webhook)
    × (r.reason ≡ none)
unfolding session
get-record_example =
    get-record policy 600 online report new_store 1500 ask then_alarm tt tt refl refl (omega arith)
      ((omega arith, refl), tt)

abbrev then_lookup : List (ℕ × Event)
then_lookup = (400, looks_up ask) ∷ (500, socket_event 1) ∷ []

deliver_twice_example :
    (r' : RelayDeliveryResult) × ((deliver_to_connector policy 900 online hello
        (run policy (deliver_to_connector policy 5 offline hello new_store).0 then_lookup)).1
      ≡ ok r')
    × (r'.delivery_id ≡ "d1")
    × (r'.state ≡ queued)
    × (length
          (deliver_to_connector policy 900 online hello (
            run policy
              (deliver_to_connector policy 5 offline hello new_store).0
              then_lookup)).0.queue.deliveries
        ≤ length
            (run policy
              (deliver_to_connector policy 5 offline hello new_store).0
              then_lookup).queue.deliveries)
unfolding session
deliver_twice_example =
    deliver_twice policy 5 900 offline online hello then_lookup new_store queued_result refl tt tt
      (omega arith) refl ((omega arith, tt), ((omega arith, tt), tt))

queued_without_group_example :
    (d : QueuedRelayDelivery) × Memᴰ d
      (deliver_to_connector policy 5 offline hello new_store).0.queue.deliveries
    × (d.delivery_id ≡ "d1")
    × ((to_input d).group_id ≢ some "g")
unfolding session
queued_without_group_example =
    queued_without_group policy 5 offline hello new_store queued_result "g" refl refl refl refl

waiting-IsWellFormed : IsWellFormed policy waiting.queue
unfolding get
waiting-IsWellFormed = record {
  bounded = omega arith;
  attempts = (omega arith, tt);
  keyed = (refl, tt);
  distinct = (refl, tt);
}

drain-AcceptsAll_example :
    (drain_queue_on_reconnect policy 7 1 all_accepted waiting).queue.deliveries ≡ []
drain-AcceptsAll_example =
    drain-AcceptsAll policy 7 1 all_accepted waiting waiting-IsWellFormed (omega arith)
      (record { room = λ _. omega arith; accepts = λ _ _. refl })
