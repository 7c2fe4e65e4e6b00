-- ===== src/Connector/InboundInbox/Tests.antt =====
-- Runs of the inbox.
use clawdentity.Shared.{Bool-cases, inl, subst, ◌⊎◌, ◌==◌}
use clawdentity.Connector.InboundInbox.Replayed.{IsPendingAgain, replayed_all}
use clawdentity.Connector.InboundInbox.Calls.{replay_dead_letter}
use clawdentity.Shared.{
  arith, eq_iff, ◌≡◌, ◌≤◌, ◌+◌, refl, String, true, false, none, some, [], ◌∷◌, inr, filter, any,
}
use clawdentity.Shared.Dict.{get, set}
use Prim.Native.String.{len}
use clawdentity.Shared.Text.{trim}
use clawdentity.Connector.InboundInbox.Types.{
  inbound_persisted, of_item, DeliverFrame, PendingRow, parse_optional_non_empty_string,
  to_pending_row,
}
use clawdentity.Connector.InboundInbox.Storage.{
  Database, has_request, get_pending_totals, append_event, prune_events, insert_pending,
}
use clawdentity.Connector.InboundInbox.Calls.{
  InboxOptions, ReplayFailure, EnqueueResult, enqueue, build_pending_item, mark_replay_failure,
  sanitize_request_ids,
}
use clawdentity.Connector.InboundInbox.Sound.{IsSound, Succeeds}
use clawdentity.Shared.{map}
use clawdentity.Connector.InboundInbox.Types.{
  DeadLetterRow, InboundDeadLetterItem, to_dead_letter_item, to_pending_item,
}
use clawdentity.Connector.InboundInbox.Storage.{
  order_dead_letter, insert_ordered, comes_after, later_by, sum_bytes,
}
use clawdentity.Connector.InboundInbox.Snapshot.{
  limited, list_dead_letter, min_of, earlier_of, dead_letter_bytes_of, get_snapshot,
}
use clawdentity.Connector.InboundInbox.Kept.{payload_of}
use clawdentity.Connector.InboundInbox.Caps.{enqueue-caps}
use clawdentity.Connector.InboundInbox.Attempts.{is_last, Outcome, failure-Outcome}
use clawdentity.Connector.InboundInbox.Runs.{
  enqueues, delivered, failed, replays, Spares, run, empty_inbox, run-Succeeds, accepted_kept,
}

abbrev options : InboxOptions
options = record { events_max_rows = 3; max_pending_bytes = 100; max_pending_messages = 2 }

abbrev frame : String → DeliverFrame
frame id = record {
  id = id;
  from_agent_did = "did:a";
  to_agent_did = "did:b";
  group_id = some " g ";
  payload = "{}";
  conversation_id = none;
  reply_to = none;
}

abbrev refused_once : ReplayFailure
refused_once = record {
  error_message = "no";
  max_non_retryable_attempts = 1;
  next_attempt_at = "t3";
  request_id = "r1";
  retryable = false;
}

abbrev row : PendingRow
row = record {
  id = "r1";
  request_id = "r1";
  from_agent_did = "did:a";
  to_agent_did = "did:b";
  group_id = some "g";
  conversation_id = none;
  reply_to = none;
  payload = "{}";
  payload_bytes = 2;
  received_at = "t1";
  next_attempt_at = "t1";
  attempt_count = 0;
  last_attempt_at = none;
  last_error = none;
}

abbrev first_result : EnqueueResult
first_result = record { accepted = true; duplicate = false; pending_count = 1; reason = none }

abbrev with_row : Database
with_row = record {
  pending = ("r1", row) ∷ [];
  dead_letter = [];
  events =
      record {
        type = inbound_persisted;
        request_id = "r1";
        details = of_item 2 "did:a" "did:b" (some "g") none none;
      }
      ∷ [];
}

with_row-IsSound : IsSound with_row
unfolding get
with_row-IsSound = record {
  pending_once = (refl, tt);
  dead_once = tt;
  apart = λ id. inr refl;
  pending_keyed = (refl, tt);
  dead_keyed = tt;
}

ids_once : sanitize_request_ids (" a" ∷ "b" ∷ "a " ∷ " " ∷ []) ≡ "a" ∷ "b" ∷ []
unfolding sanitize_request_ids trim filter any
ids_once = refl

enqueued : enqueue options "t1" (frame "r1") empty_inbox ≡ some (with_row, first_result)
unfolding enqueue has_request get get_pending_totals build_pending_item insert_pending append_event
    set prune_events to_pending_row parse_optional_non_empty_string trim
enqueued = refl

run-Succeeds_example : Succeeds (
    run options
      (enqueues "t1" (frame "r1") ∷ failed "t2" refused_once ∷ replays "t4" none ∷ [])
      empty_inbox)
run-Succeeds_example =
    run-Succeeds options
      (enqueues "t1" (frame "r1") ∷ failed "t2" refused_once ∷ replays "t4" none ∷ [])

accepted_kept_example :
    (db'' : Database) × ((run options
          (failed "t2" refused_once ∷ replays "t4" none ∷ delivered "r2" ∷ [])
          with_row
        ≡ some (db'', tt))
      × (payload_of "r1" db'' ≡ some "{}"))
unfolding run Spares
accepted_kept_example =
    accepted_kept options [] (failed "t2" refused_once ∷ replays "t4" none ∷ delivered "r2" ∷ [])
      "t1" (frame "r1") empty_inbox with_row first_result refl enqueued refl refl
      (tt, (tt, ((λ e. ground (arith, (eq_iff "r2" "r1").1 e)), tt)))

enqueue-caps_example :
    (get_pending_totals with_row
      ≡ ((get_pending_totals empty_inbox).0 + 1, (get_pending_totals empty_inbox).1 + len "{}"))
    × ((1 ≡ (get_pending_totals with_row).0)
        × (((get_pending_totals with_row).0 ≤ 2) × ((get_pending_totals with_row).1 ≤ 100)))
enqueue-caps_example =
    enqueue-caps options "t1" (frame "r1") empty_inbox with_row first_result enqueued refl refl

failure-Outcome_example :
    (db' : Database) × ((mark_replay_failure options "t2" refused_once with_row
        ≡ some (db', is_last refused_once row))
      × Outcome (is_last refused_once row) refused_once row db')
unfolding get
failure-Outcome_example =
    failure-Outcome options "t2" refused_once row with_row with_row-IsSound refl

abbrev dead : String → String → DeadLetterRow
dead id at = record {
  row = record row { id = id; request_id = id };
  dead_lettered_at = at;
  dead_letter_reason = "no";
}

abbrev with_dead : Database
with_dead = record with_row { dead_letter = ("r3", dead "r3" "t9") ∷ ("r2", dead "r2" "t8") ∷ [] }

oldest_first :
    map (λ (d : InboundDeadLetterItem). d.item.request_id) (list_dead_letter (some 0) with_dead)
    ≡ "r2" ∷ []
unfolding list_dead_letter limited order_dead_letter insert_ordered comes_after later_by
    to_dead_letter_item to_pending_item
oldest_first = refl

snapshot : get_snapshot with_dead ≡ record {
  dead_letter = record {
    dead_letter_bytes = 4;
    dead_letter_count = 2;
    oldest_dead_letter_at = some "t8";
  };
  pending = record {
    next_attempt_at = some "t1";
    oldest_pending_at = some "t1";
    pending_bytes = 2;
    pending_count = 1;
  };
}
unfolding get_snapshot get_pending_totals sum_bytes min_of earlier_of dead_letter_bytes_of
snapshot = refl

with_dead-IsSound : IsSound with_dead
unfolding get
with_dead-IsSound = record {
  pending_once = (refl, tt);
  dead_once = (refl, (refl, tt));
  apart = λ id. elim (Bool-cases ("r1" == id)) [
    | inl same ↦
        subst (λ j. (get with_dead.pending j ≡ none) ⊎ (get with_dead.dead_letter j ≡ none))
          ((eq_iff "r1" id).0 same) (inr refl)
    | inr differs ↦ inl (rw differs refl)
  ];
  pending_keyed = (refl, tt);
  dead_keyed = (refl, (refl, tt));
}

replayed_all_example :
    (db' : Database) × ((replay_dead_letter options "t9" none with_dead
        ≡ some (db', (get_snapshot with_dead).dead_letter.dead_letter_count))
      × ((((get_snapshot db').dead_letter.dead_letter_count ≡ 0)
            × ((get_snapshot db').pending.pending_count
                ≡ (get_snapshot with_dead).pending.pending_count
                  + (get_snapshot with_dead).dead_letter.dead_letter_count))
          × (((id : String) (d : DeadLetterRow)
                → get with_dead.dead_letter id ≡ some d
                → (d.row.request_id ≡ id) × IsPendingAgain "t9" db'.pending d)
              × ((id : String) (row : PendingRow)
                  → get with_dead.pending id ≡ some row
                  → get db'.pending id ≡ some row))))
replayed_all_example = replayed_all options "t9" with_dead with_dead-IsSound
