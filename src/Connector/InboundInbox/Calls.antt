-- ===== src/Connector/InboundInbox/Calls.antt =====
-- packages/connector/src/inbound-inbox.ts: the calls of the inbox. Each one runs in a transaction
-- under the write lock; `none` is a call that throws, with its transaction rolled back, and `now` is
-- what `nowIso()` gives.
use Prim.Native.String.{len}
use mathlib.Core.Option.{map as map_option}
use clawdentity.Shared.{
  ℕ, ◌+◌, max, String, Bool, true, false, not, ◌&&◌, Option, none, some, List, [], ◌∷◌, map, filter,
  any, leb, ltb, ◌==◌, ◌>>=◌, if◌then◌else◌,
}
use clawdentity.Shared.Text.{trim, is_empty}
use clawdentity.Connector.InboundInbox.Types.{
  DeliverFrame, InboundInboxItem, InboundDeadLetterItem, InboundInboxEvent, EventType, EventDetails,
  parse_optional_non_empty_string, inbound_persisted, inbound_duplicate, replay_succeeded,
  replay_failed, dead_letter_moved, dead_letter_replayed, dead_letter_purged, no_details, of_item,
  of_move, of_failure, of_dead_letter,
}
use clawdentity.Connector.InboundInbox.Storage.{
  Database, append_event, delete_pending, delete_dead_letter, get_pending, get_dead_letter,
  get_pending_totals, has_request, insert_pending, insert_dead_letter, update_pending,
  get_dead_letter_request_ids,
}

pub record InboxOptions : Type 0 where
  pub events_max_rows : ℕ
  pub max_pending_bytes : ℕ
  pub max_pending_messages : ℕ

pub data EnqueueReason : Type 0 where
  message_cap_reached : EnqueueReason
  byte_cap_reached : EnqueueReason

pub record EnqueueResult : Type 0 where
  pub accepted : Bool
  pub duplicate : Bool
  pub pending_count : ℕ
  pub reason : Option EnqueueReason

-- The trimmed ids that are not empty, each once, in the order of their first occurrence.
unique_ids : List String → List String → List String
unique_ids seen [] = []
unique_ids seen (id ∷ ids) =
    let without = unique_ids seen ids in
    let with_it = unique_ids (id ∷ seen) ids in
    if any (λ s. s == id) seen then without else id ∷ with_it

unfoldable pub sanitize_request_ids : List String → List String
unfolding unique_ids
sanitize_request_ids ids = unique_ids [] (filter (λ id. not (is_empty id)) (map trim ids))

unfoldable pub build_pending_item : String → DeliverFrame → InboundInboxItem
build_pending_item now frame = record {
  id = frame.id;
  request_id = frame.id;
  from_agent_did = frame.from_agent_did;
  to_agent_did = frame.to_agent_did;
  group_id = parse_optional_non_empty_string frame.group_id;
  conversation_id = parse_optional_non_empty_string frame.conversation_id;
  reply_to = parse_optional_non_empty_string frame.reply_to;
  payload = frame.payload;
  payload_bytes = len frame.payload;
  received_at = now;
  next_attempt_at = now;
  attempt_count = 0;
  last_attempt_at = none;
  last_error = none;
}

abbrev pub event : EventType → String → EventDetails → InboundInboxEvent
event type request_id details = record { type = type; request_id = request_id; details = details }

pub record ReplayFailure : Type 0 where
  pub error_message : String
  pub max_non_retryable_attempts : ℕ
  pub next_attempt_at : String
  pub request_id : String
  pub retryable : Bool

-- `updatedEntry`
unfoldable pub attempted : String → ReplayFailure → InboundInboxItem → InboundInboxItem
attempted now input entry = record entry {
  attempt_count = entry.attempt_count + 1;
  last_error = some input.error_message;
  last_attempt_at = some now;
}

module _ (options : InboxOptions) where
  unfoldable pub log : InboundInboxEvent → Database → Database
  log e db = append_event options.events_max_rows e db

  unfoldable pub insert_new : InboundInboxItem → ℕ → Database → Option (Database × EnqueueResult)
  unfolding log
  insert_new item pending_count db =
      map_option
        (λ db'. (
          log
              (event inbound_persisted item.request_id (
                of_item item.payload_bytes item.from_agent_did item.to_agent_did item.group_id
                  item.conversation_id item.reply_to))
              db',
          record {
            accepted = true;
            duplicate = false;
            pending_count = pending_count + 1;
            reason = none;
          },
        ))
        (insert_pending item db)

  abbrev refused : ℕ → EnqueueReason → EnqueueResult
  refused pending_count reason = record {
    accepted = false;
    duplicate = false;
    pending_count = pending_count;
    reason = some reason;
  }

  unfoldable pub enqueue : String → DeliverFrame → Database → Option (Database × EnqueueResult)
  unfolding log insert_new
  enqueue now frame db =
      let (pending_count, pending_bytes) = get_pending_totals db in
      let item = build_pending_item now frame in
      if has_request frame.id db
      then some (
        log (event inbound_duplicate frame.id no_details) db,
        record { accepted = true; duplicate = true; pending_count = pending_count; reason = none },
      )
      else if leb options.max_pending_messages pending_count
      then some (db, refused pending_count message_cap_reached)
      else if ltb options.max_pending_bytes (pending_bytes + item.payload_bytes)
      then some (db, refused pending_count byte_cap_reached)
      else insert_new item pending_count db

  unfoldable pub mark_delivered : String → Database → Option {0} (Database × Unit {0})
  unfolding log
  mark_delivered request_id db =
      let (db', changed) = delete_pending request_id db in
      some (if changed then log (event replay_succeeded request_id no_details) db' else db', tt)

  unfoldable pub move_to_dead_letter :
      String → ReplayFailure → InboundInboxItem → Database → Option (Database × Bool)
  unfolding log
  move_to_dead_letter now input updated db =
      let dead : InboundDeadLetterItem = record {
        item = updated;
        dead_lettered_at = now;
        dead_letter_reason = input.error_message;
      } in
      map_option
        (λ db'. (
          log
              (event dead_letter_moved input.request_id
                (of_move updated.attempt_count input.retryable input.error_message))
              db',
          true,
        ))
        (insert_dead_letter dead (delete_pending input.request_id db).0)

  unfoldable pub keep_pending : ReplayFailure → InboundInboxItem → Database → Database × Bool
  unfolding log
  keep_pending input updated db = (
    log
        (event replay_failed input.request_id (
          of_failure updated.attempt_count input.next_attempt_at input.retryable
            input.error_message))
        (update_pending (record updated { next_attempt_at = input.next_attempt_at }) db),
    false,
  )

  unfoldable pub fail_entry :
      String → ReplayFailure → Option InboundInboxItem → Database → Option (Database × Bool)
  fail_entry now input none db = some (db, false)
  fail_entry now input (some entry) db =
      let updated = attempted now input entry in
      if not input.retryable && leb (max 1 input.max_non_retryable_attempts) updated.attempt_count
      then move_to_dead_letter now input updated db
      else some (keep_pending input updated db)

  -- The answer is `movedToDeadLetter`.
  unfoldable pub mark_replay_failure : String → ReplayFailure → Database → Option (Database × Bool)
  mark_replay_failure now input db = fail_entry now input (get_pending input.request_id db) db

  -- Without a list of ids the call takes those of all dead letters.
  chosen_ids : Option (List String) → Database → List String
  chosen_ids none db = get_dead_letter_request_ids db
  chosen_ids (some ids) db = sanitize_request_ids ids

  unfoldable pub replay_one :
      String → String → Option InboundDeadLetterItem → Database → Option (Database × ℕ)
  unfolding log
  replay_one now request_id none db = some (db, 0)
  replay_one now request_id (some dead) db =
      map_option
        (λ db'. (
          log
              (event dead_letter_replayed request_id
                (of_dead_letter dead.dead_lettered_at dead.dead_letter_reason))
              db',
          1,
        ))
        (insert_pending
          (record (dead.item) { next_attempt_at = now; last_error = some dead.dead_letter_reason })
          (delete_dead_letter request_id db))

  unfoldable pub replay_ids : String → List String → ℕ → Database → Option (Database × ℕ)
  replay_ids now [] count db = some (db, count)
  replay_ids now (id ∷ ids) count db = do
    (db', n) ← replay_one now id (get_dead_letter id db) db
    replay_ids now ids (count + n) db'

  -- The answer is `replayedCount`.
  unfoldable pub replay_dead_letter :
      String → Option (List String) → Database → Option (Database × ℕ)
  unfolding chosen_ids
  replay_dead_letter now request_ids db = replay_ids now (chosen_ids request_ids db) 0 db

  unfoldable pub purge_one : String → Option InboundDeadLetterItem → Database → Database × ℕ
  unfolding log
  purge_one request_id none db = (db, 0)
  purge_one request_id (some dead) db = (
    log
        (event dead_letter_purged request_id
          (of_dead_letter dead.dead_lettered_at dead.dead_letter_reason))
        (delete_dead_letter request_id db),
    1,
  )

  unfoldable pub purge_ids : List String → ℕ → Database → Database × ℕ
  purge_ids [] count db = (db, count)
  purge_ids (id ∷ ids) count db =
      let (db', n) = purge_one id (get_dead_letter id db) db in purge_ids ids (count + n) db'

  -- The answer is `purgedCount`.
  unfoldable pub purge_dead_letter : Option (List String) → Database → Option (Database × ℕ)
  unfolding chosen_ids
  purge_dead_letter request_ids db = some (purge_ids (chosen_ids request_ids db) 0 db)
