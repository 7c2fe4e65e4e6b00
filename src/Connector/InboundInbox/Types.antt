-- ===== src/Connector/InboundInbox/Types.antt =====
-- packages/connector/src/inbound-inbox/{types,records,parse}.ts: the items of the inbox, and the rows
-- that SQLite stores of them. A payload stands for its JSON text.
use clawdentity.Shared.{ℕ, String, Bool, Option, none, some, if◌then◌else◌}
use clawdentity.Shared.Text.{trim, is_empty}

pub record DeliverFrame : Type 0 where
  pub id : String
  pub from_agent_did : String
  pub to_agent_did : String
  pub group_id : Option String
  pub payload : String
  pub conversation_id : Option String
  pub reply_to : Option String

pub record InboundInboxItem : Type 0 where
  pub id : String
  pub request_id : String
  pub from_agent_did : String
  pub to_agent_did : String
  pub group_id : Option String
  pub conversation_id : Option String
  pub reply_to : Option String
  pub payload : String
  pub payload_bytes : ℕ
  pub received_at : String
  pub next_attempt_at : String
  pub attempt_count : ℕ
  pub last_attempt_at : Option String
  pub last_error : Option String

pub record InboundDeadLetterItem : Type 0 where
  pub item : InboundInboxItem
  pub dead_lettered_at : String
  pub dead_letter_reason : String

-- A row of inbox_pending; `none` is NULL.
pub record PendingRow : Type 0 where
  pub id : String
  pub request_id : String
  pub from_agent_did : String
  pub to_agent_did : String
  pub group_id : Option String
  pub conversation_id : Option String
  pub reply_to : Option String
  pub payload : String
  pub payload_bytes : ℕ
  pub received_at : String
  pub next_attempt_at : String
  pub attempt_count : ℕ
  pub last_attempt_at : Option String
  pub last_error : Option String

-- A row of inbox_dead_letter.
pub record DeadLetterRow : Type 0 where
  pub row : PendingRow
  pub dead_lettered_at : String
  pub dead_letter_reason : String

pub data EventType : Type 0 where
  inbound_persisted : EventType
  inbound_duplicate : EventType
  replay_succeeded : EventType
  replay_failed : EventType
  dead_letter_moved : EventType
  dead_letter_replayed : EventType
  dead_letter_purged : EventType

-- The objects that the calls pass as `details`.
pub data EventDetails : Type 0 where
  no_details : EventDetails
  of_item :
      (payload_bytes : ℕ) (from_agent_did to_agent_did : String)
      (group_id conversation_id reply_to : Option String)
      → EventDetails
  of_move : (attempt_count : ℕ) (retryable : Bool) (error_message : String) → EventDetails
  of_failure :
      (attempt_count : ℕ) (next_attempt_at : String) (retryable : Bool) (error_message : String)
      → EventDetails
  of_dead_letter : (dead_lettered_at dead_letter_reason : String) → EventDetails

pub record InboundInboxEvent : Type 0 where
  pub type : EventType
  pub request_id : String
  pub details : EventDetails

non_empty : String → Option String
non_empty s = if is_empty s then none else some s

unfoldable pub parse_optional_non_empty_string : Option String → Option String
unfolding non_empty
parse_optional_non_empty_string none = none
parse_optional_non_empty_string (some value) = non_empty (trim value)

unfoldable pub to_pending_row : InboundInboxItem → PendingRow
to_pending_row item = record {
  id = item.id;
  request_id = item.request_id;
  from_agent_did = item.from_agent_did;
  to_agent_did = item.to_agent_did;
  group_id = item.group_id;
  conversation_id = item.conversation_id;
  reply_to = item.reply_to;
  payload = item.payload;
  payload_bytes = item.payload_bytes;
  received_at = item.received_at;
  next_attempt_at = item.next_attempt_at;
  attempt_count = item.attempt_count;
  last_attempt_at = item.last_attempt_at;
  last_error = item.last_error;
}

unfoldable pub to_pending_item : PendingRow → InboundInboxItem
to_pending_item row = record {
  id = row.id;
  request_id = row.request_id;
  from_agent_did = row.from_agent_did;
  to_agent_did = row.to_agent_did;
  group_id = parse_optional_non_empty_string row.group_id;
  conversation_id = parse_optional_non_empty_string row.conversation_id;
  reply_to = parse_optional_non_empty_string row.reply_to;
  payload = row.payload;
  payload_bytes = row.payload_bytes;
  received_at = row.received_at;
  next_attempt_at = row.next_attempt_at;
  attempt_count = row.attempt_count;
  last_attempt_at = parse_optional_non_empty_string row.last_attempt_at;
  last_error = parse_optional_non_empty_string row.last_error;
}

unfoldable pub to_dead_letter_row : InboundDeadLetterItem → DeadLetterRow
to_dead_letter_row dead = record {
  row = to_pending_row dead.item;
  dead_lettered_at = dead.dead_lettered_at;
  dead_letter_reason = dead.dead_letter_reason;
}

unfoldable pub to_dead_letter_item : DeadLetterRow → InboundDeadLetterItem
to_dead_letter_item dead = record {
  item = to_pending_item dead.row;
  dead_lettered_at = dead.dead_lettered_at;
  dead_letter_reason = dead.dead_letter_reason;
}
