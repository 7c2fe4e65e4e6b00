-- ===== src/Proxy/Relay/Types.antt =====
-- apps/proxy/src/agent-relay-session/types.ts. Times are milliseconds; `statusUpdatedAt`, the ISO
-- text of an instant, is the instant. A payload is its JSON text.
use clawdentity.Shared.{ℕ, String, Bool, Option, List}
use clawdentity.Shared.Dict.{Dict}

pub record RelayDeliveryInput : Type 0 where
  pub conversation_id : Option String
  pub delivery_source : Option String
  pub group_id : Option String
  pub payload : String
  pub recipient_agent_did : String
  pub reply_to : Option String
  pub request_id : String
  pub sender_agent_did : String

pub data RelayDeliveryState : Type 0 where
  delivered queued delivered_to_webhook dead_lettered : RelayDeliveryState

pub record RelayDeliveryResult : Type 0 where
  pub connected_sockets : ℕ
  pub delivered : Bool
  pub delivery_id : String
  pub queue_depth : ℕ
  pub queued : Bool
  pub state : RelayDeliveryState

-- The two states that a connector may report.
pub data ReceiptStatus : Type 0 where
  to_webhook to_dead_letter : ReceiptStatus

abbrev pub status_state : ReceiptStatus → RelayDeliveryState
status_state to_webhook = delivered_to_webhook
status_state to_dead_letter = dead_lettered

pub record RelayReceiptRecordInput : Type 0 where
  pub reason : Option String
  pub recipient_agent_did : String
  pub request_id : String
  pub sender_agent_did : String
  pub status : ReceiptStatus

pub record RelayReceiptLookupInput : Type 0 where
  pub request_id : String
  pub sender_agent_did : String

pub record QueuedRelayDelivery : Type 0 where
  pub attempt_count : ℕ
  pub created_at_ms : ℕ
  pub delivery_id : String
  pub delivery_source : Option String
  pub group_id : Option String
  pub expires_at_ms : ℕ
  pub next_attempt_at_ms : ℕ
  pub payload : String
  pub recipient_agent_did : String
  pub reply_to : Option String
  pub request_id : String
  pub sender_agent_did : String
  pub conversation_id : Option String

pub record RelayDeliveryReceipt : Type 0 where
  pub delivery_id : String
  pub expires_at_ms : ℕ
  pub recipient_agent_did : String
  pub reason : Option String
  pub request_id : String
  pub sender_agent_did : String
  pub status_updated_at : ℕ
  pub state : RelayDeliveryState

pub record RelayQueueState : Type 0 where
  pub deliveries : List QueuedRelayDelivery
  pub receipts : Dict RelayDeliveryReceipt

-- `retryJitterRatio` is the fraction `jitter_num / jitter_den`.
pub record RelayDeliveryPolicy : Type 0 where
  pub max_frame_bytes : ℕ
  pub max_in_flight_deliveries : ℕ
  pub queue_max_messages_per_agent : ℕ
  pub queue_ttl_ms : ℕ
  pub retry_initial_ms : ℕ
  pub jitter_num : ℕ
  pub jitter_den : ℕ
  pub retry_max_attempts : ℕ
  pub retry_max_ms : ℕ
