-- ===== src/Connector/Replay/Tests.antt =====
-- Runs of the replay.
use clawdentity.Shared.{
  ℕ, ◌≡◌, refl, String, true, false, none, some, List, [], ◌∷◌, ◌++◌, All, filter, inr, map, ltb,
  if◌then◌else◌,
}
use clawdentity.Shared.Text.{trim}
use clawdentity.Shared.Dict.{get, set, delete}
use clawdentity.Connector.InboundInbox.Types.{
  InboundInboxItem, PendingRow, to_pending_item, parse_optional_non_empty_string,
}
use clawdentity.Connector.InboundInbox.Storage.{
  Database, later_by, delete_pending, is_there, append_event, prune_events,
}
use clawdentity.Connector.InboundInbox.Calls.{InboxOptions, log, mark_delivered}
use clawdentity.Connector.InboundInbox.Sound.{IsSound}
use clawdentity.Connector.InboundInbox.Kept.{payload_of}
use clawdentity.Connector.InboundInbox.Due.{
  is_due, is_due_after, insert_due, order_due, list_due_pending,
}
use clawdentity.Connector.Replay.Delivery.{
  other, DeliveryError, InboundReplayPolicy, token_changed, Tries, attempts_remain, retry_or_throw,
  after_failure, deliver_from, compute_runtime_replay_retry_delay_ms, compute_replay_delay_ms,
  deliver_to_delivery_webhook_hook_with_retry,
}
use clawdentity.Connector.Replay.Delivery.Attempts.{Ends, deliver-Ends}
use clawdentity.Connector.Replay.Lanes.{key_of, lane_key, push, group_from, group_due_items_by_lane}
use clawdentity.Connector.Replay.Lanes.Grouped.{in_lane}
use clawdentity.Connector.Replay.Pass.{
  Turn, delivery_ends, settles, end_delivery, lane_ends_delivery, settle_accepted, lane_settles,
  to_lanes, turn, turns, taken, begin_pass, replay_pending_inbound_messages,
}
use clawdentity.Connector.Replay.Pass.Holds.{is_accepted, IsHonest}
use clawdentity.Connector.Replay.Pass.Kept.{pass_keeps}
use clawdentity.Connector.Replay.Pass.Order.{pass_in_order}
use clawdentity.Connector.Replay.Pass.Progress.{GoesOn}
use clawdentity.Connector.Replay.Pass.Rounds.{rounds}
use clawdentity.Connector.Replay.Pass.Complete.{ready, pass_attempts_all, due_attempted}
use clawdentity.Shared.{Memᴰ, ◌≤◌, length, arith}

abbrev policy : InboundReplayPolicy
policy = record {
  batch_size = 10;
  dead_letter_non_retryable_max_attempts = 5;
  retry_initial_delay_ms = 100;
  retry_max_delay_ms = 1000;
  retry_backoff_factor = (2, 1);
  runtime_replay_max_attempts = 3;
  runtime_replay_retry_initial_delay_ms = 10;
  runtime_replay_retry_max_delay_ms = 100;
  runtime_replay_retry_backoff_factor = (2, 1);
}

abbrev unavailable : DeliveryError
unavailable = record { code = other; retryable = true; reason = "503" }

-- The webhook accepts the second attempt.
abbrev second_works : Tries
second_works = record {
  hook = λ attempt. if ltb attempt 2 then some unavailable else none;
  sync = λ attempt. token_changed false;
  stopping_after_sync = λ attempt. false;
  stopping = λ attempt. false;
  stops_in_wait = λ attempt delay. false;
}

second_attempt : deliver_to_delivery_webhook_hook_with_retry policy second_works ≡ some (2, none)
unfolding deliver_to_delivery_webhook_hook_with_retry deliver_from after_failure retry_or_throw
    attempts_remain compute_runtime_replay_retry_delay_ms
second_attempt = refl

delays : compute_replay_delay_ms 3 policy ≡ 400
unfolding compute_replay_delay_ms
delays = refl

deliver-Ends_example :
    Ends policy second_works 1 (deliver_to_delivery_webhook_hook_with_retry policy second_works)
deliver-Ends_example = deliver-Ends policy second_works

abbrev row : String → String → PendingRow
row id received_at = record {
  id = id;
  request_id = id;
  from_agent_did = "did:a";
  to_agent_did = "did:b";
  group_id = none;
  conversation_id = some "c";
  reply_to = none;
  payload = "{}";
  payload_bytes = 2;
  received_at = received_at;
  next_attempt_at = received_at;
  attempt_count = 0;
  last_attempt_at = none;
  last_error = none;
}

abbrev two_rows : Database
two_rows = record {
  pending = ("r2", row "r2" "t2") ∷ ("r1", row "r1" "t1") ∷ [];
  dead_letter = [];
  events = [];
}

two_rows-IsSound : IsSound two_rows
unfolding get
two_rows-IsSound = record {
  pending_once = (refl, (refl, tt));
  dead_once = tt;
  apart = λ id. inr refl;
  pending_keyed = (refl, (refl, tt));
  dead_keyed = tt;
}

abbrev options : InboxOptions
options = record { events_max_rows = 3; max_pending_bytes = 100; max_pending_messages = 2 }

abbrev to_iso : ℕ → String
to_iso n = "t9"

-- The first message is delivered, and the second one is under way.
abbrev two_turns : List Turn
two_turns =
    delivery_ends "conversation:c" second_works ∷ settles "conversation:c" "t3" 3 "thrown" ∷ []

first_of_two :
    map
      (λ r. r.request_id)
      (replay_pending_inbound_messages options policy to_iso ready "t3" two_turns
        two_rows).attempted
    ≡ "r1" ∷ []
unfolding replay_pending_inbound_messages begin_pass taken list_due_pending is_due order_due
    insert_due is_due_after later_by filter to_pending_item parse_optional_non_empty_string trim
    to_lanes group_due_items_by_lane group_from push lane_key key_of get set delete turns turn
    lane_ends_delivery end_delivery lane_settles settle_accepted mark_delivered log delete_pending
    is_there append_event prune_events deliver_to_delivery_webhook_hook_with_retry deliver_from
    after_failure retry_or_throw attempts_remain compute_runtime_replay_retry_delay_ms
first_of_two = refl

here : payload_of "r2" two_rows ≡ some "{}"
unfolding get
here = refl

pass_keeps_example :
    (is_accepted
          (replay_pending_inbound_messages options policy to_iso ready "t3" two_turns
            two_rows).accepted
          "r2"
        ≡ false
      → payload_of "r2"
          (replay_pending_inbound_messages options policy to_iso ready "t3" two_turns two_rows).db
        ≡ some "{}")
    × All
        (IsHonest
          (replay_pending_inbound_messages options policy to_iso ready "t3" two_turns
            two_rows).accepted)
        (replay_pending_inbound_messages options policy to_iso ready "t3" two_turns
          two_rows).receipts
pass_keeps_example =
    pass_keeps options policy to_iso "r2" "{}" ready "t3" two_turns two_rows two_rows-IsSound here
      (tt, (tt, tt))

pass_in_order_example :
    (rest : List InboundInboxItem) × (filter
          (in_lane "conversation:c")
          (replay_pending_inbound_messages options policy to_iso ready "t3" two_turns
            two_rows).attempted
        ++ rest
      ≡ filter (in_lane "conversation:c") (taken options policy to_iso ready "t3" two_rows))
pass_in_order_example =
    pass_in_order options policy to_iso ready "t3" two_turns two_rows "conversation:c"

-- Both messages have their round.
abbrev four_turns : List Turn
four_turns =
    delivery_ends "conversation:c" second_works
    ∷ settles "conversation:c" "t3" 3 "thrown"
    ∷ delivery_ends "conversation:c" second_works
    ∷ settles "conversation:c" "t4" 4 "thrown"
    ∷ []

goes_on : GoesOn policy second_works
goes_on attempt e h = cc (second_attempt, h)

two_rounds :
    length (filter (in_lane "conversation:c") (taken options policy to_iso ready "t3" two_rows))
    ≤ rounds "conversation:c" false four_turns
unfolding taken list_due_pending is_due order_due insert_due is_due_after later_by filter
    to_pending_item parse_optional_non_empty_string trim lane_key key_of rounds
two_rounds = omega arith

pass_attempts_all_example :
    filter
      (in_lane "conversation:c")
      (replay_pending_inbound_messages options policy to_iso ready "t3" four_turns
        two_rows).attempted
    ≡ filter (in_lane "conversation:c") (taken options policy to_iso ready "t3" two_rows)
pass_attempts_all_example =
    pass_attempts_all options policy to_iso ready "t3" four_turns two_rows "conversation:c"
      two_rows-IsSound (goes_on, (tt, (goes_on, (tt, tt)))) two_rounds

due_there : get two_rows.pending "r1" ≡ some (row "r1" "t1")
unfolding get
due_there = refl

due_now : is_due "t3" (row "r1" "t1") ≡ true
unfolding is_due
due_now = refl

two_rounds_of_all :
    length (taken options policy to_iso ready "t3" two_rows)
    ≤ rounds (lane_key (to_pending_item (row "r1" "t1"))) false four_turns
unfolding taken list_due_pending is_due order_due insert_due is_due_after later_by filter
    to_pending_item parse_optional_non_empty_string trim lane_key key_of rounds
two_rounds_of_all = omega arith

due_attempted_example :
    Memᴰ
      (to_pending_item (row "r1" "t1"))
      (replay_pending_inbound_messages options policy to_iso ready "t3" four_turns
        two_rows).attempted
due_attempted_example =
    due_attempted options policy to_iso "t3" "r1" (row "r1" "t1") four_turns two_rows
      two_rows-IsSound due_there due_now (omega arith) (goes_on, (tt, (goes_on, (tt, tt))))
      two_rounds_of_all
