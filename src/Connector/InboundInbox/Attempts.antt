-- ===== src/Connector/InboundInbox/Attempts.antt =====
-- What a failed delivery does to a pending message.
use clawdentity.Shared.{
  ◌+◌, max, ◌≡◌, refl, String, Bool, true, false, not, ◌&&◌, leb, none, some, inl, inr, arith,
  Bool-cases,
}
use clawdentity.Shared.Dict.{get, get-set_self, get-delete_self, All-get}
use clawdentity.Connector.InboundInbox.Types.{
  PendingRow, DeadLetterRow, to_pending_row, to_pending_item, to_dead_letter_row,
}
use clawdentity.Connector.InboundInbox.Storage.{
  Database, get_pending, delete_pending, insert_dead_letter, insert_row, update_pending, update_row,
  append_event,
}
use clawdentity.Connector.InboundInbox.Calls.{
  InboxOptions, ReplayFailure, log, attempted, move_to_dead_letter, keep_pending, fail_entry,
  mark_replay_failure,
}
use clawdentity.Connector.InboundInbox.Sound.{IsSound}

-- This failure is the message's last: it is not retryable, and the attempts are used up.
abbrev pub is_last : ReplayFailure → PendingRow → Bool
is_last input row =
    not input.retryable && leb (max 1 input.max_non_retryable_attempts) (row.attempt_count + 1)

-- The message is a dead letter with the reason, and no longer pending.
pub record IsMoved (input : ReplayFailure) (row : PendingRow) (db : Database) : Type 0 where
  pub dead : DeadLetterRow
  pub gone : get db.pending input.request_id ≡ none
  pub found : get db.dead_letter input.request_id ≡ some dead
  pub payload : dead.row.payload ≡ row.payload
  pub attempts : dead.row.attempt_count ≡ row.attempt_count + 1
  pub reason : dead.dead_letter_reason ≡ input.error_message

-- The message is pending for another attempt at the given time.
pub record IsPostponed (input : ReplayFailure) (row : PendingRow) (db : Database) : Type 0 where
  pub next : PendingRow
  pub found : get db.pending input.request_id ≡ some next
  pub payload : next.payload ≡ row.payload
  pub attempts : next.attempt_count ≡ row.attempt_count + 1
  pub time : next.next_attempt_at ≡ input.next_attempt_at

abbrev pub Outcome : Bool → ReplayFailure → PendingRow → Database → Type 0
Outcome true input row db = IsMoved input row db
Outcome false input row db = IsPostponed input row db

module _ (options : InboxOptions) (now : String) (input : ReplayFailure) (row : PendingRow)
    (db : Database) where
  moved :
      get db.dead_letter input.request_id ≡ none
      → row.request_id ≡ input.request_id
      → (db' : Database) × ((move_to_dead_letter options now input
              (attempted now input (to_pending_item row))
              db
            ≡ some (db', true))
          × IsMoved input row db')
  unfolding move_to_dead_letter log append_event delete_pending insert_dead_letter insert_row
      to_dead_letter_row to_pending_row to_pending_item attempted
  moved free same =
      rw (same, free)
        (
          _,
          (
            refl,
            record {
              dead = _;
              gone = get-delete_self db.pending input.request_id;
              found = get-set_self db.dead_letter input.request_id _;
              payload = refl;
              attempts = refl;
              reason = refl;
            },
          ),
        )

  postponed :
      get db.pending input.request_id ≡ some row
      → row.request_id ≡ input.request_id
      → IsPostponed input row
          (keep_pending options input (attempted now input (to_pending_item row)) db).0
  unfolding keep_pending log append_event update_pending update_row to_pending_row to_pending_item
      attempted
  postponed found same =
      rw (same, found)
        (record {
          next = _;
          found = get-set_self db.pending input.request_id _;
          payload = refl;
          attempts = refl;
          time = refl;
        })

  -- A failure that is reported for a pending message counts as an attempt. The message moves to the
  -- dead letters, with the error as the reason, exactly if the failure is not retryable and the
  -- attempts, of which there is at least one, are used up; else it stays pending until the given
  -- time. Either way its payload stays.
  pub failure-Outcome :
      IsSound db
      → get db.pending input.request_id ≡ some row
      → (db' : Database) × ((mark_replay_failure options now input db
            ≡ some (db', is_last input row))
          × Outcome (is_last input row) input row db')
  unfolding mark_replay_failure get_pending fail_entry to_pending_item attempted keep_pending
  failure-Outcome s found =
      let same =
        All-get (λ e. e.1.request_id ≡ e.0) db.pending input.request_id row s.pending_keyed found in
      let free : get db.dead_letter input.request_id ≡ none =
        ground (arith, s.apart input.request_id, found) in
      elim (Bool-cases (is_last input row)) [
        | inl last ↦ rw (found, last) (moved free same)
        | inr more ↦ rw (found, more) (_, (refl, postponed found same))
      ]
