-- ===== src/Connector/InboundInbox/Snapshot.antt =====
-- packages/connector/src/inbound-inbox/storage.ts: `listDeadLetter` and `getSnapshot`, which only read.
use clawdentity.Shared.{
  ℕ, ◌+◌, max, String, Option, none, some, List, [], ◌∷◌, map, take, length, if◌then◌else◌,
}
use clawdentity.Shared.Text.{text_leb}
use clawdentity.Shared.Dict.{Dict}
use clawdentity.Connector.InboundInbox.Types.{
  InboundDeadLetterItem, PendingRow, DeadLetterRow, to_dead_letter_item,
}
use clawdentity.Connector.InboundInbox.Storage.{Database, get_pending_totals, order_dead_letter}

-- `LIMIT ?` where a limit is given.
unfoldable pub limited : Option ℕ → List DeadLetterRow → List DeadLetterRow
limited none rows = rows
limited (some limit) rows = take (max 1 limit) rows

unfoldable pub list_dead_letter : Option ℕ → Database → List InboundDeadLetterItem
unfolding limited
list_dead_letter limit db =
    map to_dead_letter_item (limited limit (order_dead_letter db.dead_letter))

pub record InboundInboxPendingSnapshot : Type 0 where
  pub next_attempt_at : Option String
  pub oldest_pending_at : Option String
  pub pending_bytes : ℕ
  pub pending_count : ℕ

pub record InboundInboxDeadLetterSnapshot : Type 0 where
  pub dead_letter_bytes : ℕ
  pub dead_letter_count : ℕ
  pub oldest_dead_letter_at : Option String

pub record InboundInboxSnapshot : Type 0 where
  pub dead_letter : InboundInboxDeadLetterSnapshot
  pub pending : InboundInboxPendingSnapshot

unfoldable pub earlier_of : String → Option String → Option String
earlier_of text none = some text
earlier_of text (some other) = if text_leb text other then some text else some other

-- `MIN(...)`, which is NULL of no rows.
unfoldable pub min_of : {A : Type 0} → (A → String) → Dict A → Option String
unfolding earlier_of
min_of f [] = none
min_of f ((k, row) ∷ rows) = earlier_of (f row) (min_of f rows)

unfoldable pub dead_letter_bytes_of : Dict DeadLetterRow → ℕ
dead_letter_bytes_of [] = 0
dead_letter_bytes_of ((k, d) ∷ ds) = d.row.payload_bytes + dead_letter_bytes_of ds

unfoldable pub get_snapshot : Database → InboundInboxSnapshot
unfolding min_of dead_letter_bytes_of
get_snapshot db =
    let (pending_count, pending_bytes) = get_pending_totals db in
    record {
      dead_letter = record {
        dead_letter_bytes = dead_letter_bytes_of db.dead_letter;
        dead_letter_count = length db.dead_letter;
        oldest_dead_letter_at = min_of (λ (d : DeadLetterRow). d.dead_lettered_at) db.dead_letter;
      };
      pending = record {
        next_attempt_at = min_of (λ (row : PendingRow). row.next_attempt_at) db.pending;
        oldest_pending_at = min_of (λ (row : PendingRow). row.received_at) db.pending;
        pending_bytes = pending_bytes;
        pending_count = pending_count;
      };
    }
