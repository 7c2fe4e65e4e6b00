-- ===== src/Connector/InboundInbox/Storage.antt =====
-- packages/connector/src/inbound-inbox/storage.ts: the operations of a write transaction. A table is
-- the dictionary of its rows by their primary key, and the events are a list, the newest first. An
-- operation that SQLite refuses gives `none`: the transaction is rolled back and the call throws.
use clawdentity.Shared.{
  ℕ, ◌+◌, max, String, Bool, true, false, ◌||◌, Option, none, some, List, [], ◌∷◌, length, take,
  map, if◌then◌else◌,
}
use mathlib.Core.Option.{map as map_option}
use Prim.Native.Nat.{Ordering}
use Prim.Native.String.{compare}
use clawdentity.Shared.Dict.{Dict, get, set, delete}
use clawdentity.Connector.InboundInbox.Types.{
  InboundInboxItem, InboundDeadLetterItem, PendingRow, DeadLetterRow, InboundInboxEvent,
  to_pending_row, to_pending_item, to_dead_letter_row, to_dead_letter_item,
}

pub record Database : Type 0 where
  pub pending : Dict PendingRow
  pub dead_letter : Dict DeadLetterRow
  pub events : List InboundInboxEvent

-- `DELETE ... WHERE id < threshold`, where the threshold is the id of the last of the newest
-- `eventsMaxRows` events.
unfoldable pub prune_events : ℕ → List InboundInboxEvent → List InboundInboxEvent
prune_events events_max_rows events = take (max 1 events_max_rows) events

unfoldable pub append_event : ℕ → InboundInboxEvent → Database → Database
append_event events_max_rows event db = record db {
  events = prune_events events_max_rows (event ∷ db.events);
}

unfoldable pub is_there : {A : Type 0} → Option A → Bool
is_there none = false
is_there (some x) = true

-- The rows left, and whether there was one to delete.
unfoldable pub delete_pending : String → Database → Database × Bool
unfolding is_there
delete_pending request_id db =
    (record db { pending = delete db.pending request_id }, is_there (get db.pending request_id))

unfoldable pub delete_dead_letter : String → Database → Database
delete_dead_letter request_id db = record db { dead_letter = delete db.dead_letter request_id }

unfoldable pub get_pending : String → Database → Option InboundInboxItem
get_pending request_id db = map_option to_pending_item (get db.pending request_id)

unfoldable pub get_dead_letter : String → Database → Option InboundDeadLetterItem
get_dead_letter request_id db = map_option to_dead_letter_item (get db.dead_letter request_id)

unfoldable pub sum_bytes : Dict PendingRow → ℕ
sum_bytes [] = 0
sum_bytes ((k, row) ∷ rows) = row.payload_bytes + sum_bytes rows

-- The count and the bytes.
unfoldable pub get_pending_totals : Database → ℕ × ℕ
unfolding sum_bytes
get_pending_totals db = (length db.pending, sum_bytes db.pending)

unfoldable pub has_request : String → Database → Bool
unfolding is_there
has_request request_id db =
    is_there (get db.pending request_id) || is_there (get db.dead_letter request_id)

unfoldable pub insert_row : {A : Type 0} → Dict A → String → A → Option A → Option (Dict A)
insert_row rows key row (some old) = none
insert_row rows key row none = some (set rows key row)

-- `INSERT` refuses a primary key that is there.
unfoldable pub insert_pending : InboundInboxItem → Database → Option Database
unfolding insert_row
insert_pending item db =
    let row = to_pending_row item in
    map_option (λ rows. record db { pending = rows })
      (insert_row db.pending row.request_id row (get db.pending row.request_id))

unfoldable pub insert_dead_letter : InboundDeadLetterItem → Database → Option Database
unfolding insert_row
insert_dead_letter dead db =
    let row = to_dead_letter_row dead in
    map_option (λ rows. record db { dead_letter = rows })
      (insert_row db.dead_letter row.row.request_id row (get db.dead_letter row.row.request_id))

unfoldable pub update_row : Dict PendingRow → PendingRow → Option PendingRow → Dict PendingRow
update_row rows row none = rows
update_row rows row (some old) = set rows row.request_id row

unfoldable pub update_pending : InboundInboxItem → Database → Database
unfolding update_row
update_pending item db =
    let row = to_pending_row item in
    record db { pending = update_row db.pending row (get db.pending row.request_id) }

unfoldable pub later_by : Ordering → Ordering → Bool
later_by Ordering.lt o = false
later_by Ordering.gt o = true
later_by Ordering.eq Ordering.gt = true
later_by Ordering.eq o = false

-- `ORDER BY dead_lettered_at ASC, received_at ASC`
unfoldable pub comes_after : DeadLetterRow → DeadLetterRow → Bool
unfolding later_by
comes_after a b =
    later_by (compare a.dead_lettered_at b.dead_lettered_at)
      (compare a.row.received_at b.row.received_at)

unfoldable pub insert_ordered : DeadLetterRow → List DeadLetterRow → List DeadLetterRow
unfolding comes_after
insert_ordered d [] = d ∷ []
insert_ordered d (e ∷ es) =
    let rest = insert_ordered d es in if comes_after d e then e ∷ rest else d ∷ e ∷ es

unfoldable pub order_dead_letter : Dict DeadLetterRow → List DeadLetterRow
unfolding insert_ordered
order_dead_letter [] = []
order_dead_letter ((k, d) ∷ ds) = insert_ordered d (order_dead_letter ds)

unfoldable pub get_dead_letter_request_ids : Database → List String
unfolding order_dead_letter
get_dead_letter_request_ids db = map (λ d. d.row.request_id) (order_dead_letter db.dead_letter)
