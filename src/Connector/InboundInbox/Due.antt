-- ===== src/Connector/InboundInbox/Due.antt =====
-- packages/connector/src/inbound-inbox/storage.ts: `listDuePending`, outside the write lock.
use clawdentity.Shared.{
  ℕ, max, String, Bool, true, false, List, [], ◌∷◌, map, filter, take, if◌then◌else◌,
}
use Prim.Native.Nat.{Ordering}
use Prim.Native.String.{compare}
use clawdentity.Shared.Dict.{Dict}
use clawdentity.Connector.InboundInbox.Types.{InboundInboxItem, PendingRow, to_pending_item}
use clawdentity.Connector.InboundInbox.Storage.{Database, later_by}

-- `WHERE next_attempt_at <= ?`
unfoldable pub is_due : String → PendingRow → Bool
is_due now_at row = elim (compare row.next_attempt_at now_at) [
  | Ordering.gt ↦ false
  | Ordering.eq ↦ true
  | Ordering.lt ↦ true
]

-- `ORDER BY next_attempt_at ASC, received_at ASC`
unfoldable pub is_due_after : PendingRow → PendingRow → Bool
unfolding later_by
is_due_after a b =
    later_by (compare a.next_attempt_at b.next_attempt_at) (compare a.received_at b.received_at)

unfoldable pub insert_due : PendingRow → List PendingRow → List PendingRow
insert_due row [] = row ∷ []
insert_due row (other ∷ rows) =
    let rest = insert_due row rows in
    if is_due_after row other then other ∷ rest else row ∷ other ∷ rows

unfoldable pub order_due : Dict PendingRow → List PendingRow
unfolding insert_due
order_due [] = []
order_due ((k, row) ∷ rows) = insert_due row (order_due rows)

unfoldable pub list_due_pending : String → ℕ → Database → List InboundInboxItem
unfolding is_due order_due
list_due_pending now_at limit db =
    map to_pending_item (take (max 1 limit) (filter (is_due now_at) (order_due db.pending)))
