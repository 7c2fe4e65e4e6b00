-- ===== src/Connector/InboundInbox/Caps.antt =====
-- What an enqueued frame adds to the inbox, and its caps.
use Prim.Native.String.{len}
use clawdentity.Shared.{
  ◌+◌, ◌≤◌, ◌≡◌, refl, inl, inr, String, true, false, none, some, [], ◌∷◌, length, arith,
  Bool-cases, leb, ltb,
}
use clawdentity.Shared.Dict.{Dict, get, set, get-set_self}
use clawdentity.Connector.InboundInbox.Types.{DeliverFrame, PendingRow, to_pending_row}
use clawdentity.Connector.InboundInbox.Storage.{
  Database, has_request, get_pending_totals, sum_bytes, append_event, insert_pending, insert_row,
}
use clawdentity.Connector.InboundInbox.Calls.{
  InboxOptions, EnqueueResult, log, insert_new, build_pending_item, enqueue,
}
use clawdentity.Connector.InboundInbox.Preserved.{has_request-none}
use clawdentity.Connector.InboundInbox.Kept.{payload_of}

length-set_of_none :
    (rows : Dict PendingRow) (k : String) (row : PendingRow)
    → get rows k ≡ none
    → length (set rows k row) ≡ length rows + 1
unfolding get set
length-set_of_none [] k row h = omega arith
length-set_of_none ((j, r) ∷ rows) k row h = ground (arith, length-set_of_none rows k row)

sum_bytes-set_of_none :
    (rows : Dict PendingRow) (k : String) (row : PendingRow)
    → get rows k ≡ none
    → sum_bytes (set rows k row) ≡ sum_bytes rows + row.payload_bytes
unfolding get set sum_bytes
sum_bytes-set_of_none [] k row h = omega arith
sum_bytes-set_of_none ((j, r) ∷ rows) k row h = ground (arith, sum_bytes-set_of_none rows k row)

module _ (options : InboxOptions) (now : String) (frame : DeliverFrame) (db : Database) where
  abbrev row_of : PendingRow
  row_of = to_pending_row (build_pending_item now frame)

  -- The call has room for the frame and adds its row.
  pub record IsAdded (db' : Database) (r : EnqueueResult) : Type 0 where
    pub new : get db.pending frame.id ≡ none
    pub free : get db.dead_letter frame.id ≡ none
    pub room : leb options.max_pending_messages (get_pending_totals db).0 ≡ false
    pub light :
        ltb options.max_pending_bytes ((get_pending_totals db).1 + row_of.payload_bytes) ≡ false
    pub pending : db'.pending ≡ set db.pending frame.id row_of
    pub dead_letter : db'.dead_letter ≡ db.dead_letter
    pub count : r.pending_count ≡ (get_pending_totals db).0 + 1

  pub enqueue-IsAdded :
      (db' : Database) (r : EnqueueResult)
      → enqueue options now frame db ≡ some (db', r)
      → r.accepted ≡ true
      → r.duplicate ≡ false
      → IsAdded db' r
  unfolding enqueue insert_new log insert_pending insert_row append_event build_pending_item
      to_pending_row
  enqueue-IsAdded db' r e accepted first = elim (Bool-cases (has_request frame.id db)) [
    | inl known ↦ cc (rw known at e, first)
    | inr fresh ↦
        let (new, free) = has_request-none frame.id db fresh in
        elim (Bool-cases (leb options.max_pending_messages (get_pending_totals db).0)) [
          | inl full ↦ cc (rw (fresh, full) at e, accepted)
          | inr room ↦
              elim (Bool-cases (
                ltb options.max_pending_bytes ((get_pending_totals db).1 + row_of.payload_bytes))) [
                  | inl heavy ↦ cc (rw (fresh, room, heavy) at e, accepted)
                  | inr light ↦
                      let e' = rw (fresh, room, light, new) at e in
                      record {
                        new = new;
                        free = free;
                        room = room;
                        light = light;
                        pending = cc (e');
                        dead_letter = cc (e');
                        count = cc (e');
                      }
                ]
        ]
  ]

  pub enqueued-payload :
      (db' : Database) (r : EnqueueResult)
      → enqueue options now frame db ≡ some (db', r)
      → r.accepted ≡ true
      → r.duplicate ≡ false
      → payload_of frame.id db' ≡ some frame.payload
  unfolding build_pending_item to_pending_row
  enqueued-payload db' r e accepted first =
      let added = enqueue-IsAdded db' r e accepted first in
      rw (added.pending, get-set_self db.pending frame.id row_of) refl

  -- A frame that is accepted as new adds one pending message of the size of its payload, and leaves
  -- the inbox within its cap of messages and its cap of bytes; the answer has the new count.
  pub enqueue-caps :
      (db' : Database) (r : EnqueueResult)
      → enqueue options now frame db ≡ some (db', r)
      → r.accepted ≡ true
      → r.duplicate ≡ false
      → (get_pending_totals db'
          ≡ ((get_pending_totals db).0 + 1, (get_pending_totals db).1 + len frame.payload))
        × ((r.pending_count ≡ (get_pending_totals db').0)
            × (((get_pending_totals db').0 ≤ options.max_pending_messages)
                × ((get_pending_totals db').1 ≤ options.max_pending_bytes)))
  unfolding get_pending_totals build_pending_item to_pending_row
  enqueue-caps db' r e accepted first =
      let added = enqueue-IsAdded db' r e accepted first in
      let count = length-set_of_none db.pending frame.id row_of added.new in
      let bytes = sum_bytes-set_of_none db.pending frame.id row_of added.new in
      ground (arith, added.pending, count, bytes, added.room, added.light, added.count)
