-- ===== src/Connector/InboundInbox/Sound.antt =====
-- What holds of the inbox's tables, and that no call breaks it or is refused by the database.
use clawdentity.Shared.{
  ℕ, ◌≡◌, refl, ◌⊎◌, inl, inr, String, Option, none, some, arith, All, Option-cases, eq_iff,
}
use clawdentity.Shared.Dict.{
  get, set, IsDistinct, get-set, get-delete, set-IsDistinct, delete-IsDistinct, All-set, All-delete,
}
use clawdentity.Connector.InboundInbox.Types.{
  InboundInboxItem, InboundDeadLetterItem, PendingRow, DeadLetterRow, InboundInboxEvent,
  to_pending_row, to_dead_letter_row,
}
use clawdentity.Connector.InboundInbox.Storage.{
  Database, append_event, delete_pending, delete_dead_letter, insert_row, insert_pending,
  insert_dead_letter, update_pending, update_row,
}

-- Each table has a request once, under its own id, and no request is both pending and a dead letter.
pub record IsSound (db : Database) : Type 0 where
  pub pending_once : IsDistinct db.pending
  pub dead_once : IsDistinct db.dead_letter
  pub apart : (id : String) → (get db.pending id ≡ none) ⊎ (get db.dead_letter id ≡ none)
  pub pending_keyed : All (λ e. e.1.request_id ≡ e.0) db.pending
  pub dead_keyed : All (λ e. e.1.row.request_id ≡ e.0) db.dead_letter

pub append-IsSound :
    (n : ℕ) (e : InboundInboxEvent) (db : Database) → IsSound db → IsSound (append_event n e db)
unfolding append_event
append-IsSound n e db h = record {
  pending_once = h.pending_once;
  dead_once = h.dead_once;
  apart = h.apart;
  pending_keyed = h.pending_keyed;
  dead_keyed = h.dead_keyed;
}

pub delete_pending-IsSound :
    (id : String) (db : Database) → IsSound db → IsSound (delete_pending id db).0
unfolding delete_pending
delete_pending-IsSound id db h = record {
  pending_once = delete-IsDistinct db.pending id h.pending_once;
  dead_once = h.dead_once;
  apart = λ k. ground (arith, get-delete db.pending id k, h.apart k);
  pending_keyed = All-delete (λ e. e.1.request_id ≡ e.0) db.pending id h.pending_keyed;
  dead_keyed = h.dead_keyed;
}

pub delete_dead-IsSound :
    (id : String) (db : Database) → IsSound db → IsSound (delete_dead_letter id db)
unfolding delete_dead_letter
delete_dead-IsSound id db h = record {
  pending_once = h.pending_once;
  dead_once = delete-IsDistinct db.dead_letter id h.dead_once;
  apart = λ k. ground (arith, get-delete db.dead_letter id k, h.apart k);
  pending_keyed = h.pending_keyed;
  dead_keyed = All-delete (λ e. e.1.row.request_id ≡ e.0) db.dead_letter id h.dead_keyed;
}

-- The row is stored under its id, which the other table does not have.
store_pending-IsSound :
    (row : PendingRow) (db : Database)
    → get db.dead_letter row.request_id ≡ none
    → IsSound db
    → IsSound (record db { pending = set db.pending row.request_id row })
store_pending-IsSound row db free h = record {
  pending_once = set-IsDistinct db.pending row.request_id row h.pending_once;
  dead_once = h.dead_once;
  apart = λ k.
      ground
        (arith, get-set db.pending row.request_id k row, h.apart k, free, eq_iff row.request_id k);
  pending_keyed =
      All-set (λ e. e.1.request_id ≡ e.0) db.pending row.request_id row h.pending_keyed refl;
  dead_keyed = h.dead_keyed;
}

store_dead-IsSound :
    (d : DeadLetterRow) (db : Database)
    → get db.pending d.row.request_id ≡ none
    → IsSound db
    → IsSound (record db { dead_letter = set db.dead_letter d.row.request_id d })
store_dead-IsSound d db free h = record {
  pending_once = h.pending_once;
  dead_once = set-IsDistinct db.dead_letter d.row.request_id d h.dead_once;
  apart = λ k. ground (
    arith,
    get-set db.dead_letter d.row.request_id k d,
    h.apart k,
    free,
    eq_iff d.row.request_id k,
  );
  pending_keyed = h.pending_keyed;
  dead_keyed =
      All-set (λ e. e.1.row.request_id ≡ e.0) db.dead_letter d.row.request_id d h.dead_keyed refl;
}

-- The call does not throw, and leaves sound tables.
abbrev pub Succeeds : {A : Type 0} → Option (Database × A) → Type 0
Succeeds none = ⊥
Succeeds (some (db, x)) = IsSound db

-- An insertion is not refused and leaves sound tables, if its id is new.
pub insert_pending-IsSound :
    (item : InboundInboxItem) (db : Database)
    → get db.pending item.request_id ≡ none
    → get db.dead_letter item.request_id ≡ none
    → IsSound db
    → (insert_pending item db
        ≡ some (record db { pending = set db.pending item.request_id (to_pending_row item) }))
      × IsSound (record db { pending = set db.pending item.request_id (to_pending_row item) })
unfolding insert_pending insert_row to_pending_row
insert_pending-IsSound item db new free h =
    (rw new refl, store_pending-IsSound (to_pending_row item) db free h)

pub insert_dead-IsSound :
    (dead : InboundDeadLetterItem) (db : Database)
    → get db.pending dead.item.request_id ≡ none
    → get db.dead_letter dead.item.request_id ≡ none
    → IsSound db
    → (insert_dead_letter dead db
        ≡ some (record db {
          dead_letter = set db.dead_letter dead.item.request_id (to_dead_letter_row dead);
        }))
      × IsSound (record db {
        dead_letter = set db.dead_letter dead.item.request_id (to_dead_letter_row dead);
      })
unfolding insert_dead_letter insert_row to_pending_row to_dead_letter_row
insert_dead-IsSound dead db free new h =
    (rw new refl, store_dead-IsSound (to_dead_letter_row dead) db free h)

pub update-IsSound :
    (item : InboundInboxItem) (db : Database) → IsSound db → IsSound (update_pending item db)
unfolding update_pending update_row to_pending_row
update-IsSound item db h = elim (Option-cases (get db.pending item.request_id)) [
  | inl new ↦ rw new h
  | inr (old, there) ↦ rw there (
      store_pending-IsSound (to_pending_row item) db
        (ground (arith, h.apart item.request_id, there)) h)
]
