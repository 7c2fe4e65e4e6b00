-- ===== src/Connector/InboundInbox/Kept.antt =====
-- A frame that the inbox has accepted stays in it, with its payload, until it is marked as delivered
-- or purged.
use mathlib.Core.Option.{map as map_option}
use clawdentity.Shared.{
  ℕ, ◌+◌, ◌≡◌, ◌≢◌, refl, inl, inr, String, Option, none, some, List, [], ◌∷◌, ◌&&◌, not, leb, ltb,
  max, arith, Bool-cases, Option-cases, eq_iff, ◌>>=◌,
}
use clawdentity.Shared.Dict.{get, get-set, get-delete, All-get}
use clawdentity.Connector.InboundInbox.Types.{
  DeliverFrame, InboundInboxItem, PendingRow, DeadLetterRow, to_pending_row, to_pending_item,
  to_dead_letter_row, to_dead_letter_item,
}
use clawdentity.Connector.InboundInbox.Storage.{
  Database, append_event, delete_pending, delete_dead_letter, get_dead_letter, has_request,
  get_pending_totals, is_there, insert_row, insert_pending, insert_dead_letter, update_pending,
  update_row,
}
use clawdentity.Connector.InboundInbox.Calls.{
  InboxOptions, ReplayFailure, log, insert_new, enqueue, build_pending_item, mark_delivered,
  attempted, move_to_dead_letter, keep_pending, fail_entry, replay_one, replay_ids,
}
use clawdentity.Connector.InboundInbox.Sound.{IsSound, Succeeds}
use clawdentity.Connector.InboundInbox.Preserved.{has_request-none, replay_one-Succeeds}

abbrev payload_in : Option PendingRow → Option DeadLetterRow → Option String
payload_in (some row) d = some row.payload
payload_in none (some d) = some d.row.payload
payload_in none none = none

-- The payload of a request that is pending or a dead letter.
abbrev pub payload_of : String → Database → Option String
payload_of id db = payload_in (get db.pending id) (get db.dead_letter id)

-- The payload of this request is in the tables that a call leaves, if it does not throw.
abbrev pub Keeps : {A : Type 0} → String → String → Option (Database × A) → Type 0
Keeps id payload none = Unit
Keeps id payload (some (db, x)) = payload_of id db ≡ some payload

updated_payload :
    (now : String) (input : ReplayFailure) (row : PendingRow) (db : Database)
    → get db.pending input.request_id ≡ some row
    → row.request_id ≡ input.request_id
    → payload_of (attempted now input (to_pending_item row)).request_id db
      ≡ some (attempted now input (to_pending_item row)).payload
unfolding attempted to_pending_item
updated_payload now input row db found same = rw same (rw found refl)

module _ (options : InboxOptions) (id payload : String) where
  insert_new-Keeps :
      (item : InboundInboxItem) (n : ℕ) (db : Database)
      → get db.pending item.request_id ≡ none
      → get db.dead_letter item.request_id ≡ none
      → payload_of id db ≡ some payload
      → Keeps id payload (insert_new options item n db)
  unfolding insert_new log insert_pending insert_row append_event to_pending_row
  insert_new-Keeps item n db new free h = rw new (
      ground (
        arith,
        h,
        new,
        free,
        eq_iff item.request_id id,
        get-set db.pending item.request_id id (to_pending_row item),
      ))

  pub delivered-Keeps :
      (other : String) (db : Database)
      → other ≢ id
      → payload_of id db ≡ some payload
      → Keeps id payload (mark_delivered options other db)
  unfolding mark_delivered log delete_pending append_event is_there
  delivered-Keeps other db differs h =
      ground (arith, h, differs, get-delete db.pending other id, eq_iff other id)

  move-Keeps :
      (now : String) (input : ReplayFailure) (row : PendingRow) (db : Database)
      → get db.pending input.request_id ≡ some row
      → row.request_id ≡ input.request_id
      → payload_of id db ≡ some payload
      → Keeps id payload
          (move_to_dead_letter options now input (attempted now input (to_pending_item row)) db)
  unfolding move_to_dead_letter log delete_pending insert_dead_letter insert_row append_event
      to_dead_letter_row to_pending_row to_pending_item attempted
  move-Keeps now input row db found same h =
      elim (Option-cases (get db.dead_letter row.request_id)) [
        | inl new ↦ rw new (
            ground (
              arith,
              h,
              new,
              found,
              same,
              eq_iff row.request_id id,
              eq_iff input.request_id id,
              get-delete db.pending input.request_id id,
              get-set db.dead_letter row.request_id id (
                  to_dead_letter_row (record {
                    item = attempted now input (to_pending_item row);
                    dead_lettered_at = now;
                    dead_letter_reason = input.error_message;
                  })),
            ))
        | inr (d, there) ↦ rw there tt
      ]

  update-Keeps :
      (item : InboundInboxItem) (db : Database)
      → payload_of item.request_id db ≡ some item.payload
      → payload_of id db ≡ some payload
      → payload_of id (update_pending item db) ≡ some payload
  unfolding update_pending update_row to_pending_row
  update-Keeps item db own h = elim (Option-cases (get db.pending item.request_id)) [
    | inl new ↦ rw new h
    | inr (row, there) ↦ rw there (
        ground (
          arith,
          h,
          own,
          there,
          eq_iff item.request_id id,
          get-set db.pending item.request_id id (to_pending_row item),
        ))
  ]

  pub enqueue-Keeps :
      (now : String) (frame : DeliverFrame) (db : Database)
      → payload_of id db ≡ some payload
      → Keeps id payload (enqueue options now frame db)
  unfolding enqueue log append_event build_pending_item
  enqueue-Keeps now frame db h = elim (Bool-cases (has_request frame.id db)) [
    | inl known ↦ rw known h
    | inr fresh ↦
        let (new, free) = has_request-none frame.id db fresh in
        let item = build_pending_item now frame in
        elim (Bool-cases (leb options.max_pending_messages (get_pending_totals db).0)) [
          | inl full ↦ rw (fresh, full) h
          | inr room ↦
              elim (Bool-cases
                (ltb options.max_pending_bytes ((get_pending_totals db).1 + item.payload_bytes))) [
                  | inl heavy ↦ rw (fresh, room, heavy) h
                  | inr light ↦
                      rw (fresh, room, light)
                        (insert_new-Keeps item (get_pending_totals db).0 db new free h)
                ]
        ]
  ]

  pub fail_row-Keeps :
      (now : String) (input : ReplayFailure) (o : Option PendingRow) (db : Database)
      → get db.pending input.request_id ≡ o
      → IsSound db
      → payload_of id db ≡ some payload
      → Keeps id payload (fail_entry options now input (map_option to_pending_item o) db)
  unfolding fail_entry keep_pending log append_event
  fail_row-Keeps now input none db found s h = h
  fail_row-Keeps now input (some row) db found s h =
      let same =
        All-get (λ e. e.1.request_id ≡ e.0) db.pending input.request_id row s.pending_keyed found in
      let updated = attempted now input (to_pending_item row) in
      elim (Bool-cases (
        not input.retryable
        && leb (max 1 input.max_non_retryable_attempts) updated.attempt_count)) [
          | inl moves ↦ rw moves (move-Keeps now input row db found same h)
          | inr stays ↦ rw stays (
              update-Keeps (record updated { next_attempt_at = input.next_attempt_at }) db
                (updated_payload now input row db found same) h)
        ]

  replay_row-Keeps :
      (now other : String) (o : Option DeadLetterRow) (db : Database)
      → get db.dead_letter other ≡ o
      → IsSound db
      → payload_of id db ≡ some payload
      → Keeps id payload (replay_one options now other (map_option to_dead_letter_item o) db)
  unfolding replay_one log append_event delete_dead_letter insert_pending insert_row to_pending_row
      to_dead_letter_item to_pending_item
  replay_row-Keeps now other none db found s h = h
  replay_row-Keeps now other (some d) db found s h =
      let same =
        All-get (λ e. e.1.row.request_id ≡ e.0) db.dead_letter other d s.dead_keyed found in
      let item : InboundInboxItem = record ((to_dead_letter_item d).item) {
        next_attempt_at = now;
        last_error = some d.dead_letter_reason;
      } in
      let new : get db.pending d.row.request_id ≡ none =
        ground (arith, s.apart other, found, same) in
      rw new (
        ground (
          arith,
          h,
          new,
          found,
          same,
          eq_iff other id,
          eq_iff d.row.request_id id,
          get-delete db.dead_letter other id,
          get-set db.pending d.row.request_id id (to_pending_row item),
        ))

  pub replay_ids-Keeps :
      (now : String) (ids : List String) (n : ℕ) (db : Database)
      → IsSound db
      → payload_of id db ≡ some payload
      → Keeps id payload (replay_ids options now ids n db)
  unfolding replay_ids get_dead_letter
  replay_ids-Keeps now [] n db s h = h
  replay_ids-Keeps now (other ∷ ids) n db s h =
      go (λ db' m s' h'. replay_ids-Keeps now ids (n + m) db' s' h')
        (replay_one options now other (get_dead_letter other db) db)
        (replay_one-Succeeds options now other (get_dead_letter other db) db refl s)
        (replay_row-Keeps now other (get db.dead_letter other) db refl s h)
    where
      go :
          ((db' : Database) (m : ℕ)
            → IsSound db'
            → payload_of id db' ≡ some payload
            → Keeps id payload (replay_ids options now ids (n + m) db'))
          → (o : Option (Database × ℕ)) → Succeeds o
          → Keeps id payload o
          → Keeps id payload (o >>= (λ p. replay_ids options now ids (n + p.1) p.0))
      go rest none k h = absurd k
      go rest (some (db', m)) k h = rest db' m k h
