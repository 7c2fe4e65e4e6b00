-- ===== src/Connector/InboundInbox/Preserved.antt =====
-- Every call of the inbox succeeds on sound tables and leaves them sound.
use clawdentity.Shared.{
  ℕ, ◌+◌, ◌≡◌, refl, sym, ap, ◌∙◌, inl, inr, String, false, Option, none, some, List, [], ◌∷◌, ◌&&◌,
  not, leb, ltb, max, arith, Bool-cases, Option-cases, ◌>>=◌,
}
use clawdentity.Shared.Dict.{get, get-delete_self, All-get}
use clawdentity.Connector.InboundInbox.Types.{
  DeliverFrame, InboundInboxItem, InboundDeadLetterItem, to_pending_item, to_dead_letter_item,
}
use clawdentity.Connector.InboundInbox.Storage.{
  Database, delete_pending, delete_dead_letter, get_pending, get_dead_letter, has_request,
  get_pending_totals, is_there,
}
use clawdentity.Connector.InboundInbox.Calls.{
  InboxOptions, ReplayFailure, log, insert_new, enqueue, build_pending_item, mark_delivered,
  attempted, move_to_dead_letter, keep_pending, fail_entry, mark_replay_failure, replay_one,
  replay_ids, replay_dead_letter, purge_one, purge_ids, purge_dead_letter,
}
use clawdentity.Connector.InboundInbox.Sound.{
  IsSound, Succeeds, append-IsSound, delete_pending-IsSound, delete_dead-IsSound,
  insert_pending-IsSound, insert_dead-IsSound, update-IsSound,
}

-- A request that is in neither table.
pub has_request-none :
    (id : String) (db : Database)
    → has_request id db ≡ false
    → (get db.pending id ≡ none) × (get db.dead_letter id ≡ none)
unfolding has_request is_there
has_request-none id db h = ground arith

id_of : Option InboundInboxItem → String
id_of none = ""
id_of (some item) = item.request_id

dead_id_of : Option InboundDeadLetterItem → String
dead_id_of none = ""
dead_id_of (some dead) = dead.item.request_id

get_pending-id :
    (id : String) (item : InboundInboxItem) (db : Database)
    → IsSound db
    → get_pending id db ≡ some item
    → (item.request_id ≡ id) × (get db.dead_letter id ≡ none)
unfolding get_pending to_pending_item id_of
get_pending-id id item db h e = elim (Option-cases (get db.pending id)) [
  | inl missing ↦ cc (e, missing)
  | inr (row, found) ↦
      let keyed = All-get (λ e. e.1.request_id ≡ e.0) db.pending id row h.pending_keyed found in
      (sym (ap id_of (rw found at e)) ∙ keyed, ground (arith, h.apart id, found))
]

get_dead-id :
    (id : String) (dead : InboundDeadLetterItem) (db : Database)
    → IsSound db
    → get_dead_letter id db ≡ some dead
    → (dead.item.request_id ≡ id) × (get db.pending id ≡ none)
unfolding get_dead_letter to_dead_letter_item to_pending_item dead_id_of
get_dead-id id dead db h e = elim (Option-cases (get db.dead_letter id)) [
  | inl missing ↦ cc (e, missing)
  | inr (d, found) ↦
      let keyed = All-get (λ e. e.1.row.request_id ≡ e.0) db.dead_letter id d h.dead_keyed found in
      (sym (ap dead_id_of (rw found at e)) ∙ keyed, ground (arith, h.apart id, found))
]

module _ (options : InboxOptions) where
  insert_new-Succeeds :
      (item : InboundInboxItem) (n : ℕ) (db : Database)
      → get db.pending item.request_id ≡ none
      → get db.dead_letter item.request_id ≡ none
      → IsSound db
      → Succeeds (insert_new options item n db)
  unfolding insert_new log
  insert_new-Succeeds item n db new free h =
      let (e, h') = insert_pending-IsSound item db new free h in
      rw e (append-IsSound options.events_max_rows _ _ h')

  pub enqueue-Succeeds :
      (now : String) (frame : DeliverFrame) (db : Database)
      → IsSound db
      → Succeeds (enqueue options now frame db)
  unfolding enqueue log build_pending_item
  enqueue-Succeeds now frame db h = elim (Bool-cases (has_request frame.id db)) [
    | inl known ↦ rw known (append-IsSound options.events_max_rows _ db h)
    | inr new ↦
        let (p, d) = has_request-none frame.id db new in
        let item = build_pending_item now frame in
        elim (Bool-cases (leb options.max_pending_messages (get_pending_totals db).0)) [
          | inl full ↦ rw (new, full) h
          | inr room ↦
              elim (Bool-cases
                (ltb options.max_pending_bytes ((get_pending_totals db).1 + item.payload_bytes))) [
                  | inl heavy ↦ rw (new, room, heavy) h
                  | inr light ↦
                      rw (new, room, light)
                        (insert_new-Succeeds item (get_pending_totals db).0 db p d h)
                ]
        ]
  ]

  pub mark_delivered-Succeeds :
      (id : String) (db : Database) → IsSound db → Succeeds (mark_delivered options id db)
  unfolding mark_delivered log
  mark_delivered-Succeeds id db h = elim (Bool-cases (delete_pending id db).1) [
    | inl there ↦
        rw there (append-IsSound options.events_max_rows _ _ (delete_pending-IsSound id db h))
    | inr missing ↦ rw missing (delete_pending-IsSound id db h)
  ]

  move-Succeeds :
      (now : String) (input : ReplayFailure) (item : InboundInboxItem) (db : Database)
      → item.request_id ≡ input.request_id
      → get db.dead_letter input.request_id ≡ none
      → IsSound db
      → Succeeds (move_to_dead_letter options now input item db)
  unfolding move_to_dead_letter log delete_pending
  move-Succeeds now input item db same free h =
      let gone = get-delete_self db.pending input.request_id in
      let dead : InboundDeadLetterItem = record {
        item = item;
        dead_lettered_at = now;
        dead_letter_reason = input.error_message;
      } in
      let (e, h') =
        insert_dead-IsSound dead (delete_pending input.request_id db).0 (rw same gone)
          (rw same free) (delete_pending-IsSound input.request_id db h) in
      rw e (append-IsSound options.events_max_rows _ _ h')

  fail_entry-Succeeds :
      (now : String) (input : ReplayFailure) (o : Option InboundInboxItem) (db : Database)
      → get_pending input.request_id db ≡ o
      → IsSound db
      → Succeeds (fail_entry options now input o db)
  unfolding fail_entry attempted keep_pending log
  fail_entry-Succeeds now input none db e h = h
  fail_entry-Succeeds now input (some entry) db e h =
      let (same, free) = get_pending-id input.request_id entry db h e in
      let updated = attempted now input entry in
      elim (Bool-cases (
        not input.retryable
        && leb (max 1 input.max_non_retryable_attempts) updated.attempt_count)) [
          | inl moves ↦ rw moves (move-Succeeds now input updated db same free h)
          | inr stays ↦
              rw stays (append-IsSound options.events_max_rows _ _ (update-IsSound _ db h))
        ]

  pub replay_one-Succeeds :
      (now id : String) (o : Option InboundDeadLetterItem) (db : Database)
      → get_dead_letter id db ≡ o
      → IsSound db
      → Succeeds (replay_one options now id o db)
  unfolding replay_one log delete_dead_letter
  replay_one-Succeeds now id none db e h = h
  replay_one-Succeeds now id (some dead) db e h =
      let (same, free) = get_dead-id id dead db h e in
      let item : InboundInboxItem = record (dead.item) {
        next_attempt_at = now;
        last_error = some dead.dead_letter_reason;
      } in
      let (e', h') =
        insert_pending-IsSound item (delete_dead_letter id db) (rw same free)
          (rw same (get-delete_self db.dead_letter id)) (delete_dead-IsSound id db h) in
      rw e' (append-IsSound options.events_max_rows _ _ h')

  replay_ids-Succeeds :
      (now : String) (ids : List String) (n : ℕ) (db : Database)
      → IsSound db
      → Succeeds (replay_ids options now ids n db)
  unfolding replay_ids
  replay_ids-Succeeds now [] n db h = h
  replay_ids-Succeeds now (id ∷ ids) n db h =
      go (λ db' m k. replay_ids-Succeeds now ids (n + m) db' k)
        (replay_one options now id (get_dead_letter id db) db)
        (replay_one-Succeeds now id (get_dead_letter id db) db refl h)
    where
      go :
          ((db' : Database) (m : ℕ)
            → IsSound db'
            → Succeeds (replay_ids options now ids (n + m) db'))
          → (o : Option (Database × ℕ)) → Succeeds o
          → Succeeds (o >>= (λ p. replay_ids options now ids (n + p.1) p.0))
      go rest none k = absurd k
      go rest (some (db', m)) k = rest db' m k

  purge_one-IsSound :
      (id : String) (o : Option InboundDeadLetterItem) (db : Database)
      → IsSound db
      → IsSound (purge_one options id o db).0
  unfolding purge_one log
  purge_one-IsSound id none db h = h
  purge_one-IsSound id (some dead) db h =
      append-IsSound options.events_max_rows _ _ (delete_dead-IsSound id db h)

  purge_ids-IsSound :
      (ids : List String) (n : ℕ) (db : Database)
      → IsSound db
      → IsSound (purge_ids options ids n db).0
  unfolding purge_ids
  purge_ids-IsSound [] n db h = h
  purge_ids-IsSound (id ∷ ids) n db h =
      purge_ids-IsSound ids _ _ (purge_one-IsSound id (get_dead_letter id db) db h)

  pub mark_failure-Succeeds :
      (now : String) (input : ReplayFailure) (db : Database)
      → IsSound db
      → Succeeds (mark_replay_failure options now input db)
  unfolding mark_replay_failure
  mark_failure-Succeeds now input db h =
      fail_entry-Succeeds now input (get_pending input.request_id db) db refl h

  pub replay-Succeeds :
      (now : String) (ids : Option (List String)) (db : Database)
      → IsSound db
      → Succeeds (replay_dead_letter options now ids db)
  unfolding replay_dead_letter
  replay-Succeeds now ids db h = replay_ids-Succeeds now _ 0 db h

  pub purge-Succeeds :
      (ids : Option (List String)) (db : Database)
      → IsSound db
      → Succeeds (purge_dead_letter options ids db)
  unfolding purge_dead_letter
  purge-Succeeds ids db h = purge_ids-IsSound _ 0 db h
