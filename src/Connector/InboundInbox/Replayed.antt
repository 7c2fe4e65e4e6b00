-- ===== src/Connector/InboundInbox/Replayed.antt =====
-- A replay of all dead letters makes each of them pending again.
use clawdentity.Shared.{
  ℕ, ◌+◌, ◌≡◌, ◌≢◌, refl, sym, ap, ◌∙◌, subst, String, Option, none, some, List, [], ◌∷◌, map,
  length, All, eq_iff, arith,
}
use clawdentity.Shared.Dict.{Dict, get, set, delete, get-set, get-set_self, get-delete, All-get}
use clawdentity.Connector.InboundInbox.Types.{
  PendingRow, DeadLetterRow, parse_optional_non_empty_string, to_pending_row, to_pending_item,
  to_dead_letter_item,
}
use clawdentity.Connector.InboundInbox.Storage.{
  Database, append_event, delete_dead_letter, get_dead_letter, insert_row, insert_pending,
  get_dead_letter_request_ids, order_dead_letter, get_pending_totals,
}
use clawdentity.Connector.InboundInbox.Calls.{
  InboxOptions, log, replay_one, replay_ids, replay_dead_letter,
}
use clawdentity.Connector.InboundInbox.Sound.{IsSound, Succeeds}
use clawdentity.Connector.InboundInbox.Preserved.{replay_one-Succeeds}
use clawdentity.Connector.InboundInbox.Snapshot.{get_snapshot}
use clawdentity.Connector.InboundInbox.DeadLetters.{
  id_of, AreApart, length-delete_of_some, length-set_of_none, order-All, order-All_back,
  length-order, order-AreApart, all_there,
}

-- The pending row of a dead letter that was replayed at this time: its own content and attempts, due at
-- once, with the reason as its last error.
pub record IsRevived (now : String) (d : DeadLetterRow) (row : PendingRow) : Type 0 where
  pub id : row.id ≡ d.row.id
  pub request_id : row.request_id ≡ d.row.request_id
  pub from_agent_did : row.from_agent_did ≡ d.row.from_agent_did
  pub to_agent_did : row.to_agent_did ≡ d.row.to_agent_did
  pub group_id : row.group_id ≡ parse_optional_non_empty_string d.row.group_id
  pub conversation_id : row.conversation_id ≡ parse_optional_non_empty_string d.row.conversation_id
  pub reply_to : row.reply_to ≡ parse_optional_non_empty_string d.row.reply_to
  pub payload : row.payload ≡ d.row.payload
  pub payload_bytes : row.payload_bytes ≡ d.row.payload_bytes
  pub received_at : row.received_at ≡ d.row.received_at
  pub next_attempt_at : row.next_attempt_at ≡ now
  pub attempt_count : row.attempt_count ≡ d.row.attempt_count
  pub last_error : row.last_error ≡ some d.dead_letter_reason

-- The dead letter is pending again.
abbrev pub IsPendingAgain : String → Dict PendingRow → DeadLetterRow → Type 0
IsPendingAgain now pending d =
    (row : PendingRow) × (get pending d.row.request_id ≡ some row) × IsRevived now d row

module _ (options : InboxOptions) (now : String) where
  replayed_one :
      (id : String) (d : DeadLetterRow) (db : Database)
      → get db.dead_letter id ≡ some d
      → IsSound db
      → (db' : Database) × ((replay_one options now id (get_dead_letter id db) db ≡ some (db', 1))
          × ((db'.dead_letter ≡ delete db.dead_letter id)
              × (row : PendingRow) × ((db'.pending ≡ set db.pending d.row.request_id row)
                  × (IsRevived now d row × (get db.pending d.row.request_id ≡ none)))))
  unfolding replay_one log append_event get_dead_letter delete_dead_letter insert_pending insert_row
      to_pending_row to_dead_letter_item to_pending_item
  replayed_one id d db found sound =
      let same = All-get (λ e. id_of e.1 ≡ e.0) db.dead_letter id d sound.dead_keyed found in
      let new : get db.pending d.row.request_id ≡ none =
        ground (arith, sound.apart id, found, same) in
      rw (found, new)
        (
          _,
          (
            refl,
            (
              refl,
              _,
              (
                refl,
                (
                  record {
                    id = refl;
                    request_id = refl;
                    from_agent_did = refl;
                    to_agent_did = refl;
                    group_id = refl;
                    conversation_id = refl;
                    reply_to = refl;
                    payload = refl;
                    payload_bytes = refl;
                    received_at = refl;
                    next_attempt_at = refl;
                    attempt_count = refl;
                    last_error = refl;
                  },
                  refl,
                ),
              ),
            ),
          ),
        )

  still_there :
      (id : String) (db db' : Database) (rows : List DeadLetterRow)
      → db'.dead_letter ≡ delete db.dead_letter id
      → All (λ e. id_of e ≢ id) rows
      → All (λ e. get db.dead_letter (id_of e) ≡ some e) rows
      → All (λ e. get db'.dead_letter (id_of e) ≡ some e) rows
  still_there id db db' [] e differs there = tt
  still_there id db db' (d ∷ rows) e (p, differs) (q, there) = (
    rw (e, get-delete db.dead_letter id (id_of d))
        (ground (arith, q, eq_iff id (id_of d), (λ (x : id ≡ id_of d). p (sym x)))),
    still_there id db db' rows e differs there,
  )

  -- The calls for these ids succeed, and each one moves its row.
  record Replays (n : ℕ) (rows : List DeadLetterRow) (db : Database) (o : Option (Database × ℕ))
      : Type 0 where
    pub after : Database
    pub returned : o ≡ some (after, n + length rows)
    pub dead : length after.dead_letter + length rows ≡ length db.dead_letter
    pub pending : length after.pending ≡ length db.pending + length rows
    pub kept :
        (k : String) (row : PendingRow)
        → get db.pending k ≡ some row
        → get after.pending k ≡ some row
    pub revived : All (IsPendingAgain now after.pending) rows

  all_replayed :
      (rows : List DeadLetterRow) (n : ℕ) (db : Database)
      → IsSound db
      → AreApart rows
      → All (λ e. get db.dead_letter (id_of e) ≡ some e) rows
      → Replays n rows db (replay_ids options now (map id_of rows) n db)
  unfolding replay_ids
  all_replayed [] n db sound apart there = record {
    after = db;
    returned = ap (λ k. some (db, k)) (omega arith);
    dead = omega arith;
    pending = omega arith;
    kept = λ k row h. h;
    revived = tt;
  }
  all_replayed (d ∷ rows) n db sound (differs, apart) (found, there) =
      let (db', (e, (dead, new_row, (pending, (is_revived, new))))) =
        replayed_one (id_of d) d db found sound in
      let sound' : IsSound db' =
        subst Succeeds e (
          replay_one-Succeeds options now (id_of d) (get_dead_letter (id_of d) db) db refl sound) in
      let rest =
        all_replayed rows (n + 1) db' sound' apart
          (still_there (id_of d) db db' rows dead differs there) in
      record {
        after = rest.after;
        returned = rw e (rest.returned ∙ ap (λ k. some (rest.after, k)) (omega arith));
        dead = omega (
          arith,
          rest.dead,
          ap length dead,
          length-delete_of_some db.dead_letter (id_of d) d sound.dead_once found,
        );
        pending = omega (
          arith,
          rest.pending,
          ap length pending,
          length-set_of_none db.pending (id_of d) new_row new,
        );
        kept = λ k row h. rest.kept k row (
            rw (pending, get-set db.pending (id_of d) k new_row)
              (ground (arith, h, new, eq_iff (id_of d) k)));
        revived = (
          (
            new_row,
            rest.kept (id_of d) new_row (rw pending (get-set_self db.pending (id_of d) new_row)),
            is_revived,
          ),
          rest.revived,
        );
      }

  -- A replay of all dead letters, on sound tables, succeeds: it answers with their number, leaves no
  -- dead letter, and as many more pending messages, whatever the caps of the inbox are. Each dead
  -- letter is pending again under its request id, with its payload, parties and attempts, due at
  -- once and with the reason as its last error, and each message that was pending is as before.
  pub replayed_all :
      (db : Database)
      → IsSound db
      → (db' : Database) × ((replay_dead_letter options now none db
            ≡ some (db', (get_snapshot db).dead_letter.dead_letter_count))
          × ((((get_snapshot db').dead_letter.dead_letter_count ≡ 0)
                × ((get_snapshot db').pending.pending_count
                    ≡ (get_snapshot db).pending.pending_count
                      + (get_snapshot db).dead_letter.dead_letter_count))
              × (((id : String) (d : DeadLetterRow)
                    → get db.dead_letter id ≡ some d
                    → (d.row.request_id ≡ id) × IsPendingAgain now db'.pending d)
                  × ((id : String) (row : PendingRow)
                      → get db.pending id ≡ some row
                      → get db'.pending id ≡ some row))))
  unfolding replay_dead_letter get_dead_letter_request_ids get_snapshot get_pending_totals
  replayed_all db sound =
      let rows = order_dead_letter db.dead_letter in
      let count = length-order db.dead_letter in
      let h =
        all_replayed rows 0 db sound
          (order-AreApart db.dead_letter sound.dead_once sound.dead_keyed)
          (order-All (λ e. get db.dead_letter (id_of e) ≡ some e) db.dead_letter
            (all_there db.dead_letter sound.dead_once sound.dead_keyed)) in
      (
        h.after,
        (
          h.returned ∙ ap (λ k. some (h.after, k)) (omega (arith, count)),
          (
            (omega (arith, h.dead, count), omega (arith, h.pending, count)),
            (
              (λ id d found. (
                All-get (λ e. id_of e.1 ≡ e.0) db.dead_letter id d sound.dead_keyed found,
                All-get (λ e. IsPendingAgain now h.after.pending e.1) db.dead_letter id d
                    (order-All_back (IsPendingAgain now h.after.pending) db.dead_letter h.revived)
                    found,
              )),
              h.kept,
            ),
          ),
        ),
      )
