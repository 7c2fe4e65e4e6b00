-- ===== src/Connector/InboundInbox/Runs.antt =====
-- Sequences of calls of the inbox.
use clawdentity.Shared.{
  ◌≡◌, ◌≢◌, refl, subst, String, true, false, Option, none, some, List, [], ◌∷◌, All, inl, ◌>>=◌,
}
use clawdentity.Shared.Dict.{get}
use clawdentity.Connector.InboundInbox.Types.{DeliverFrame}
use clawdentity.Connector.InboundInbox.Storage.{Database, get_pending}
use clawdentity.Connector.InboundInbox.Calls.{
  InboxOptions, EnqueueResult, ReplayFailure, enqueue, mark_delivered, mark_replay_failure,
  replay_dead_letter, purge_dead_letter,
}
use clawdentity.Connector.InboundInbox.Sound.{IsSound, Succeeds}
use clawdentity.Connector.InboundInbox.Preserved.{
  enqueue-Succeeds, mark_delivered-Succeeds, mark_failure-Succeeds, replay-Succeeds, purge-Succeeds,
}
use clawdentity.Connector.InboundInbox.Caps.{enqueued-payload}
use clawdentity.Connector.InboundInbox.Kept.{
  payload_of, Keeps, enqueue-Keeps, delivered-Keeps, fail_row-Keeps, replay_ids-Keeps,
}

pub data Call : Type 0 where
  enqueues : (now : String) (frame : DeliverFrame) → Call
  delivered : (request_id : String) → Call
  failed : (now : String) (input : ReplayFailure) → Call
  replays : (now : String) (request_ids : Option (List String)) → Call
  purges : (request_ids : Option (List String)) → Call

-- The call does not take this request out of the inbox: it is no purge, and does not mark the
-- request as delivered.
unfoldable pub Spares : String → Call → Type 0
Spares id (delivered other) = other ≢ id
Spares id (purges request_ids) = ⊥
Spares id _ = Unit

abbrev pub empty_inbox : Database
empty_inbox = record { pending = []; dead_letter = []; events = [] }

-- What a call leaves, without its answer.
abbrev forget : {A : Type 0} → Option (Database × A) → Option {0} (Database × Unit {0})
forget none = none
forget (some (db, x)) = some (db, tt)

forget-Succeeds : {A : Type 0} (o : Option (Database × A)) → Succeeds o → Succeeds (forget o)
forget-Succeeds (some (db, x)) h = h
forget-Succeeds none h = h

forget-Keeps :
    {A : Type 0} (id payload : String) (o : Option (Database × A))
    → Keeps id payload o
    → Keeps id payload (forget o)
forget-Keeps id payload (some (db, x)) h = h
forget-Keeps id payload none h = tt

module _ (options : InboxOptions) where
  unfoldable pub call : Call → Database → Option {0} (Database × Unit {0})
  call (enqueues now frame) db = forget (enqueue options now frame db)
  call (delivered id) db = forget (mark_delivered options id db)
  call (failed now input) db = forget (mark_replay_failure options now input db)
  call (replays now ids) db = forget (replay_dead_letter options now ids db)
  call (purges ids) db = forget (purge_dead_letter options ids db)

  unfoldable pub run : List Call → Database → Option {0} (Database × Unit {0})
  run [] db = some (db, tt)
  run (c ∷ cs) db = call c db >>= (λ p. run cs p.0)

  pub call-Succeeds : (c : Call) (db : Database) → IsSound db → Succeeds (call c db)
  unfolding call
  call-Succeeds (enqueues now frame) db h =
      forget-Succeeds _ (enqueue-Succeeds options now frame db h)
  call-Succeeds (delivered id) db h = forget-Succeeds _ (mark_delivered-Succeeds options id db h)
  call-Succeeds (failed now input) db h =
      forget-Succeeds _ (mark_failure-Succeeds options now input db h)
  call-Succeeds (replays now ids) db h = forget-Succeeds _ (replay-Succeeds options now ids db h)
  call-Succeeds (purges ids) db h = forget-Succeeds _ (purge-Succeeds options ids db h)

  pub call-Keeps :
      (id payload : String) (c : Call) (db : Database)
      → Spares id c
      → IsSound db
      → payload_of id db ≡ some payload
      → Keeps id payload (call c db)
  unfolding call Spares mark_replay_failure get_pending replay_dead_letter
  call-Keeps id payload (enqueues now frame) db free s h =
      forget-Keeps id payload _ (enqueue-Keeps options id payload now frame db h)
  call-Keeps id payload (delivered other) db free s h =
      forget-Keeps id payload _ (delivered-Keeps options id payload other db free h)
  call-Keeps id payload (failed now input) db free s h =
      forget-Keeps id payload _
        (fail_row-Keeps options id payload now input (get db.pending input.request_id) db refl s h)
  call-Keeps id payload (replays now ids) db free s h =
      forget-Keeps id payload _ (replay_ids-Keeps options id payload now _ 0 db s h)
  call-Keeps id payload (purges ids) db free s h = absurd free

  run_sound : (cs : List Call) (db : Database) → IsSound db → Succeeds (run cs db)
  unfolding run
  run_sound [] db h = h
  run_sound (c ∷ cs) db h = go (λ db' h'. run_sound cs db' h') (call c db) (call-Succeeds c db h)
    where
      go :
          ((db' : Database) → IsSound db' → Succeeds (run cs db'))
          → (o : Option {0} (Database × Unit {0})) → Succeeds o
          → Succeeds (o >>= (λ p. run cs p.0))
      go rest none k = absurd k
      go rest (some (db', x)) k = rest db' k

  empty-IsSound : IsSound empty_inbox
  unfolding get
  empty-IsSound = record {
    pending_once = tt;
    dead_once = tt;
    apart = λ id. inl refl;
    pending_keyed = tt;
    dead_keyed = tt;
  }

  -- From an empty inbox no sequence of calls throws, no insertion is ever refused by a primary key,
  -- and afterwards each request stands once, under its own id, in at most one of the two tables.
  pub run-Succeeds : (cs : List Call) → Succeeds (run cs empty_inbox)
  run-Succeeds cs = run_sound cs empty_inbox empty-IsSound

  -- The run goes through and leaves this payload of the request.
  abbrev Delivers : String → String → Option {0} (Database × Unit {0}) → Type 0
  Delivers id payload o =
      (db : Database) × ((o ≡ some (db, tt)) × (payload_of id db ≡ some payload))

  run-Delivers :
      (id payload : String) (cs : List Call) (db : Database)
      → All (Spares id) cs
      → IsSound db
      → payload_of id db ≡ some payload
      → Delivers id payload (run cs db)
  unfolding run
  run-Delivers id payload [] db free s h = (db, (refl, h))
  run-Delivers id payload (c ∷ cs) db (f, free) s h =
      go (λ db' s' h'. run-Delivers id payload cs db' free s' h') (call c db) (call-Succeeds c db s)
        (call-Keeps id payload c db f s h)
    where
      go :
          ((db' : Database)
            → IsSound db'
            → payload_of id db' ≡ some payload
            → Delivers id payload (run cs db'))
          → (o : Option {0} (Database × Unit {0})) → Succeeds o
          → Keeps id payload o
          → Delivers id payload (o >>= (λ p. run cs p.0))
      go rest none k h = absurd k
      go rest (some (db', x)) k h = rest db' k h

  -- A frame that the inbox has accepted as new stays in it with its payload, pending or as a dead
  -- letter: whatever calls follow, none of which throws, and whatever failures and replays they
  -- report, as long as none marks the frame as delivered or purges dead letters.
  pub accepted_kept :
      (before after : List Call) (now : String) (frame : DeliverFrame) (db db' : Database)
      (r : EnqueueResult)
      → run before empty_inbox ≡ some (db, tt)
      → enqueue options now frame db ≡ some (db', r)
      → r.accepted ≡ true
      → r.duplicate ≡ false
      → All (Spares frame.id) after
      → (db'' : Database) × ((run after db' ≡ some (db'', tt))
          × (payload_of frame.id db'' ≡ some frame.payload))
  accepted_kept before after now frame db db' r ran e accepted first spared =
      let sound : IsSound db = subst Succeeds ran (run-Succeeds before) in
      let sound' : IsSound db' = subst Succeeds e (enqueue-Succeeds options now frame db sound) in
      run-Delivers frame.id frame.payload after db' spared sound'
        (enqueued-payload options now frame db db' r e accepted first)
