-- ===== src/Connector/Replay/Pass/Holds.antt =====
-- The invariant of a pass, and what keeps it apart from the calls of the inbox.
use clawdentity.Shared.{
  ℕ, ◌≡◌, refl, String, Bool, true, false, Option, none, some, List, [], ◌∷◌, ◌++◌, All, All-append,
  any, ◌==◌, eq_refl, Bool-cases, inl, inr, arith,
}
use clawdentity.Shared.Dict.{Dict, get, set, delete, get-set, get-delete}
use clawdentity.Connector.InboundInbox.Types.{InboundInboxItem}
use clawdentity.Connector.InboundInbox.Storage.{Database}
use clawdentity.Connector.InboundInbox.Sound.{IsSound}
use clawdentity.Connector.InboundInbox.Kept.{payload_of}
use clawdentity.Connector.InboundInbox.Runs.{Spares}
use clawdentity.Connector.Replay.Delivery.{
  ErrorCode, hook_auth_rejected, runtime_stopping, other, DeliveryError,
}
use clawdentity.Connector.Replay.Pass.{
  Stage, delivering, accepted_by_hook, failed_with, Lane, ReceiptStatus, delivered_to_webhook,
  dead_lettered, DeliveryReceiptInput, Pass, Turn, delivery_ends, settles, calls, to_lanes,
  put_lane, end_failed, end_delivery,
}

abbrev pub is_accepted : List String → String → Bool
is_accepted accepted id = any (λ a. a == id) accepted

abbrev pub MarkedAt : List String → List InboundInboxItem → Stage → Type 0
MarkedAt accepted [] stage = Unit
MarkedAt accepted (pending ∷ rest) accepted_by_hook = is_accepted accepted pending.request_id ≡ true
MarkedAt accepted (pending ∷ rest) delivering = Unit
MarkedAt accepted (pending ∷ rest) (failed_with e) = Unit

abbrev pub Marked : List String → Option Lane → Type 0
Marked accepted none = Unit
Marked accepted (some lane) = MarkedAt accepted lane.items lane.stage

abbrev pub HonestAs : List String → String → ReceiptStatus → Type 0
HonestAs accepted id delivered_to_webhook = is_accepted accepted id ≡ true
HonestAs accepted id dead_lettered = Unit

-- A receipt that reports a delivery is for a message that the webhook accepted.
abbrev pub IsHonest : List String → DeliveryReceiptInput → Type 0
IsHonest accepted r = HonestAs accepted r.request_id r.status

-- Turns whose calls neither mark this message as delivered nor purge dead letters.
abbrev pub SparesIn : String → Turn → Type 0
SparesIn id (calls c) = Spares id c
SparesIn id (delivery_ends key tries) = Unit
SparesIn id (settles key now now_ms thrown) = Unit

pub record Holds (id payload : String) (s : Pass) : Type 0 where
  pub sound : IsSound s.db
  pub kept : is_accepted s.accepted id ≡ false → payload_of id s.db ≡ some payload
  pub marked : (key : String) → Marked s.accepted (get s.lanes key)
  pub honest : All (IsHonest s.accepted) s.receipts

grow :
    (accepted : List String) (new id : String)
    → is_accepted accepted id ≡ true
    → is_accepted (new ∷ accepted) id ≡ true
unfolding any
grow accepted new id h = ground arith

grow-MarkedAt :
    (accepted : List String) (new : String) (items : List InboundInboxItem) (stage : Stage)
    → MarkedAt accepted items stage
    → MarkedAt (new ∷ accepted) items stage
grow-MarkedAt accepted new [] stage h = tt
grow-MarkedAt accepted new (pending ∷ rest) accepted_by_hook h =
    grow accepted new pending.request_id h
grow-MarkedAt accepted new (pending ∷ rest) delivering h = tt
grow-MarkedAt accepted new (pending ∷ rest) (failed_with e) h = tt

grow-Marked :
    (accepted : List String) (new : String) (o : Option Lane)
    → Marked accepted o
    → Marked (new ∷ accepted) o
grow-Marked accepted new none h = tt
grow-Marked accepted new (some lane) h = grow-MarkedAt accepted new lane.items lane.stage h

grow-HonestAs :
    (accepted : List String) (new id : String) (status : ReceiptStatus)
    → HonestAs accepted id status
    → HonestAs (new ∷ accepted) id status
grow-HonestAs accepted new id delivered_to_webhook h = grow accepted new id h
grow-HonestAs accepted new id dead_lettered h = tt

grow-IsHonest :
    (accepted : List String) (new : String) (receipts : List DeliveryReceiptInput)
    → All (IsHonest accepted) receipts
    → All (IsHonest (new ∷ accepted)) receipts
grow-IsHonest accepted new [] h = tt
grow-IsHonest accepted new (r ∷ rs) (h, hs) =
    (grow-HonestAs accepted new r.request_id r.status h, grow-IsHonest accepted new rs hs)

set-Marked :
    (accepted : List String) (lanes : Dict Lane) (key : String) (lane : Lane)
    → ((k : String) → Marked accepted (get lanes k))
    → Marked accepted (some lane)
    → (k : String) → Marked accepted (get (set lanes key lane) k)
set-Marked accepted lanes key lane h new k = elim (Bool-cases (key == k)) [
  | inl same ↦ rw (get-set lanes key k lane, same) new
  | inr differs ↦ rw (get-set lanes key k lane, differs) (h k)
]

delete-Marked :
    (accepted : List String) (lanes : Dict Lane) (key : String)
    → ((k : String) → Marked accepted (get lanes k))
    → (k : String) → Marked accepted (get (delete lanes key) k)
delete-Marked accepted lanes key h k = elim (Bool-cases (key == k)) [
  | inl same ↦ rw (get-delete lanes key k, same) tt
  | inr differs ↦ rw (get-delete lanes key k, differs) (h k)
]

pub start-MarkedAt :
    (accepted : List String) (l : List InboundInboxItem) → MarkedAt accepted l delivering
start-MarkedAt accepted [] = tt
start-MarkedAt accepted (x ∷ xs) = tt

pub to_lanes-Marked :
    (accepted : List String) (lanes : Dict (List InboundInboxItem)) (key : String)
    → Marked accepted (get (to_lanes lanes) key)
unfolding to_lanes get
to_lanes-Marked accepted [] key = tt
to_lanes-Marked accepted ((k, items) ∷ lanes) key = elim (Bool-cases (k == key)) [
  | inl same ↦ rw same (start-MarkedAt accepted items)
  | inr differs ↦ rw differs (to_lanes-Marked accepted lanes key)
]

module _ (id payload : String) where
  pub put_lane-Holds :
      (key : String) (items : List InboundInboxItem) (stage : Stage) (s : Pass)
      → MarkedAt s.accepted items stage
      → Holds id payload s
      → Holds id payload (put_lane key items stage s)
  put_lane-Holds key items stage s new h = record {
    sound = h.sound;
    kept = h.kept;
    marked =
        set-Marked s.accepted s.lanes key (record { items = items; stage = stage }) h.marked new;
    honest = h.honest;
  }

  pub drop_lane-Holds :
      (key : String) (s : Pass)
      → Holds id payload s
      → Holds id payload (record s { lanes = delete s.lanes key })
  drop_lane-Holds key s h = record {
    sound = h.sound;
    kept = h.kept;
    marked = delete-Marked s.accepted s.lanes key h.marked;
    honest = h.honest;
  }

  end_failed-Holds :
      (key : String) (pending : InboundInboxItem) (rest : List InboundInboxItem) (e : DeliveryError)
      (code : ErrorCode) (s : Pass)
      → Holds id payload s
      → Holds id payload (end_failed key pending rest e code s)
  unfolding end_failed
  end_failed-Holds key pending rest e runtime_stopping s h = drop_lane-Holds key s h
  end_failed-Holds key pending rest e hook_auth_rejected s h =
      put_lane-Holds key (pending ∷ rest) (failed_with e) s tt h
  end_failed-Holds key pending rest e other s h =
      put_lane-Holds key (pending ∷ rest) (failed_with e) s tt h

  accept-Holds :
      (item : InboundInboxItem) (s : Pass)
      → Holds id payload s
      → Holds id payload (record s {
        attempted = s.attempted ++ (item ∷ []);
        accepted = item.request_id ∷ s.accepted;
      })
  unfolding any
  accept-Holds item s h = record {
    sound = h.sound;
    kept = λ e. h.kept (ground (arith, e));
    marked = λ key. grow-Marked s.accepted item.request_id (get s.lanes key) (h.marked key);
    honest = grow-IsHonest s.accepted item.request_id s.receipts h.honest;
  }

  attempt-Holds :
      (item : InboundInboxItem) (s : Pass)
      → Holds id payload s
      → Holds id payload (record s { attempted = s.attempted ++ (item ∷ []) })
  attempt-Holds item s h = record {
    sound = h.sound;
    kept = h.kept;
    marked = h.marked;
    honest = h.honest;
  }

  pub end_delivery-Holds :
      (key : String) (pending : InboundInboxItem) (rest : List InboundInboxItem)
      (o : Option (ℕ × Option DeliveryError)) (s : Pass)
      → Holds id payload s
      → Holds id payload (end_delivery key pending rest o s)
  unfolding end_delivery any
  end_delivery-Holds key pending rest none s h = h
  end_delivery-Holds key pending rest (some (attempt, none)) s h =
      put_lane-Holds key (pending ∷ rest) accepted_by_hook _ (rw (eq_refl pending.request_id) refl)
        (accept-Holds pending s h)
  end_delivery-Holds key pending rest (some (attempt, some e)) s h =
      end_failed-Holds key pending rest e e.code _ (attempt-Holds pending s h)

  -- The inbox after a call that may take out only what the webhook accepted.
  pub db-Holds :
      (db : Database) (s : Pass)
      → IsSound db
      → (is_accepted s.accepted id ≡ false → payload_of id db ≡ some payload)
      → Holds id payload s
      → Holds id payload (record s { db = db })
  db-Holds db s sound kept h = record {
    sound = sound;
    kept = kept;
    marked = h.marked;
    honest = h.honest;
  }

  pub receipt-Holds :
      (r : DeliveryReceiptInput) (s : Pass)
      → IsHonest s.accepted r
      → Holds id payload s
      → Holds id payload (record s { receipts = s.receipts ++ (r ∷ []) })
  receipt-Holds r s new h = record {
    sound = h.sound;
    kept = h.kept;
    marked = h.marked;
    honest = All-append (IsHonest s.accepted) s.receipts (r ∷ []) h.honest (new, tt);
  }
