-- ===== src/Connector/Replay/Pass/Attempted.antt =====
-- What the messages that were attempted and those that a lane has left come to, and how an attempt
-- keeps it.
use clawdentity.Shared.{
  ℕ, ◌≡◌, refl, sym, ap, ◌∙◌, subst, String, Bool, true, false, Option, none, some, List, [], ◌∷◌,
  ◌++◌, All, filter, filter-passes, ◌==◌, eq_iff, if◌then◌else◌, Bool-cases, inl, inr, arith,
}
use mathlib.Core.List.{append_assoc, append-nil}
use clawdentity.Shared.Dict.{Dict, get, set, get-set, get-delete}
use clawdentity.Connector.InboundInbox.Types.{InboundInboxItem}
use clawdentity.Connector.Replay.Delivery.{
  ErrorCode, hook_auth_rejected, runtime_stopping, other, DeliveryError,
}
use clawdentity.Connector.Replay.Lanes.{lane_key}
use clawdentity.Connector.Replay.Lanes.Grouped.{in_lane}
use clawdentity.Connector.Replay.Pass.{
  Stage, delivering, accepted_by_hook, failed_with, Lane, Pass, end_failed, end_delivery,
}

-- What a lane has still to attempt.
abbrev pub left : List InboundInboxItem → Stage → List InboundInboxItem
left [] stage = []
left (pending ∷ rest) delivering = pending ∷ rest
left (pending ∷ rest) accepted_by_hook = rest
left (pending ∷ rest) (failed_with e) = rest

abbrev pub Fits : List InboundInboxItem → Option Lane → Type 0
Fits rest none = Unit
Fits rest (some lane) = left lane.items lane.stage ≡ rest

pub left-delivering : (l : List InboundInboxItem) → left l delivering ≡ l
left-delivering [] = refl
left-delivering (x ∷ xs) = refl

filter-append :
    (p : InboundInboxItem → Bool) (xs ys : List InboundInboxItem)
    → filter p (xs ++ ys) ≡ filter p xs ++ filter p ys
unfolding filter
filter-append p [] ys = refl
filter-append p (x ∷ xs) ys = elim (Bool-cases (p x)) [
  | inl kept ↦ rw (kept, filter-append p xs ys) refl
  | inr dropped ↦ rw (dropped, filter-append p xs ys) refl
]

second_head :
    (p : InboundInboxItem → Bool) (xs : List InboundInboxItem) (y : InboundInboxItem)
    (ys : List InboundInboxItem)
    → All (λ x. p x ≡ true) (xs ++ (y ∷ ys))
    → p y ≡ true
second_head p [] y ys (h, hs) = h
second_head p (x ∷ xs) y ys (h, hs) = second_head p xs y ys hs

module _ (due : List InboundInboxItem) where
  -- The attempted messages of the key, and those that its lane has left, are the due ones.
  pub record InOrder (key : String) (attempted : List InboundInboxItem) (o : Option Lane)
      : Type 0 where
    pub rest : List InboundInboxItem
    pub split : filter (in_lane key) attempted ++ rest ≡ filter (in_lane key) due
    pub fits : Fits rest o

  attempt_here :
      (key : String) (attempted : List InboundInboxItem) (pending : InboundInboxItem)
      (rest : List InboundInboxItem) (o : Option Lane)
      → filter (in_lane key) attempted ++ (pending ∷ rest) ≡ filter (in_lane key) due
      → Fits rest o
      → InOrder key (attempted ++ (pending ∷ [])) o
  unfolding filter
  attempt_here key attempted pending rest o h f =
      let mine =
        second_head (in_lane key) (filter (in_lane key) attempted) pending rest
          (subst (All (λ x. in_lane key x ≡ true)) (sym h) (filter-passes (in_lane key) due)) in
      record {
        rest = rest;
        split =
            rw (filter-append (in_lane key) attempted (pending ∷ []), mine)
              (append_assoc (filter (in_lane key) attempted) (pending ∷ []) rest ∙ h);
        fits = f;
      }

  attempt_elsewhere :
      (key : String) (attempted : List InboundInboxItem) (pending : InboundInboxItem)
      (o : Option Lane)
      → in_lane key pending ≡ false
      → InOrder key attempted o
      → InOrder key (attempted ++ (pending ∷ [])) o
  unfolding filter
  attempt_elsewhere key attempted pending o differs h = record {
    rest = h.rest;
    split =
        rw (filter-append (in_lane key) attempted (pending ∷ []), differs)
          (ap (λ l. l ++ h.rest) (append-nil (filter (in_lane key) attempted)) ∙ h.split);
    fits = h.fits;
  }

  pub same_left :
      (key : String) (attempted : List InboundInboxItem) (lane : Lane) (o : Option Lane)
      → InOrder key attempted (some lane)
      → Fits (left lane.items lane.stage) o
      → InOrder key attempted o
  same_left key attempted lane o h f = record {
    rest = h.rest;
    split = h.split;
    fits = subst (λ l. Fits l o) h.fits f;
  }

  abbrev pub AllInOrder : List InboundInboxItem → Dict Lane → Type 0
  AllInOrder attempted lanes = (key : String) → InOrder key attempted (get lanes key)

  pub move_lane :
      (key : String) (attempted : List InboundInboxItem) (lanes lanes' : Dict Lane)
      (o : Option Lane)
      → ((k : String) → get lanes' k ≡ (if key == k then o else get lanes k))
      → AllInOrder attempted lanes
      → InOrder key attempted o
      → AllInOrder attempted lanes'
  move_lane key attempted lanes lanes' o moved h new k = elim (Bool-cases (key == k)) [
    | inl same ↦ rw (moved k, same) (subst (λ j. InOrder j attempted o) ((eq_iff key k).0 same) new)
    | inr differs ↦ rw (moved k, differs) (h k)
  ]

  attempt_lane :
      (key : String) (attempted : List InboundInboxItem) (pending : InboundInboxItem)
      (rest : List InboundInboxItem) (lanes lanes' : Dict Lane) (o : Option Lane)
      → ((k : String) → get lanes' k ≡ (if key == k then o else get lanes k))
      → AllInOrder attempted lanes
      → filter (in_lane key) attempted ++ (pending ∷ rest) ≡ filter (in_lane key) due
      → Fits rest o
      → AllInOrder (attempted ++ (pending ∷ [])) lanes'
  attempt_lane key attempted pending rest lanes lanes' o moved h split f k =
      elim (Bool-cases (key == k)) [
        | inl same ↦
            rw (moved k, same)
              (subst (λ j. InOrder j (attempted ++ (pending ∷ [])) o) ((eq_iff key k).0 same)
                (attempt_here key attempted pending rest o split f))
        | inr differs ↦
            rw (moved k, differs)
              (attempt_elsewhere k attempted pending (get lanes k)
                (ground (arith, differs, eq_iff (lane_key pending) key, mine)) (h k))
      ]
    where
      mine : in_lane key pending ≡ true
      mine =
          second_head (in_lane key) (filter (in_lane key) attempted) pending rest
            (subst (All (λ x. in_lane key x ≡ true)) (sym split) (filter-passes (in_lane key) due))

  module _ (key : String) (pending : InboundInboxItem) (rest : List InboundInboxItem)
      (s : Pass) where
    attempted_lane :
        (stage : Stage)
        → left (pending ∷ rest) stage ≡ rest
        → AllInOrder s.attempted s.lanes
        → filter (in_lane key) s.attempted ++ (pending ∷ rest) ≡ filter (in_lane key) due
        → AllInOrder
            (s.attempted ++ (pending ∷ []))
            (set s.lanes key (record { items = pending ∷ rest; stage = stage }))
    attempted_lane stage f h split =
        attempt_lane key s.attempted pending rest s.lanes _ _
          (λ k. get-set s.lanes key k (record { items = pending ∷ rest; stage = stage })) h split f

    abbrev pub InOrderAfter : Pass → Type 0
    InOrderAfter s' = AllInOrder s'.attempted s'.lanes

    end_failed-order :
        (e : DeliveryError) (code : ErrorCode)
        → AllInOrder s.attempted s.lanes
        → filter (in_lane key) s.attempted ++ (pending ∷ rest) ≡ filter (in_lane key) due
        → InOrderAfter (
            end_failed key pending rest e code
              (record s { attempted = s.attempted ++ (pending ∷ []) }))
    unfolding end_failed
    end_failed-order e runtime_stopping h split =
        attempt_lane key s.attempted pending rest s.lanes _ none (get-delete s.lanes key) h split tt
    end_failed-order e hook_auth_rejected h split = attempted_lane (failed_with e) refl h split
    end_failed-order e other h split = attempted_lane (failed_with e) refl h split

    pub end_delivery-order :
        (o : Option (ℕ × Option DeliveryError))
        → AllInOrder s.attempted s.lanes
        → filter (in_lane key) s.attempted ++ (pending ∷ rest) ≡ filter (in_lane key) due
        → InOrderAfter (end_delivery key pending rest o s)
    unfolding end_delivery
    end_delivery-order none h split = h
    end_delivery-order (some (attempt, none)) h split = attempted_lane accepted_by_hook refl h split
    end_delivery-order (some (attempt, some e)) h split = end_failed-order e e.code h split
