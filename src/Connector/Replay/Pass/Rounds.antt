-- ===== src/Connector/Replay/Pass/Rounds.antt =====
-- What enough turns leave a lane to do.
use clawdentity.Shared.{
  ℕ, zero, suc, ◌+◌, ◌-◌, ◌*◌, ◌≤◌, ◌≡◌, refl, sym, ap, ◌∙◌, String, Bool, true, false, Option,
  none, some, List, [], ◌∷◌, All, ◌==◌, eq_iff, if◌then◌else◌, Bool-cases, inl, inr, arith,
}
use clawdentity.Shared.Dict.{get}
use clawdentity.Connector.InboundInbox.Types.{InboundInboxItem}
use clawdentity.Connector.InboundInbox.Storage.{Database}
use clawdentity.Connector.InboundInbox.Calls.{InboxOptions}
use clawdentity.Connector.InboundInbox.Sound.{IsSound, Succeeds}
use clawdentity.Connector.InboundInbox.Runs.{call, call-Succeeds}
use clawdentity.Connector.Replay.Delivery.{InboundReplayPolicy, Tries}
use clawdentity.Connector.Replay.Pass.{
  Stage, Lane, Pass, Turn, delivery_ends, settles, calls, lane_ends_delivery, lane_settles,
  after_call, turn, turns,
}
use clawdentity.Connector.Replay.Pass.Progress.{
  steps_of, GoesOn, Moved, delivery-Moved, settles-Moved,
}

-- How often the lane's delivery ends and its result is written after that, in this schedule.
unfoldable pub rounds : String → Bool → List Turn → ℕ
rounds key ended [] = 0
rounds key false (delivery_ends k tries ∷ ts) =
    let after = rounds key true ts in
    let same = rounds key false ts in if k == key then after else same
rounds key true (delivery_ends k tries ∷ ts) = rounds key true ts
rounds key true (settles k now now_ms thrown ∷ ts) =
    let after = rounds key false ts in
    let same = rounds key true ts in if k == key then after + 1 else same
rounds key false (settles k now now_ms thrown ∷ ts) = rounds key false ts
rounds key true (calls c ∷ ts) = rounds key true ts
rounds key false (calls c ∷ ts) = rounds key false ts

-- No delivery of the schedule ends by the runtime's end.
abbrev pub GoesOnIn : InboundReplayPolicy → Turn → Type 0
GoesOnIn policy (delivery_ends key tries) = GoesOn policy tries
GoesOnIn policy (settles key now now_ms thrown) = Unit
GoesOnIn policy (calls c) = Unit

abbrev steps_found : Option Lane → ℕ
steps_found none = 0
steps_found (some lane) = steps_of lane

-- The tables are sound, and the lane is there with so many steps left at most.
pub record Leaves (key : String) (n : ℕ) (s : Pass) : Type 0 where
  pub sound : IsSound s.db
  pub lane : Lane
  pub found : get s.lanes key ≡ some lane
  pub bound : steps_of lane ≤ n

weaken : (key : String) (n m : ℕ) (s : Pass) → n ≤ m → Leaves key n s → Leaves key m s
weaken key n m s le h = record {
  sound = h.sound;
  lane = h.lane;
  found = h.found;
  bound = omega (arith, h.bound, le);
}

-- The lane that moved is this one.
Moved-here :
    (parity m : ℕ) (key : String) (lane : Lane) (s s' : Pass)
    → get s.lanes key ≡ some lane
    → Moved parity key lane s s'
    → Leaves key (2 * m + suc parity) s
    → Leaves key (2 * m + parity) s'
Moved-here parity m key lane s s' found v h = record {
  sound = v.sound;
  lane = v.next;
  found = elim (Bool-cases (key == key)) [
    | inl same ↦ v.lanes key ∙ rw same refl
    | inr differs ↦ ground (arith, differs, eq_iff key key)
  ];
  bound =
      let same : some lane ≡ some h.lane = sym found ∙ h.found in
      v.drops m (rw (ap steps_found same) h.bound);
}

-- Some lane moved.
Moved-any :
    (parity n : ℕ) (key k : String) (lane : Lane) (s s' : Pass)
    → get s.lanes k ≡ some lane
    → Moved parity k lane s s'
    → Leaves key n s
    → Leaves key n s'
Moved-any parity n key k lane s s' found v h = elim (Bool-cases (k == key)) [
  | inl same ↦ record {
    sound = v.sound;
    lane = v.next;
    found = v.lanes key ∙ rw same refl;
    bound =
        let e : some lane ≡ some h.lane =
          sym found ∙ ap (get s.lanes) ((eq_iff k key).0 same) ∙ h.found in
        let f : steps_of lane ≡ steps_of h.lane = ap steps_found e in
        omega (arith, v.less, f, h.bound);
  }
  | inr differs ↦ record {
    sound = v.sound;
    lane = h.lane;
    found = v.lanes key ∙ rw differs h.found;
    bound = h.bound;
  }
]

module _ (options : InboxOptions) (policy : InboundReplayPolicy) (to_iso : ℕ → String)
    (key : String) where
  on_lane :
      (parity n : ℕ) (k : String) (s : Pass) (f : List InboundInboxItem → Stage → Pass → Pass)
      → ((lane : Lane)
          → get s.lanes k ≡ some lane
          → Moved parity k lane s (f lane.items lane.stage s))
      → Leaves key n s
      → (o : Option Lane) → get s.lanes k ≡ o
      → Leaves key n (elim o [ none ↦ s | some lane ↦ f lane.items lane.stage s ])
  on_lane parity n k s f moved h none found = h
  on_lane parity n k s f moved h (some lane) found =
      Moved-any parity n key k lane s _ found (moved lane found) h

  on_this_lane :
      (parity m : ℕ) (s : Pass) (f : List InboundInboxItem → Stage → Pass → Pass)
      → ((lane : Lane)
          → get s.lanes key ≡ some lane
          → Moved parity key lane s (f lane.items lane.stage s))
      → Leaves key (2 * m + suc parity) s
      → Leaves key
          (2 * m + parity)
          (elim (get s.lanes key) [ none ↦ s | some lane ↦ f lane.items lane.stage s ])
  on_this_lane parity m s f moved h =
      rw h.found (Moved-here parity m key h.lane s _ h.found (moved h.lane h.found) h)

  after_call-Leaves :
      (n : ℕ) (o : Option {0} (Database × Unit {0})) (s : Pass)
      → Succeeds o
      → Leaves key n s
      → Leaves key n (after_call options policy to_iso o s)
  unfolding after_call
  after_call-Leaves n none s ok h = h
  after_call-Leaves n (some (db, x)) s ok h = record {
    sound = ok;
    lane = h.lane;
    found = h.found;
    bound = h.bound;
  }

  -- No turn adds steps.
  turn-Leaves :
      (n : ℕ) (t : Turn) (s : Pass)
      → GoesOnIn policy t
      → Leaves key n s
      → Leaves key n (turn options policy to_iso t s)
  unfolding turn
  turn-Leaves n (delivery_ends k tries) s goes h =
      on_lane 1 n k s (lane_ends_delivery options policy to_iso k tries)
        (λ lane found.
          delivery-Moved options policy to_iso k tries lane.items lane.stage s goes found h.sound)
        h (get s.lanes k) refl
  turn-Leaves n (settles k now now_ms thrown) s goes h =
      on_lane 0 n k s (lane_settles options policy to_iso k now now_ms thrown)
        (λ lane found.
          settles-Moved options policy to_iso k now now_ms thrown lane.items lane.stage s found
            h.sound)
        h (get s.lanes k) refl
  turn-Leaves n (calls c) s goes h =
      after_call-Leaves n (call options c s.db) s (call-Succeeds options c s.db h.sound) h

  -- A delivery's end takes the odd step, and writing its result the even one.
  delivery-Leaves :
      (m : ℕ) (k : String) (tries : Tries) (s : Pass)
      → k ≡ key
      → GoesOn policy tries
      → Leaves key (2 * m + 2) s
      → Leaves key (2 * m + 1) (turn options policy to_iso (delivery_ends k tries) s)
  unfolding turn
  delivery-Leaves m k tries s same goes h = rw same (
      on_this_lane 1 m s (lane_ends_delivery options policy to_iso key tries)
        (λ lane found.
          delivery-Moved options policy to_iso key tries lane.items lane.stage s goes found h.sound)
        h)

  settles-Leaves :
      (m : ℕ) (k now : String) (now_ms : ℕ) (thrown : String) (s : Pass)
      → k ≡ key
      → Leaves key (2 * m + 1) s
      → Leaves key (2 * m) (turn options policy to_iso (settles k now now_ms thrown) s)
  unfolding turn
  settles-Leaves m k now now_ms thrown s same h = rw same (
      weaken key (2 * m + 0) (2 * m) _ (omega arith) (
        on_this_lane 0 m s (lane_settles options policy to_iso key now now_ms thrown)
          (λ lane found.
            settles-Moved options policy to_iso key now now_ms thrown lane.items lane.stage s found
              h.sound)
          h))

  abbrev Awaits : Bool → ℕ → Pass → Type 0
  Awaits false m s = Leaves key (2 * m) s
  Awaits true m s = Leaves key (2 * m - 1) s

  ends-Awaits :
      (m : ℕ) (k : String) (tries : Tries) (s : Pass)
      → k ≡ key
      → GoesOn policy tries
      → Awaits false m s
      → Awaits true m (turn options policy to_iso (delivery_ends k tries) s)
  ends-Awaits zero k tries s same goes h = turn-Leaves 0 (delivery_ends k tries) s goes h
  ends-Awaits (suc m) k tries s same goes h =
      weaken key (2 * m + 1) (2 * suc m - 1) _ (omega arith) (
        delivery-Leaves m k tries s same goes
          (weaken key (2 * suc m) (2 * m + 2) s (omega arith) h))

  settled-Awaits :
      (m : ℕ) (k now : String) (now_ms : ℕ) (thrown : String) (s : Pass)
      → k ≡ key
      → Awaits true m s
      → Awaits false (m - 1) (turn options policy to_iso (settles k now now_ms thrown) s)
  settled-Awaits zero k now now_ms thrown s same h =
      turn-Leaves 0 (settles k now now_ms thrown) s tt h
  settled-Awaits (suc m) k now now_ms thrown s same h =
      weaken key (2 * m) (2 * (suc m - 1)) _ (omega arith) (
        settles-Leaves m k now now_ms thrown s same
          (weaken key (2 * suc m - 1) (2 * m + 1) s (omega arith) h))

  turn-Awaits :
      (ended : Bool) (m : ℕ) (t : Turn) (s : Pass)
      → GoesOnIn policy t
      → Awaits ended m s
      → Awaits ended m (turn options policy to_iso t s)
  turn-Awaits false m t s goes h = turn-Leaves (2 * m) t s goes h
  turn-Awaits true m t s goes h = turn-Leaves (2 * m - 1) t s goes h

  -- Each round of the lane takes two steps.
  pub turns-Leaves :
      (ts : List Turn) (ended : Bool) (m : ℕ) (s : Pass)
      → All (GoesOnIn policy) ts
      → Awaits ended m s
      → Leaves key (2 * (m - rounds key ended ts)) (turns options policy to_iso ts s)
  unfolding turns rounds
  turns-Leaves [] false m s goes h = weaken key (2 * m) (2 * (m - 0)) s (omega arith) h
  turns-Leaves [] true m s goes h = weaken key (2 * m - 1) (2 * (m - 0)) s (omega arith) h
  turns-Leaves (delivery_ends k tries ∷ ts) false m s (g, goes) h = elim (Bool-cases (k == key)) [
    | inl same ↦
        rw same
          (turns-Leaves ts true m _ goes (ends-Awaits m k tries s ((eq_iff k key).0 same) g h))
    | inr differs ↦
        rw differs
          (turns-Leaves ts false m _ goes (turn-Awaits false m (delivery_ends k tries) s g h))
  ]
  turns-Leaves (delivery_ends k tries ∷ ts) true m s (g, goes) h =
      turns-Leaves ts true m _ goes (turn-Awaits true m (delivery_ends k tries) s g h)
  turns-Leaves (settles k now now_ms thrown ∷ ts) false m s (g, goes) h =
      turns-Leaves ts false m _ goes (turn-Awaits false m (settles k now now_ms thrown) s g h)
  turns-Leaves (settles k now now_ms thrown ∷ ts) true m s (g, goes) h =
      elim (Bool-cases (k == key)) [
        | inl same ↦ rw same (
            weaken key (2 * (m - 1 - rounds key false ts)) (2 * (m - (rounds key false ts + 1))) _
              (omega arith)
              (turns-Leaves ts false (m - 1) _ goes
                (settled-Awaits m k now now_ms thrown s ((eq_iff k key).0 same) h)))
        | inr differs ↦
            rw differs (
              turns-Leaves ts true m _ goes
                (turn-Awaits true m (settles k now now_ms thrown) s g h))
      ]
  turns-Leaves (calls c ∷ ts) false m s (g, goes) h =
      turns-Leaves ts false m _ goes (turn-Awaits false m (calls c) s g h)
  turns-Leaves (calls c ∷ ts) true m s (g, goes) h =
      turns-Leaves ts true m _ goes (turn-Awaits true m (calls c) s g h)
