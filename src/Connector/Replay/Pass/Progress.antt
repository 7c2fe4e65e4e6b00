-- ===== src/Connector/Replay/Pass/Progress.antt =====
-- What a turn of a lane leaves it to do, as long as no delivery meets the end of the runtime.
use clawdentity.Shared.{
  ℕ, suc, ◌+◌, ◌*◌, ◌≤◌, ◌≡◌, ◌≢◌, refl, ap, ◌∙◌, String, Bool, true, false, Option, none, some,
  List, [], ◌∷◌, ◌++◌, length, ◌==◌, eq_iff, if◌then◌else◌, Bool-cases, inl, inr, arith,
}
use clawdentity.Shared.Dict.{get, set, get-set}
use clawdentity.Connector.InboundInbox.Types.{InboundInboxItem}
use clawdentity.Connector.InboundInbox.Storage.{Database}
use clawdentity.Connector.InboundInbox.Calls.{InboxOptions}
use clawdentity.Connector.InboundInbox.Sound.{IsSound, Succeeds}
use clawdentity.Connector.InboundInbox.Preserved.{mark_delivered-Succeeds, mark_failure-Succeeds}
use clawdentity.Connector.Replay.Delivery.{
  ErrorCode, hook_auth_rejected, runtime_stopping, other, DeliveryError, InboundReplayPolicy, Tries,
  deliver_to_delivery_webhook_hook_with_retry,
}
use clawdentity.Connector.Replay.Delivery.Attempts.{deliver-Ends}
use clawdentity.Connector.Replay.Pass.{
  Stage, delivering, accepted_by_hook, failed_with, Lane, Pass, end_failed, end_delivery,
  lane_ends_delivery, settle_accepted, settle_failed, replay_failure, lane_settles,
}

-- The turns that a lane has still to take: two for each message, one for a first message whose
-- delivery has ended.
abbrev pub steps_left : List InboundInboxItem → Stage → ℕ
steps_left [] stage = 0
steps_left (pending ∷ rest) delivering = 2 * length rest + 2
steps_left (pending ∷ rest) accepted_by_hook = 2 * length rest + 1
steps_left (pending ∷ rest) (failed_with e) = 2 * length rest + 1

abbrev pub steps_of : Lane → ℕ
steps_of lane = steps_left lane.items lane.stage

pub steps_left-delivering :
    (items : List InboundInboxItem) → steps_left items delivering ≡ 2 * length items
steps_left-delivering [] = refl
steps_left-delivering (x ∷ xs) = omega arith

-- The delivery does not end by the runtime's end.
abbrev pub GoesOn : InboundReplayPolicy → Tries → Type 0
GoesOn policy tries =
    (attempt : ℕ) (e : DeliveryError)
    → deliver_to_delivery_webhook_hook_with_retry policy tries ≡ some (attempt, some e)
    → e.code ≢ runtime_stopping

-- The turn changes this lane only. It ends with an even number of steps left, or an odd one, by the
-- kind of the turn, and has so taken one step if that was due.
pub record Moved (parity : ℕ) (key : String) (lane : Lane) (s s' : Pass) : Type 0 where
  pub next : Lane
  pub lanes : (j : String) → get s'.lanes j ≡ (if key == j then some next else get s.lanes j)
  pub sound : IsSound s'.db
  pub less : steps_of next ≤ steps_of lane
  pub drops : (m : ℕ) → steps_of lane ≤ 2 * m + suc parity → steps_of next ≤ 2 * m + parity

module _ (parity : ℕ) (key : String) (lane : Lane) (s : Pass) (sound : IsSound s.db) where
  stays-Moved :
      get s.lanes key ≡ some lane
      → ((m : ℕ) → steps_of lane ≤ 2 * m + suc parity → steps_of lane ≤ 2 * m + parity)
      → Moved parity key lane s s
  stays-Moved found drops = record {
    next = lane;
    lanes = λ j. elim (Bool-cases (key == j)) [
      | inl same ↦ rw (same, ← (eq_iff key j).0 same) found
      | inr differs ↦ rw differs refl
    ];
    sound = sound;
    less = omega arith;
    drops = drops;
  }

  set-Moved :
      (next : Lane) (s' : Pass)
      → s'.lanes ≡ set s.lanes key next
      → IsSound s'.db
      → steps_of next ≤ steps_of lane
      → ((m : ℕ) → steps_of lane ≤ 2 * m + suc parity → steps_of next ≤ 2 * m + parity)
      → Moved parity key lane s s'
  set-Moved next s' e sound' less drops = record {
    next = next;
    lanes = λ j. rw e (get-set s.lanes key j next);
    sound = sound';
    less = less;
    drops = drops;
  }

abbrev at_first : InboundInboxItem → List InboundInboxItem → Stage → Lane
at_first pending rest stage = record { items = pending ∷ rest; stage = stage }

module _ (key : String) (pending : InboundInboxItem) (rest : List InboundInboxItem) (s : Pass)
    (sound : IsSound s.db) where
  end_failed-Moved :
      (e : DeliveryError) (code : ErrorCode)
      → code ≢ runtime_stopping
      → Moved 1 key (at_first pending rest delivering) s (
          end_failed key pending rest e code
            (record s { attempted = s.attempted ++ (pending ∷ []) }))
  unfolding end_failed
  end_failed-Moved e runtime_stopping h = absurd (h refl)
  end_failed-Moved e hook_auth_rejected h =
      set-Moved 1 key (at_first pending rest delivering) s sound
        (at_first pending rest (failed_with e)) _ refl sound (omega arith)
        (λ m less. omega (arith, less))
  end_failed-Moved e other h =
      set-Moved 1 key (at_first pending rest delivering) s sound
        (at_first pending rest (failed_with e)) _ refl sound (omega arith)
        (λ m less. omega (arith, less))

  end_delivery-Moved :
      (attempt : ℕ) (error : Option DeliveryError)
      → ((e : DeliveryError) → error ≡ some e → e.code ≢ runtime_stopping)
      → Moved 1 key
          (at_first pending rest delivering)
          s
          (end_delivery key pending rest (some (attempt, error)) s)
  unfolding end_delivery
  end_delivery-Moved attempt none h =
      set-Moved 1 key (at_first pending rest delivering) s sound
        (at_first pending rest accepted_by_hook) _ refl sound (omega arith)
        (λ m less. omega (arith, less))
  end_delivery-Moved attempt (some e) h = end_failed-Moved e e.code (h e refl)

module _ (options : InboxOptions) (policy : InboundReplayPolicy) (to_iso : ℕ → String) where
  pub delivery-Moved :
      (key : String) (tries : Tries) (items : List InboundInboxItem) (stage : Stage) (s : Pass)
      → GoesOn policy tries
      → get s.lanes key ≡ some (record { items = items; stage = stage })
      → IsSound s.db
      → Moved 1 key
          (record { items = items; stage = stage })
          s
          (lane_ends_delivery options policy to_iso key tries items stage s)
  unfolding lane_ends_delivery
  delivery-Moved key tries [] stage s goes found sound =
      stays-Moved 1 key _ s sound found (λ m less. omega arith)
  delivery-Moved key tries (pending ∷ rest) delivering s goes found sound =
      let ends = deliver-Ends policy tries in
      rw ends.returned (
        end_delivery-Moved key pending rest s sound ends.last ends.error
          (λ e same. goes ends.last e (ends.returned ∙ ap (λ x. some (ends.last, x)) same)))
  delivery-Moved key tries (pending ∷ rest) accepted_by_hook s goes found sound =
      stays-Moved 1 key _ s sound found (λ m less. omega (arith, less))
  delivery-Moved key tries (pending ∷ rest) (failed_with e) s goes found sound =
      stays-Moved 1 key _ s sound found (λ m less. omega (arith, less))

  module _ (key : String) (pending : InboundInboxItem) (rest : List InboundInboxItem) (s : Pass)
      (sound : IsSound s.db) where
    rest-Moved :
        (lane : Lane) (s' : Pass)
        → steps_of lane ≡ 2 * length rest + 1
        → s'.lanes ≡ set s.lanes key (record { items = rest; stage = delivering })
        → IsSound s'.db
        → Moved 0 key lane s s'
    rest-Moved lane s' odd e sound' =
        set-Moved 0 key lane s sound (record { items = rest; stage = delivering }) s' e sound'
          (omega (arith, odd, steps_left-delivering rest))
          (λ m less. omega (arith, less, odd, steps_left-delivering rest))

    accepted-Moved :
        (thrown : String) (o : Option {0} (Database × Unit {0}))
        → Succeeds o
        → Moved 0 key
            (at_first pending rest accepted_by_hook)
            s
            (settle_accepted options policy to_iso key thrown pending rest o s)
    unfolding settle_accepted
    accepted-Moved thrown none ok = absurd ok
    accepted-Moved thrown (some (db, x)) ok = rest-Moved _ _ refl refl ok

    failed-Moved :
        (e : DeliveryError) (o : Option (Database × Bool))
        → Succeeds o
        → Moved 0 key
            (at_first pending rest (failed_with e))
            s
            (settle_failed options policy to_iso key pending rest e o s)
    unfolding settle_failed
    failed-Moved e none ok = absurd ok
    failed-Moved e (some (db, false)) ok = rest-Moved _ _ refl refl ok
    failed-Moved e (some (db, true)) ok = rest-Moved _ _ refl refl ok

  pub settles-Moved :
      (key now : String) (now_ms : ℕ) (thrown : String) (items : List InboundInboxItem)
      (stage : Stage) (s : Pass)
      → get s.lanes key ≡ some (record { items = items; stage = stage })
      → IsSound s.db
      → Moved 0 key
          (record { items = items; stage = stage })
          s
          (lane_settles options policy to_iso key now now_ms thrown items stage s)
  unfolding lane_settles
  settles-Moved key now now_ms thrown [] stage s found sound =
      stays-Moved 0 key _ s sound found (λ m less. omega arith)
  settles-Moved key now now_ms thrown (pending ∷ rest) delivering s found sound =
      stays-Moved 0 key _ s sound found (λ m less. omega (arith, less))
  settles-Moved key now now_ms thrown (pending ∷ rest) accepted_by_hook s found sound =
      accepted-Moved key pending rest s sound thrown _
        (mark_delivered-Succeeds options pending.request_id s.db sound)
  settles-Moved key now now_ms thrown (pending ∷ rest) (failed_with e) s found sound =
      failed-Moved key pending rest s sound e _ (
        mark_failure-Succeeds options now (replay_failure options policy to_iso now_ms pending e)
          s.db sound)
