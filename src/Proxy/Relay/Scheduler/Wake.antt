-- ===== src/Proxy/Relay/Scheduler/Wake.antt =====
-- The alarm wakes the session in time for every queued delivery.
use clawdentity.Shared.{
  ℕ, ◌+◌, ◌≤◌, ◌<◌, ◌≡◌, refl, ◌⊎◌, inl, inr, min, max, Bool, true, false, Option, none, some, List,
  [], ◌∷◌, arith, All,
}
use clawdentity.Proxy.Relay.Types.{QueuedRelayDelivery, RelayQueueState}
use clawdentity.Proxy.Relay.Queue.{earlier, wake_from, find_next_queue_wake_ms}
use clawdentity.Proxy.Relay.Scheduler.{
  relay_heartbeat_interval_ms, next_alarm, schedule_next_relay_alarm,
}

-- Not after the moment when any of the deliveries may be sent (or the next millisecond).
abbrev pub IsInTime : ℕ → ℕ → List QueuedRelayDelivery → Type 0
IsInTime now t = All (λ d. t ≤ max (now + 1) d.next_attempt_at_ms)

-- The queue is empty, or the alarm is set for a later moment, in time for every delivery.
abbrev pub Wakes : ℕ → List QueuedRelayDelivery → Option ℕ → Type 0
Wakes now ds a = (ds ≡ []) ⊎ ((t : ℕ) × (a ≡ some t) × (now < t) × IsInTime now t ds)

earlier-some : (e c : ℕ) → earlier (some e) c ≡ some (min e c)
unfolding earlier
earlier-some e c = ground arith

wake_from-some :
    (now e : ℕ) (ds : List QueuedRelayDelivery)
    → now < e
    → (t : ℕ) × (wake_from (some e) ds now ≡ some t) × (t ≤ e) × (now < t) × IsInTime now t ds
unfolding wake_from
wake_from-some now e [] h = (e, refl, omega arith, h, tt)
wake_from-some now e (d ∷ ds) h =
    let c = max (now + 1) d.next_attempt_at_ms in
    let (t, p, le, later, rest) = wake_from-some now (min e c) ds (omega arith) in
    (t, rw (earlier-some e c) p, omega arith, later, (omega arith, rest))

find-Wakes :
    (q : RelayQueueState) (now : ℕ) → Wakes now q.deliveries (find_next_queue_wake_ms q now)
unfolding find_next_queue_wake_ms
find-Wakes q now = from_list q.deliveries
  where
    from_list : (ds : List QueuedRelayDelivery) → Wakes now ds (wake_from none ds now)
    from_list [] = inl refl
    from_list (d ∷ ds) =
        let (t, p, le, later, rest) =
          wake_from-some now (max (now + 1) d.next_attempt_at_ms) ds (omega arith) in
        inr (t, p, later, (le, rest))

sooner-IsInTime :
    (now t u : ℕ) (ds : List QueuedRelayDelivery) → u ≤ t → IsInTime now t ds → IsInTime now u ds
sooner-IsInTime now t u [] h k = tt
sooner-IsInTime now t u (d ∷ ds) h (p, k) = (omega arith, sooner-IsInTime now t u ds h k)

-- With deliveries in the queue the alarm is set for a later moment and goes off in time for each of
-- them, whether or not a socket is active.
pub schedule-Wakes :
    (q : RelayQueueState) (now : ℕ) (has_active_sockets : Bool)
    → Wakes now q.deliveries (schedule_next_relay_alarm q now has_active_sockets)
unfolding schedule_next_relay_alarm
schedule-Wakes q now active =
    by_candidates (find_next_queue_wake_ms q now) active (find-Wakes q now)
  where
    by_candidates :
        (wake : Option ℕ) (b : Bool)
        → Wakes now q.deliveries wake
        → Wakes now q.deliveries (next_alarm wake b now)
    by_candidates wake b (inl e) = inl e
    by_candidates none b (inr (t, p, later, rest)) = cc
    by_candidates (some w) false h = h
    by_candidates (some w) true (inr (t, p, later, rest)) =
        let same : w ≡ t = ground arith in
        inr (
          min w (now + relay_heartbeat_interval_ms),
          refl,
          omega arith,
          sooner-IsInTime now t _ q.deliveries (omega arith) rest,
        )
