-- ===== src/Proxy/NonceReplay/Swept.antt =====
-- The guard's alarm: every record is swept after its expiry.
use clawdentity.Shared.{
  ℕ, ◌+◌, ◌≤◌, String, Option, none, some, List, [], ◌∷◌, All, ltb, arith, Bool-cases, inl, inr,
}
use clawdentity.Shared.Dict.{Dict, All-set}
use clawdentity.Proxy.NonceReplay.{
  NonceReplayTryAcceptRequest, NonceReplayRecord, GuardStore, parse_try_accept_body, sooner,
  accept_new, accept_existing, accept_parsed, handle_try_accept, earliest, next_expiry, guard_alarm,
}
use clawdentity.Proxy.NonceReplay.Refused.{Event, request, alarm, step, run}

-- The alarm is set, and goes off at the latest at this record's expiry.
abbrev pub Covers : Option ℕ → NonceReplayRecord → Type 0
Covers none r = ⊥
Covers (some time) r = time ≤ r.expires_at

abbrev pub IsCovered : GuardStore → Type 0
IsCovered s = All (λ e. Covers s.alarm e.1) s.entries

All-Covers :
    (o o' : Option ℕ) (entries : Dict NonceReplayRecord)
    → ((r : NonceReplayRecord) → Covers o r → Covers o' r)
    → All (λ e. Covers o e.1) entries
    → All (λ e. Covers o' e.1) entries
All-Covers o o' [] earlier h = tt
All-Covers o o' ((k, r) ∷ entries) earlier (c, h) = (earlier r c, All-Covers o o' entries earlier h)

-- A covered record stays covered by a sooner alarm.
sooner-earlier :
    (o : Option ℕ) (time : ℕ) (r : NonceReplayRecord) → Covers o r → Covers (sooner o time) r
unfolding sooner
sooner-earlier none time r c = absurd c
sooner-earlier (some t) time r c = elim (Bool-cases (ltb time t)) [
  | inl before ↦ rw before (ground (arith, c, before))
  | inr later ↦ rw later c
]

earliest-earlier :
    (o : Option ℕ) (time : ℕ) (r : NonceReplayRecord) → Covers o r → Covers (earliest time o) r
unfolding earliest
earliest-earlier none time r c = absurd c
earliest-earlier (some t) time r c = omega (arith, c)

earliest-Covers : (o : Option ℕ) (r : NonceReplayRecord) → Covers (earliest r.expires_at o) r
unfolding earliest
earliest-Covers none r = omega arith
earliest-Covers (some t) r = omega arith

sooner-Covers : (o : Option ℕ) (r : NonceReplayRecord) → Covers (sooner o r.expires_at) r
unfolding sooner
sooner-Covers none r = omega arith
sooner-Covers (some t) r = elim (Bool-cases (ltb r.expires_at t)) [
  | inl before ↦ rw before (omega arith)
  | inr later ↦ rw later (ground (arith, later))
]

accept_new-IsCovered :
    (now ttl : ℕ) (key : String) (s : GuardStore)
    → IsCovered s
    → IsCovered (accept_new now ttl key s).0
unfolding accept_new
accept_new-IsCovered now ttl key s h =
    let r : NonceReplayRecord = record { seen_at = now; expires_at = now + ttl } in
    All-set (λ e. Covers (sooner s.alarm r.expires_at) e.1) s.entries key r
      (All-Covers s.alarm _ s.entries (sooner-earlier s.alarm r.expires_at) h)
      (sooner-Covers s.alarm r)

existing-IsCovered :
    (now ttl : ℕ) (key : String) (o : Option NonceReplayRecord) (s : GuardStore)
    → IsCovered s
    → IsCovered (accept_existing now ttl key o s).0
unfolding accept_existing
existing-IsCovered now ttl key none s h = accept_new-IsCovered now ttl key s h
existing-IsCovered now ttl key (some r) s h = elim (Bool-cases (ltb now r.expires_at)) [
  | inl live ↦ rw live h
  | inr over ↦ rw over (accept_new-IsCovered now ttl key s h)
]

parsed-IsCovered :
    (clock : ℕ) (o : Option NonceReplayTryAcceptRequest) (s : GuardStore)
    → IsCovered s
    → IsCovered (accept_parsed clock o s).0
unfolding accept_parsed
parsed-IsCovered clock none s h = h
parsed-IsCovered clock (some parsed) s h = existing-IsCovered _ parsed.ttl_ms _ _ s h

next_expiry-Covers :
    (entries : Dict NonceReplayRecord) → All (λ e. Covers (next_expiry entries) e.1) entries
unfolding next_expiry
next_expiry-Covers [] = tt
next_expiry-Covers ((k, r) ∷ entries) = (
  earliest-Covers (next_expiry entries) r,
  All-Covers (next_expiry entries) _ entries (earliest-earlier (next_expiry entries) r.expires_at)
      (next_expiry-Covers entries),
)

step-IsCovered : (e : Event) (s : GuardStore) → IsCovered s → IsCovered (step e s)
unfolding step handle_try_accept guard_alarm
step-IsCovered (request clock body) s h = parsed-IsCovered clock (parse_try_accept_body body) s h
step-IsCovered (alarm now) s h = next_expiry-Covers _

run-IsCovered_from : (es : List Event) (s : GuardStore) → IsCovered s → IsCovered (run es s)
unfolding run
run-IsCovered_from [] s h = h
run-IsCovered_from (e ∷ es) s h = run-IsCovered_from es (step e s) (step-IsCovered e s h)

-- From an empty storage, after any requests and alarms, the alarm is set whenever a record is stored,
-- for a time that is not after the expiry of any record.
pub run-IsCovered : (es : List Event) → IsCovered (run es (record { entries = []; alarm = none }))
run-IsCovered es = run-IsCovered_from es (record { entries = []; alarm = none }) tt
