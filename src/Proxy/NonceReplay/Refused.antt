-- ===== src/Proxy/NonceReplay/Refused.antt =====
-- How long the guard refuses a nonce that it has accepted.
use clawdentity.Shared.{
  ℕ, ◌+◌, ◌<◌, ◌≡◌, refl, sym, subst, String, Option, none, some, List, [], ◌∷◌, All, arith, eq_iff,
}
use clawdentity.Shared.Dict.{get, get-set, get-set_self, get-retain_of_keep}
use clawdentity.Proxy.NonceReplay.{
  NonceReplayTryAcceptRequest, NonceReplayRecord, GuardStore, accepted, replay,
  to_nonce_storage_key, parse_try_accept_body, accept_new, accept_existing, time_of, accept_parsed,
  handle_try_accept, guard_alarm,
}

pub data Event : Type 0 where
  request : (clock : ℕ) (body : NonceReplayTryAcceptRequest) → Event
  alarm : (now : ℕ) → Event

-- The time that the event goes by: a request may name its own.
abbrev pub event_time : Event → ℕ
event_time (request clock body) = time_of clock body.now_ms
event_time (alarm now) = now

unfoldable pub step : Event → GuardStore → GuardStore
step (request clock body) s = (handle_try_accept clock body s).0
step (alarm now) s = guard_alarm now s

unfoldable pub run : List Event → GuardStore → GuardStore
run [] s = s
run (e ∷ es) s = run es (step e s)

accept_new-get :
    (now ttl : ℕ) (key other : String) (r : NonceReplayRecord) (s : GuardStore)
    → now < r.expires_at
    → get s.entries other ≡ some r
    → get (accept_existing now ttl key (get s.entries key) s).0.entries other ≡ some r
unfolding accept_existing accept_new
accept_new-get now ttl key other r s early h = ground (
  arith,
  early,
  h,
  eq_iff key other,
  get-set s.entries key other (record { seen_at = now; expires_at = now + ttl }),
)

-- The store has this record of the nonce.
abbrev Holds : String → NonceReplayRecord → GuardStore → Type 0
Holds key r s = get s.entries key ≡ some r

parsed-Holds :
    (clock : ℕ) (o : Option NonceReplayTryAcceptRequest) (key : String) (r : NonceReplayRecord)
    (s : GuardStore)
    → ((parsed : NonceReplayTryAcceptRequest)
        → o ≡ some parsed
        → time_of clock parsed.now_ms < r.expires_at)
    → Holds key r s
    → Holds key r (accept_parsed clock o s).0
unfolding accept_parsed
parsed-Holds clock none key r s early h = h
parsed-Holds clock (some parsed) key r s early h =
    accept_new-get _ parsed.ttl_ms _ key r s (early parsed refl) h

parsed_time :
    (body parsed : NonceReplayTryAcceptRequest)
    → parse_try_accept_body body ≡ some parsed
    → parsed.now_ms ≡ body.now_ms
unfolding parse_try_accept_body
parsed_time body parsed e = ground (arith, e)

step-Holds :
    (e : Event) (key : String) (r : NonceReplayRecord) (s : GuardStore)
    → event_time e < r.expires_at
    → Holds key r s
    → Holds key r (step e s)
unfolding step handle_try_accept guard_alarm
step-Holds (request clock body) key r s early h =
    parsed-Holds clock (parse_try_accept_body body) key r s
      (λ parsed e.
        subst (λ o. time_of clock o < r.expires_at) (sym (parsed_time body parsed e)) early)
      h
step-Holds (alarm now) key r s early h =
    get-retain_of_keep _ s.entries key r h (ground (arith, early))

run-Holds :
    (es : List Event) (key : String) (r : NonceReplayRecord) (s : GuardStore)
    → All (λ e. event_time e < r.expires_at) es
    → Holds key r s
    → Holds key r (run es s)
unfolding run
run-Holds [] key r s early h = h
run-Holds (e ∷ es) key r s (first, early) h =
    run-Holds es key r (step e s) early (step-Holds e key r s first h)

abbrev key_of : NonceReplayTryAcceptRequest → String
key_of parsed = to_nonce_storage_key parsed.agent_did parsed.nonce

accepted-Holds :
    (clock : ℕ) (parsed : NonceReplayTryAcceptRequest) (r : NonceReplayRecord) (s : GuardStore)
    → (accept_parsed clock (some parsed) s).1 ≡ accepted r
    → Holds (key_of parsed) r (accept_parsed clock (some parsed) s).0
unfolding accept_parsed accept_existing accept_new
accepted-Holds clock parsed r s e =
    let now = time_of clock parsed.now_ms in
    ground (
      arith,
      e,
      get-set_self s.entries (key_of parsed)
          (record { seen_at = now; expires_at = now + parsed.ttl_ms }),
    )

held_refused :
    (clock : ℕ) (parsed : NonceReplayTryAcceptRequest) (r : NonceReplayRecord) (s : GuardStore)
    → Holds (key_of parsed) r s
    → time_of clock parsed.now_ms < r.expires_at
    → (accept_parsed clock (some parsed) s).1 ≡ replay r
unfolding accept_parsed accept_existing
held_refused clock parsed r s h live = ground (arith, h, live)

-- Once the guard has accepted a nonce, it refuses each later request with the same agent and nonce,
-- up to white space around them, whose time is before the accepted record's expiry, whatever requests
-- and alarms, at times before that expiry, come between; the refusal names the first request's record.
pub accepted_refused :
    (clock later : ℕ) (between : List Event)
    (body again parsed parsed' : NonceReplayTryAcceptRequest) (r : NonceReplayRecord)
    (s : GuardStore)
    → parse_try_accept_body body ≡ some parsed
    → parse_try_accept_body again ≡ some parsed'
    → parsed'.agent_did ≡ parsed.agent_did
    → parsed'.nonce ≡ parsed.nonce
    → (handle_try_accept clock body s).1 ≡ accepted r
    → All (λ e. event_time e < r.expires_at) between
    → time_of later again.now_ms < r.expires_at
    → (handle_try_accept later again (run between (handle_try_accept clock body s).0)).1 ≡ replay r
unfolding handle_try_accept
accepted_refused clock later between body again parsed parsed' r s e e' same same' ok early live =
    let same_key : key_of parsed ≡ key_of parsed' = rw (same, same') refl in
    let kept =
      run-Holds between (key_of parsed) r (accept_parsed clock (some parsed) s).0 early
        (accepted-Holds clock parsed r s (rw e at ok)) in
    rw (e, e')
      (held_refused later parsed' r (run between (accept_parsed clock (some parsed) s).0)
        (subst (λ k. Holds k r (run between (accept_parsed clock (some parsed) s).0)) same_key kept)
        (subst (λ o. time_of later o < r.expires_at) (sym (parsed_time again parsed' e')) live))
