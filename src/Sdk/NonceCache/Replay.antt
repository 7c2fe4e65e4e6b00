-- ===== src/Sdk/NonceCache/Replay.antt =====
-- How long the nonce cache refuses a nonce that it has accepted.
use clawdentity.Shared.{
  ℕ, ◌<◌, ◌≡◌, ◌∙◌, ap, refl, String, Option, none, some, List, [], ◌∷◌, All, arith, eq_iff,
  eq_refl,
}
use clawdentity.Shared.Dict.{keep_if}
use clawdentity.Sdk.NonceCache.{
  NonceCache, NonceCacheInput, NonceRecord, accepted, replay, is_live, purge_expired_at, accept_in,
  accept_checked, try_accept_nonce, ensure_nonce_cache_input,
}
use clawdentity.Sdk.NonceCache.Seen.{
  seen, IsSound, seen-purge, purge-IsSound, accept_in-none, accept_in-accepted, accept_in-replay,
  accept_in-IsSound,
}
use clawdentity.Sdk.NonceCache.Spec.{Call, try_accept, purge, time, run}

-- The cache holds this record of the nonce.
abbrev Holds : NonceCache → NonceCacheInput → NonceRecord → Type 0
Holds c input r = IsSound c × (seen c input.agent_did input.nonce ≡ some r)

purge-Holds :
    (c : NonceCache) (now : ℕ) (input : NonceCacheInput) (r : NonceRecord)
    → now < r.expires_at
    → Holds c input r
    → Holds (purge_expired_at c now) input r
purge-Holds c now input r live (s, h) = (
  purge-IsSound c now s,
  seen-purge c now input.agent_did input.nonce s
      ∙ ap (keep_if (is_live now)) h
      ∙ ground (arith, live),
)

accept-Holds :
    (ttl now : ℕ) (c : NonceCache) (other input : NonceCacheInput) (r : NonceRecord)
    (o : Option NonceRecord)
    → seen c other.agent_did other.nonce ≡ o
    → Holds c input r
    → Holds (accept_in ttl now c other).0 input r
accept-Holds ttl now c other input r none e (s, h) = (
  accept_in-IsSound ttl now c other s,
  accept_in-none ttl now c other input.agent_did input.nonce e
      ∙ ground (arith, eq_iff other.agent_did input.agent_did, eq_iff other.nonce input.nonce),
)
accept-Holds ttl now c other input r (some r') e holds =
    rw (accept_in-replay ttl now c other r' e) holds

try-Holds :
    (ttl now : ℕ) (c : NonceCache) (other input : NonceCacheInput) (r : NonceRecord)
    → now < r.expires_at
    → Holds c input r
    → Holds (try_accept_nonce ttl now c other).0 input r
unfolding try_accept_nonce accept_checked
try-Holds ttl now c other input r live holds =
    elim (ensure_nonce_cache_input other)
      as (λ o. Holds (accept_checked ttl now c other o).0 input r) [
        | some field ↦ holds
        | none ↦
            accept-Holds ttl now (purge_expired_at c now) other input r _ refl
              (purge-Holds c now input r live holds)
      ]

run-Holds :
    (ttl : ℕ) (c : NonceCache) (calls : List Call) (input : NonceCacheInput) (r : NonceRecord)
    → All (λ call. time call < r.expires_at) calls
    → Holds c input r
    → Holds (run ttl c calls).0 input r
unfolding run
run-Holds ttl c [] input r early holds = holds
run-Holds ttl c (purge now ∷ calls) input r (live, early) holds =
    run-Holds ttl (purge_expired_at c now) calls input r early
      (purge-Holds c now input r live holds)
run-Holds ttl c (try_accept now other ∷ calls) input r (live, early) holds =
    run-Holds ttl _ calls input r early (try-Holds ttl now c other input r live holds)

try-IsSound :
    (ttl now : ℕ) (c : NonceCache) (input : NonceCacheInput)
    → IsSound c
    → IsSound (try_accept_nonce ttl now c input).0
unfolding try_accept_nonce accept_checked
try-IsSound ttl now c input s =
    elim (ensure_nonce_cache_input input) as (λ o. IsSound (accept_checked ttl now c input o).0) [
      | some field ↦ s
      | none ↦ accept_in-IsSound ttl now (purge_expired_at c now) input (purge-IsSound c now s)
    ]

run-IsSound :
    (ttl : ℕ) (calls : List Call) (c : NonceCache) → IsSound c → IsSound (run ttl c calls).0
unfolding run
run-IsSound ttl [] c s = s
run-IsSound ttl (purge now ∷ calls) c s = run-IsSound ttl calls _ (purge-IsSound c now s)
run-IsSound ttl (try_accept now other ∷ calls) c s =
    run-IsSound ttl calls _ (try-IsSound ttl now c other s)

accept_in-Holds :
    (ttl now : ℕ) (c : NonceCache) (input : NonceCacheInput) (r : NonceRecord)
    (o : Option NonceRecord)
    → seen c input.agent_did input.nonce ≡ o
    → IsSound c
    → (accept_in ttl now c input).1 ≡ accepted r
    → Holds (accept_in ttl now c input).0 input r
accept_in-Holds ttl now c input r none found s e = (
  accept_in-IsSound ttl now c input s,
  accept_in-none ttl now c input input.agent_did input.nonce found
      ∙ ground (
        arith,
        eq_refl input.agent_did,
        eq_refl input.nonce,
        accept_in-accepted ttl now c input found,
      ),
)
accept_in-Holds ttl now c input r (some r') found s e =
    cc (e, accept_in-replay ttl now c input r' found)

-- What an accepted call shows of its input and of the cache after it.
accepted-Holds :
    (ttl now : ℕ) (c : NonceCache) (input : NonceCacheInput) (r : NonceRecord)
    → IsSound c
    → (try_accept_nonce ttl now c input).1 ≡ accepted r
    → Holds (try_accept_nonce ttl now c input).0 input r × (ensure_nonce_cache_input input ≡ none)
unfolding try_accept_nonce accept_checked
accepted-Holds ttl now c input r s e = at_input (ensure_nonce_cache_input input) e
  where
    at_input :
        (o : Option String)
        → (accept_checked ttl now c input o).1 ≡ accepted r
        → Holds (accept_checked ttl now c input o).0 input r × (o ≡ none)
    at_input (some field) e = cc
    at_input none e = (
      accept_in-Holds ttl now (purge_expired_at c now) input r _ refl (purge-IsSound c now s) e,
      refl,
    )

held_refused :
    (ttl now : ℕ) (c : NonceCache) (input : NonceCacheInput) (r : NonceRecord)
    → Holds c input r
    → now < r.expires_at
    → ensure_nonce_cache_input input ≡ none
    → (try_accept_nonce ttl now c input).1 ≡ replay r
unfolding try_accept_nonce accept_checked
held_refused ttl now c input r holds live valid =
    ap (λ o. (accept_checked ttl now c input o).1) valid
    ∙ ap (λ p. p.1)
        (accept_in-replay ttl now (purge_expired_at c now) input r
          (purge-Holds c now input r live holds).1)

-- Once a cache with any history has accepted a nonce, it refuses the same nonce of the same agent
-- at each later call before the accepted record's expiry, whatever calls, at times before that
-- expiry, come between; the refusal names the record of the first call.
pub replay_refused :
    (ttl now later : ℕ) (history between : List Call) (input : NonceCacheInput) (r : NonceRecord)
    → (try_accept_nonce ttl now (run ttl [] history).0 input).1 ≡ accepted r
    → All (λ call. time call < r.expires_at) between
    → later < r.expires_at
    → (try_accept_nonce ttl later
        (run ttl (try_accept_nonce ttl now (run ttl [] history).0 input).0 between).0
        input).1
      ≡ replay r
replay_refused ttl now later history between input r e early live =
    let (holds, valid) = accepted-Holds ttl now _ input r (run-IsSound ttl history [] (tt, tt)) e in
    held_refused ttl later _ input r (run-Holds ttl _ between input r early holds) live valid
