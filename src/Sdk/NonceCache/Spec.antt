-- ===== src/Sdk/NonceCache/Spec.antt =====
-- What the nonce cache promises: it answers as a memory that never forgets a nonce would.
use clawdentity.Shared.{
  ℕ, ◌+◌, ◌≤◌, ◌≡◌, ◌∙◌, ap, refl, String, Bool, true, false, Option, none, some, List, [], ◌∷◌,
  ◌==◌, ◌&&◌, if◌then◌else◌, arith,
}
use mathlib.Core.Path.{ap₂}
use clawdentity.Shared.Dict.{keep_if, get}
use clawdentity.Sdk.NonceCache.{
  NonceCache, NonceCacheInput, NonceRecord, NonceCacheResult, accepted, replay, invalid_input,
  is_live, purge_expired_at, accept_in, accept_checked, try_accept_nonce, ensure_nonce_cache_input,
}
use clawdentity.Sdk.NonceCache.Seen.{
  seen, IsSound, seen-purge, purge-IsSound, accept_in-none, accept_in-accepted, accept_in-replay,
  accept_in-IsSound,
}

-- `tryAcceptNonce` and `purgeExpired`, with the time of the clock.
pub data Call : Type 0 where
  try_accept : ℕ → NonceCacheInput → Call
  purge : ℕ → Call

abbrev pub time : Call → ℕ
time (try_accept now input) = now
time (purge now) = now

-- The cache and the answers after a sequence of calls.
unfoldable pub run : ℕ → NonceCache → List Call → NonceCache × List NonceCacheResult
run ttl c [] = (c, [])
run ttl c (purge now ∷ calls) = run ttl (purge_expired_at c now) calls
run ttl c (try_accept now input ∷ calls) =
    let (c', result) = try_accept_nonce ttl now c input in
    let (c'', results) = run ttl c' calls in (c'', result ∷ results)

-- The last record of each nonce of each agent.
abbrev pub Memory : Type 0
Memory = String → String → Option NonceRecord

abbrev pub remember : Memory → NonceCacheInput → NonceRecord → Memory
remember f input r agent nonce =
    if (input.agent_did == agent) && (input.nonce == nonce) then some r else f agent nonce

abbrev pub decide_known :
    ℕ → ℕ → Memory → NonceCacheInput → Option NonceRecord → Memory × NonceCacheResult
decide_known ttl now f input (some r) = (f, replay r)
decide_known ttl now f input none =
    let r : NonceRecord = record { seen_at = now; expires_at = now + ttl } in
    (remember f input r, accepted r)

abbrev pub decide_checked :
    ℕ → ℕ → Memory → NonceCacheInput → Option String → Memory × NonceCacheResult
decide_checked ttl now f input (some field) = (f, invalid_input field)
decide_checked ttl now f input none =
    decide_known ttl now f input (keep_if (is_live now) (f input.agent_did input.nonce))

abbrev pub decide : ℕ → ℕ → Memory → NonceCacheInput → Memory × NonceCacheResult
decide ttl now f input = decide_checked ttl now f input (ensure_nonce_cache_input input)

-- The answers of the memory to the same calls.
unfoldable pub answers : ℕ → Memory → List Call → List NonceCacheResult
answers ttl f [] = []
answers ttl f (purge now ∷ calls) = answers ttl f calls
answers ttl f (try_accept now input ∷ calls) =
    let (f', result) = decide ttl now f input in result ∷ answers ttl f' calls

-- The calls come in the order of their times, from `start` on.
abbrev pub IsOrdered : ℕ → List Call → Type 0
IsOrdered start [] = Unit
IsOrdered start (call ∷ calls) = (start ≤ time call) × IsOrdered (time call) calls

-- From `start` on the cache and the memory agree on every record that is live.
abbrev Agrees : ℕ → NonceCache → Memory → Type 0
Agrees start c f =
    (now : ℕ) (agent nonce : String)
    → start ≤ now
    → keep_if (is_live now) (seen c agent nonce) ≡ keep_if (is_live now) (f agent nonce)

keep_if_later :
    (now later : ℕ) (o : Option NonceRecord)
    → now ≤ later
    → keep_if (is_live later) (keep_if (is_live now) o) ≡ keep_if (is_live later) o
keep_if_later now later none h = refl
keep_if_later now later (some r) h = ground arith

purge-Agrees :
    (start now : ℕ) (c : NonceCache) (f : Memory)
    → IsSound c
    → start ≤ now
    → Agrees start c f
    → Agrees now (purge_expired_at c now) f
purge-Agrees start now c f s h agrees later agent nonce later_h =
    ap (keep_if (is_live later)) (seen-purge c now agent nonce s)
    ∙ keep_if_later now later (seen c agent nonce) later_h
    ∙ agrees later agent nonce (omega (arith, h, later_h))

keep_if_branch :
    (keep : NonceRecord → Bool) (b : Bool) (o x y : Option NonceRecord)
    → keep_if keep x ≡ keep_if keep y
    → keep_if keep (if b then o else x) ≡ keep_if keep (if b then o else y)
keep_if_branch keep true o x y h = refl
keep_if_branch keep false o x y h = h

accept-Agrees :
    (ttl now : ℕ) (c : NonceCache) (f : Memory) (input : NonceCacheInput)
    → Agrees now c f
    → seen c input.agent_did input.nonce ≡ none
    → Agrees now
        (accept_in ttl now c input).0
        (remember f input (record { seen_at = now; expires_at = now + ttl }))
accept-Agrees ttl now c f input agrees h later agent nonce later_h =
    ap (keep_if (is_live later)) (accept_in-none ttl now c input agent nonce h)
    ∙ keep_if_branch (is_live later) ((input.agent_did == agent) && (input.nonce == nonce)) _ _ _
        (agrees later agent nonce later_h)

-- A cache without doubled entries that agrees with the memory.
abbrev Follows : ℕ → NonceCache → Memory → Type 0
Follows start c f = IsSound c × Agrees start c f

purged_known :
    (now : ℕ) (c : NonceCache) (f : Memory) (agent nonce : String)
    → Follows now c f
    → seen (purge_expired_at c now) agent nonce ≡ keep_if (is_live now) (f agent nonce)
purged_known now c f agent nonce (s, agrees) =
    seen-purge c now agent nonce s ∙ agrees now agent nonce (omega arith)

purge-Follows :
    (start now : ℕ) (c : NonceCache) (f : Memory)
    → start ≤ now
    → Follows start c f
    → Follows now (purge_expired_at c now) f
purge-Follows start now c f h (s, agrees) =
    (purge-IsSound c now s, purge-Agrees start now c f s h agrees)

later-Follows :
    (start now : ℕ) (c : NonceCache) (f : Memory)
    → start ≤ now
    → Follows start c f
    → Follows now c f
later-Follows start now c f h (s, agrees) =
    (s, λ later agent nonce later_h. agrees later agent nonce (omega (arith, h, later_h)))

accept-Follows :
    (ttl now : ℕ) (c : NonceCache) (f : Memory) (input : NonceCacheInput) (o : Option NonceRecord)
    → Follows now c f
    → seen c input.agent_did input.nonce ≡ o
    → Follows now (accept_in ttl now c input).0 (decide_known ttl now f input o).0
      × ((accept_in ttl now c input).1 ≡ (decide_known ttl now f input o).1)
accept-Follows ttl now c f input none (s, agrees) h = (
  (accept_in-IsSound ttl now c input s, accept-Agrees ttl now c f input agrees h),
  accept_in-accepted ttl now c input h,
)
accept-Follows ttl now c f input (some r) follows h = (
  rw (accept_in-replay ttl now c input r h) follows,
  ap (λ p. p.1) (accept_in-replay ttl now c input r h),
)

try-Follows :
    (ttl start now : ℕ) (c : NonceCache) (f : Memory) (input : NonceCacheInput)
    → start ≤ now
    → Follows start c f
    → Follows now (try_accept_nonce ttl now c input).0 (decide ttl now f input).0
      × ((try_accept_nonce ttl now c input).1 ≡ (decide ttl now f input).1)
unfolding try_accept_nonce accept_checked
try-Follows ttl start now c f input h follows = at_input (ensure_nonce_cache_input input)
  where
    at_input :
        (o : Option String)
        → Follows now (accept_checked ttl now c input o).0 (decide_checked ttl now f input o).0
          × ((accept_checked ttl now c input o).1 ≡ (decide_checked ttl now f input o).1)
    at_input (some field) = (later-Follows start now c f h follows, refl)
    at_input none =
        accept-Follows ttl now (purge_expired_at c now) f input _
          (purge-Follows start now c f h follows)
          (purged_known now c f input.agent_did input.nonce (later-Follows start now c f h follows))

run_from :
    (ttl start : ℕ) (c : NonceCache) (f : Memory) (calls : List Call)
    → Follows start c f
    → IsOrdered start calls
    → (run ttl c calls).1 ≡ answers ttl f calls
unfolding run answers
run_from ttl start c f [] follows ordered = refl
run_from ttl start c f (purge now ∷ calls) follows (h, ordered) =
    run_from ttl now (purge_expired_at c now) f calls (purge-Follows start now c f h follows)
      ordered
run_from ttl start c f (try_accept now input ∷ calls) follows (h, ordered) =
    let (follows', same) = try-Follows ttl start now c f input h follows in
    ap₂ ◌∷◌ same (run_from ttl now _ _ calls follows' ordered)

-- Calls in the order of their times get from an empty cache the answers that a memory gives which
-- never forgets: purging loses no nonce that is still refused.
pub run-answers :
    (ttl start : ℕ) (calls : List Call)
    → IsOrdered start calls
    → (run ttl [] calls).1 ≡ answers ttl (λ agent nonce. none) calls
unfolding get
run-answers ttl start calls ordered =
    run_from ttl start [] (λ agent nonce. none) calls ((tt, tt), λ now agent nonce h. refl) ordered
