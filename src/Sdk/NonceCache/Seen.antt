-- ===== src/Sdk/NonceCache/Seen.antt =====
-- What the nonce cache knows of one nonce of one agent, through a purge and through a call.
use clawdentity.Shared.{
  ℕ, ◌+◌, ◌≡◌, refl, String, false, Option, none, some, [], ◌∷◌, All, ◌==◌, if◌then◌else◌, arith,
  eq_iff, eq_refl, Option-cases, ◌&&◌, Bool-cases, ◌∙◌, inl, inr,
}
use clawdentity.Shared.Dict.{
  Dict, get, set, IsDistinct, keep_if, get-retain, retain-IsDistinct, get-set, set-IsDistinct,
  All-set, All-get,
}
use clawdentity.Sdk.NonceCache.{
  NonceCache, NonceCacheInput, NonceRecord, accepted, replay, is_live, prune_expired_from_agent,
  keep_agent, purge_expired_at, answer_existing, accept_in_map, accept_in,
}

abbrev pub seen_in : Option (Dict NonceRecord) → String → Option NonceRecord
seen_in none nonce = none
seen_in (some m) nonce = get m nonce

abbrev pub seen : NonceCache → String → String → Option NonceRecord
seen c agent nonce = seen_in (get c agent) nonce

-- Each agent stands once, and so does each of its nonces.
abbrev pub IsSound : NonceCache → Type 0
IsSound c = IsDistinct c × All (λ e. IsDistinct e.1) c

keep_agent-none :
    (c : NonceCache) (i agent : String) (m : Dict NonceRecord)
    → (i == agent) ≡ false
    → get (keep_agent i m c) agent ≡ get c agent
unfolding keep_agent get
keep_agent-none c i agent [] h = refl
keep_agent-none c i agent (e ∷ m) h = rw h refl

get-purge-none :
    (c : NonceCache) (now : ℕ) (agent : String)
    → get c agent ≡ none
    → get (purge_expired_at c now) agent ≡ none
unfolding purge_expired_at get
get-purge-none [] now agent h = refl
get-purge-none ((i, m) ∷ c) now agent h = ground (
  arith,
  keep_agent-none (purge_expired_at c now) i agent (prune_expired_from_agent m now),
  get-purge-none c now agent,
)

keep_agent-seen :
    (c : NonceCache) (i nonce : String) (m : Dict NonceRecord)
    → get c i ≡ none
    → seen (keep_agent i m c) i nonce ≡ get m nonce
unfolding keep_agent get
keep_agent-seen c i nonce [] h = rw h refl
keep_agent-seen c i nonce (e ∷ m) h = rw (eq_refl i) refl

pub seen-purge :
    (c : NonceCache) (now : ℕ) (agent nonce : String)
    → IsSound c
    → seen (purge_expired_at c now) agent nonce ≡ keep_if (is_live now) (seen c agent nonce)
unfolding purge_expired_at get prune_expired_from_agent
seen-purge [] now agent nonce h = refl
seen-purge ((i, m) ∷ c) now agent nonce ((fresh, d), (q, h)) = elim (Bool-cases (i == agent)) [
  | inl same ↦
      rw (← (eq_iff i agent).0 same, eq_refl i)
        (keep_agent-seen (purge_expired_at c now) i nonce (prune_expired_from_agent m now)
            (get-purge-none c now i fresh)
          ∙ get-retain (λ n r. is_live now r) m nonce q)
  | inr other ↦
      rw
        (
          keep_agent-none (purge_expired_at c now) i agent (prune_expired_from_agent m now) other,
          other,
        )
        (seen-purge c now agent nonce (d, h))
]

keep_agent-IsSound :
    (i : String) (m : Dict NonceRecord) (c : NonceCache)
    → get c i ≡ none
    → IsDistinct m
    → IsSound c
    → IsSound (keep_agent i m c)
unfolding keep_agent
keep_agent-IsSound i [] c fresh q h = h
keep_agent-IsSound i (e ∷ m) c fresh q (d, h) = ((fresh, d), (q, h))

pub purge-IsSound : (c : NonceCache) (now : ℕ) → IsSound c → IsSound (purge_expired_at c now)
unfolding purge_expired_at prune_expired_from_agent
purge-IsSound [] now h = (tt, tt)
purge-IsSound ((i, m) ∷ c) now ((fresh, d), (q, h)) =
    keep_agent-IsSound i (prune_expired_from_agent m now) (purge_expired_at c now)
      (get-purge-none c now i fresh) (retain-IsDistinct (λ n r. is_live now r) m q)
      (purge-IsSound c now (d, h))

answer_existing-IsSound :
    (ttl now : ℕ) (input : NonceCacheInput) (c : NonceCache) (m : Dict NonceRecord)
    (o : Option NonceRecord)
    → IsSound c
    → IsDistinct m
    → IsSound (answer_existing ttl now input c m o).0
unfolding answer_existing
answer_existing-IsSound ttl now input c m (some existing) h q = h
answer_existing-IsSound ttl now input c m none (d, h) q = (
  set-IsDistinct c input.agent_did _ d,
  All-set (λ e. IsDistinct e.1) c input.agent_did _ h (set-IsDistinct m input.nonce _ q),
)

module _ (ttl now : ℕ) (c : NonceCache) (input : NonceCacheInput) where
  -- The record of each nonce after a call that finds none.
  pub accept_in-none :
      (agent nonce : String)
      → seen c input.agent_did input.nonce ≡ none
      → seen (accept_in ttl now c input).0 agent nonce ≡ (
          if (input.agent_did == agent) && (input.nonce == nonce)
          then some (record { seen_at = now; expires_at = now + ttl })
          else seen c agent nonce)
  unfolding accept_in accept_in_map answer_existing get set
  accept_in-none agent nonce h =
      let r : NonceRecord = record { seen_at = now; expires_at = now + ttl } in
      elim (Option-cases (get c input.agent_did)) [
        | inl none_yet ↦ ground (
          arith,
          eq_iff input.agent_did agent,
          eq_iff input.nonce nonce,
          get-set (set c input.agent_did []) input.agent_did agent (set [] input.nonce r),
          get-set c input.agent_did agent [],
        )
        | inr (m, found) ↦ ground (
          arith,
          eq_iff input.agent_did agent,
          eq_iff input.nonce nonce,
          get-set c input.agent_did agent (set m input.nonce r),
          get-set m input.nonce nonce r,
        )
      ]

  pub accept_in-accepted :
      seen c input.agent_did input.nonce ≡ none
      → (accept_in ttl now c input).1 ≡ accepted (record { seen_at = now; expires_at = now + ttl })
  unfolding accept_in accept_in_map answer_existing get
  accept_in-accepted h = ground arith

  pub accept_in-replay :
      (r : NonceRecord)
      → seen c input.agent_did input.nonce ≡ some r
      → accept_in ttl now c input ≡ (c, replay r)
  unfolding accept_in accept_in_map answer_existing
  accept_in-replay r h = ground arith

  pub accept_in-IsSound : IsSound c → IsSound (accept_in ttl now c input).0
  unfolding accept_in accept_in_map answer_existing
  accept_in-IsSound (d, h) = at_map (get c input.agent_did) refl
    where
      at_map :
          (o : Option (Dict NonceRecord))
          → get c input.agent_did ≡ o
          → IsSound (accept_in_map ttl now input c o).0
      at_map none e =
          answer_existing-IsSound ttl now input (set c input.agent_did []) [] none
            (
              set-IsDistinct c input.agent_did [] d,
              All-set (λ e. IsDistinct e.1) c input.agent_did [] h tt,
            )
            tt
      at_map (some m) e =
          answer_existing-IsSound ttl now input c m (get m input.nonce) (d, h)
            (All-get (λ e. IsDistinct e.1) c input.agent_did m h e)
