-- ===== src/Sdk/NonceCache.antt =====
-- packages/sdk/src/security/nonce-cache.ts: the cache in memory that refuses a request whose nonce
-- the same agent has used before. Each call takes the time that `clock` returns.
pub mod Seen
pub mod Spec
pub mod Replay
pub mod Tests
use clawdentity.Shared.{
  ℕ, ◌+◌, ◌*◌, String, Bool, true, false, Option, none, some, List, [], ◌∷◌, leb, nat_eq,
  if◌then◌else◌,
}
use clawdentity.Shared.Dict.{Dict, get, set, retain}
use clawdentity.Shared.Text.{trim, is_empty}

abbrev pub default_nonce_ttl_ms : ℕ
default_nonce_ttl_ms = 5 * 60 * 1000

pub record NonceCacheInput : Type 0 where
  pub agent_did : String
  pub nonce : String

pub record NonceRecord : Type 0 where
  pub seen_at : ℕ
  pub expires_at : ℕ

-- `NonceCacheResult`, and the thrown NONCE_CACHE_INVALID_INPUT with its field.
pub data NonceCacheResult : Type 0 where
  accepted : NonceRecord → NonceCacheResult
  replay : NonceRecord → NonceCacheResult
  invalid_input : String → NonceCacheResult

-- `seenByAgent`
abbrev pub NonceCache : Type 0
NonceCache = Dict (Dict NonceRecord)

is_blank : String → Bool
is_blank s = is_empty (trim s)

-- The field of the first empty text; values of other types are not modelled.
unfoldable pub ensure_nonce_cache_input : NonceCacheInput → Option String
unfolding is_blank
ensure_nonce_cache_input input =
    if is_blank input.agent_did
    then some "agentDid"
    else if is_blank input.nonce
    then some "nonce"
    else none

-- `none` is the thrown NONCE_CACHE_INVALID_TTL.
unfoldable pub resolve_ttl_ms : Option ℕ → Option ℕ
resolve_ttl_ms none = some default_nonce_ttl_ms
resolve_ttl_ms (some ttl) = if nat_eq ttl 0 then none else some ttl

abbrev pub is_live : ℕ → NonceRecord → Bool
is_live now r = if leb r.expires_at now then false else true

unfoldable pub prune_expired_from_agent : Dict NonceRecord → ℕ → Dict NonceRecord
prune_expired_from_agent m now = retain (λ nonce r. is_live now r) m

-- An agent without nonces is deleted.
keep_agent : String → Dict NonceRecord → NonceCache → NonceCache
keep_agent agent [] c = c
keep_agent agent (e ∷ m) c = (agent, e ∷ m) ∷ c

unfoldable pub purge_expired_at : NonceCache → ℕ → NonceCache
unfolding keep_agent
purge_expired_at [] now = []
purge_expired_at ((agent, m) ∷ c) now =
    keep_agent agent (prune_expired_from_agent m now) (purge_expired_at c now)

-- The end of `tryAcceptNonce`, from `existing` on. A change of `agentMap` is one of the map that is
-- stored for the agent.
unfoldable pub answer_existing :
    ℕ
    → ℕ
    → NonceCacheInput
    → NonceCache
    → Dict NonceRecord
    → Option NonceRecord
    → NonceCache × NonceCacheResult
answer_existing ttl now input c m (some existing) = (c, replay existing)
answer_existing ttl now input c m none =
    let r : NonceRecord = record { seen_at = now; expires_at = now + ttl } in
    (set c input.agent_did (set m input.nonce r), accepted r)

-- From `agentMap` on: an agent without a map gets a new one, which is stored.
unfoldable pub accept_in_map :
    ℕ → ℕ → NonceCacheInput → NonceCache → Option (Dict NonceRecord) → NonceCache × NonceCacheResult
accept_in_map ttl now input c none =
    answer_existing ttl now input (set c input.agent_did []) [] none
accept_in_map ttl now input c (some m) = answer_existing ttl now input c m (get m input.nonce)

-- `tryAcceptNonce` after the purge.
unfoldable pub accept_in : ℕ → ℕ → NonceCache → NonceCacheInput → NonceCache × NonceCacheResult
accept_in ttl now c input = accept_in_map ttl now input c (get c input.agent_did)

unfoldable pub accept_checked :
    ℕ → ℕ → NonceCache → NonceCacheInput → Option String → NonceCache × NonceCacheResult
accept_checked ttl now c input (some field) = (c, invalid_input field)
accept_checked ttl now c input none = accept_in ttl now (purge_expired_at c now) input

unfoldable pub try_accept_nonce :
    ℕ → ℕ → NonceCache → NonceCacheInput → NonceCache × NonceCacheResult
try_accept_nonce ttl now c input = accept_checked ttl now c input (ensure_nonce_cache_input input)
