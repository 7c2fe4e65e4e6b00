-- ===== src/Sdk/NonceCache/Tests.antt =====
-- Runs of the nonce cache.
use clawdentity.Shared.{◌≡◌, refl, none, some, List, [], ◌∷◌, arith}
use clawdentity.Sdk.NonceCache.{
  NonceCacheInput, NonceRecord, accepted, replay, invalid_input, resolve_ttl_ms,
  default_nonce_ttl_ms, try_accept_nonce,
}
use clawdentity.Sdk.NonceCache.{
  accept_checked, ensure_nonce_cache_input, accept_in, accept_in_map, purge_expired_at,
  answer_existing, prune_expired_from_agent,
}
use clawdentity.Shared.Text.{trim}
use clawdentity.Shared.Dict.{get, set, retain}
use clawdentity.Sdk.NonceCache.Spec.{Call, try_accept, purge, run, answers, run-answers}
use clawdentity.Sdk.NonceCache.Replay.{replay_refused}

abbrev first : NonceCacheInput
first = record { agent_did = "did:a"; nonce = "n1" }

abbrev second : NonceCacheInput
second = record { agent_did = "did:b"; nonce = "n1" }

abbrev calls : List Call
calls =
    try_accept 10 first
    ∷ try_accept 12 second
    ∷ try_accept 14 first
    ∷ purge 20
    ∷ try_accept 20 first
    ∷ try_accept 21 (record { agent_did = " "; nonce = "n1" })
    ∷ []

calls_answered :
    (run 10 [] calls).1
    ≡ accepted (record { seen_at = 10; expires_at = 20 })
      ∷ accepted (record { seen_at = 12; expires_at = 22 })
      ∷ replay (record { seen_at = 10; expires_at = 20 })
      ∷ accepted (record { seen_at = 20; expires_at = 30 })
      ∷ invalid_input "agentDid"
      ∷ []
unfolding run try_accept_nonce accept_checked ensure_nonce_cache_input trim accept_in accept_in_map
    get purge_expired_at answer_existing set prune_expired_from_agent retain
calls_answered = refl

default_ttl : resolve_ttl_ms none ≡ some default_nonce_ttl_ms
unfolding resolve_ttl_ms
default_ttl = refl

run-answers_example : (run 10 [] calls).1 ≡ answers 10 (λ agent nonce. none) calls
run-answers_example =
    run-answers 10 0 calls
      (omega arith, (omega arith, (omega arith, (omega arith, (omega arith, (omega arith, tt))))))

abbrev record_30 : NonceRecord
record_30 = record { seen_at = 30; expires_at = 40 }

replay_refused_example :
    (try_accept_nonce 10 39
      (run 10 (try_accept_nonce 10 30 (run 10 [] calls).0 second).0 (purge 35 ∷ [])).0
      second).1
    ≡ replay record_30
unfolding run try_accept_nonce accept_checked ensure_nonce_cache_input trim accept_in accept_in_map
    get purge_expired_at answer_existing set prune_expired_from_agent retain
replay_refused_example =
    replay_refused 10 30 39 calls (purge 35 ∷ []) second record_30 refl (omega arith, tt)
      (omega arith)
