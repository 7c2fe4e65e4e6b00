-- ===== src/Proxy/Trust/Store.antt =====
-- apps/proxy/src/proxy-trust-store.ts, `createInMemoryProxyTrustStore`: expired entries, pairs and
-- revoked agents. A handler takes the time and the state, and gives the state and its answer.
pub mod Pairs
use clawdentity.Shared.{
  ℕ, ◌+◌, ◌*◌, ◌<◌, String, Bool, true, false, not, ◌&&◌, ◌||◌, Option, none, some, List, [], ◌∷◌,
  ◌++◌, ◌==◌, any, leb, ltb, nat_eq, option_eq, if◌then◌else◌, length,
}
use clawdentity.Shared.Dict.{Dict, get, set, delete, retain}
use clawdentity.Shared.Text.{trim, is_empty}
use clawdentity.Proxy.Trust.Keys.{to_pair_key, normalize_expiry_to_whole_second}
use clawdentity.Proxy.Trust.Types.{
  TrustState, Outcome, ok, failed, revoke_invalid_body, revoked_check_invalid_body, TicketFunctions,
  StoredTicket, ConfirmedTicket, revoked_agent_marker_ttl_ms,
}

-- `has` and `add` of a `Set`.
unfoldable pub has : List String → String → Bool
has ks k = any (λ j. j == k) ks

unfoldable pub add : List String → String → List String
add ks k = if has ks k then ks else ks ++ (k ∷ [])

unfoldable pub keeps : ℕ → Option String → String → ℕ → Bool
keeps now skip kid expires_at_ms = option_eq skip (some kid) || ltb now expires_at_ms

unfoldable pub cleanup : ℕ → Option String → TrustState → TrustState
unfolding keeps
cleanup now skip s = record s {
  pairing_tickets = retain (λ kid t. keeps now skip kid t.expires_at_ms) s.pairing_tickets;
  confirmed_pairing_tickets =
      retain (λ kid t. keeps now skip kid t.expires_at_ms) s.confirmed_pairing_tickets;
  revoked_agents = retain (λ did expires_at_ms. ltb now expires_at_ms) s.revoked_agents;
}

unfoldable pub peers_of : Option (List String) → List String
peers_of none = []
peers_of (some peers) = peers

unfoldable pub upsert_peer : String → String → Dict (List String) → Dict (List String)
unfolding peers_of
upsert_peer left right peers = set peers left (add (peers_of (get peers left)) right)

-- The pair key and the two peers, as `confirmPairingTicket` and `upsertPair` add them.
unfoldable pub upsert_pair : String → String → TrustState → TrustState
upsert_pair initiator responder s = record s {
  pair_keys = add s.pair_keys (to_pair_key initiator responder);
  agent_peers = upsert_peer responder initiator (upsert_peer initiator responder s.agent_peers);
}

unfoldable pub is_pair_allowed : String → String → TrustState → Bool
is_pair_allowed initiator responder s =
    if initiator == responder then true else has s.pair_keys (to_pair_key initiator responder)

unfoldable pub is_agent_known : String → TrustState → Bool
unfolding peers_of
is_agent_known did s = ltb 0 (length (peers_of (get s.agent_peers did)))

module _ (fns : TicketFunctions) where
  unfoldable pub mark_agent_revoked : ℕ → String → TrustState → TrustState × Outcome {0} Unit
  mark_agent_revoked now did s =
      if fns.is_agent_did did
      then (let s' = cleanup now none s in
          (
            record s' {
              revoked_agents = set s'.revoked_agents did (now + revoked_agent_marker_ttl_ms);
            },
            ok tt,
          ))
      else (s, failed revoke_invalid_body)

  unfoldable pub is_later : ℕ → Option ℕ → Bool
  is_later now none = false
  is_later now (some expires_at_ms) = ltb now expires_at_ms

  unfoldable pub is_agent_revoked : ℕ → String → TrustState → TrustState × Outcome Bool
  unfolding is_later
  is_agent_revoked now did s =
      if fns.is_agent_did did
      then (let s' = cleanup now none s in (s', ok (is_later now (get s'.revoked_agents did))))
      else (s, failed revoked_check_invalid_body)
