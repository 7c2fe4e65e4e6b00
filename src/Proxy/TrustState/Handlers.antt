-- ===== src/Proxy/TrustState/Handlers.antt =====
-- apps/proxy/src/proxy-trust-state/handlers.ts, the pairs and the revocations: each handler takes the
-- clock, the body of the request, where `none` is no JSON, and the storage.
pub mod Pairing
pub mod Confirm
pub mod Scheduled
pub mod Tickets
pub mod Confirming
pub mod Answers
pub mod Created
pub mod Allowed
pub mod Paired
use clawdentity.Shared.{
  ℕ, ◌+◌, ◌*◌, String, Bool, true, false, not, ◌||◌, Option, none, some, ◌==◌, leb, ltb, nat_eq,
  length, ◌>>=◌, if◌then◌else◌,
}
use clawdentity.Shared.Dict.{get, set, delete}
use clawdentity.Shared.Text.{trim, is_empty}
use clawdentity.Shared.Json.{Value, member, non_empty_string, as_number}
use clawdentity.Proxy.Trust.Keys.{to_pair_key, normalize_expiry_to_whole_second}
use clawdentity.Proxy.Trust.Types.{
  Outcome, ok, failed, ProxyTrustStoreError, ticket_parse_error, PairingTicketInput,
  PairingTicketPayload, PairingTicketResult, PairingTicketConfirmResult, PairingTicketStatusResult,
  pending, confirmed, StoredTicket, ConfirmedTicket, revoked_agent_marker_ttl_ms,
}
use clawdentity.Proxy.Trust.Store.{has, add, peers_of, is_later}
use clawdentity.Proxy.Trust.Confirm.{is_past, is_for}
use clawdentity.Proxy.Trust.Tickets.{created}
use clawdentity.Proxy.TrustState.Utils.{Outside, add_peer, parse_peer_profile}
use clawdentity.Proxy.TrustState.Storage.{
  Storage, ExpirableTrustState, load_pairs, save_pairs, load_agent_peers, save_agent_peers,
  load_revoked_agents, max_safe_integer, prune_expired_revoked_agents, load_expirable_state,
  save_expirable_state_and_schedule, save_revoked_agents_and_schedule,
}

pub data Answer : Type 0 where
  ticket_created : PairingTicketResult → Answer
  ticket_confirmed : PairingTicketConfirmResult → Answer
  ticket_status : PairingTicketStatusResult → Answer
  done : Answer
  allowed : Bool → Answer
  revoked : Bool → Answer
  known : Bool → Answer

-- A JSON answer, an error with its code and status, or an error that the handler throws again.
pub data Response : Type 0 where
  json : Answer → Response
  error_response : String → ℕ → Response
  rethrown : ProxyTrustStoreError → Response

abbrev pub expired_response : Response
expired_response = error_response "PROXY_PAIR_TICKET_EXPIRED" 410

abbrev pub not_found_response : Response
not_found_response = error_response "PROXY_PAIR_TICKET_NOT_FOUND" 404

-- `body.nowMs`, or else the clock.
unfoldable pub now_of : ℕ → Option Value → ℕ
now_of clock body = elim (as_number (member body "nowMs")) [ none ↦ clock | some now ↦ now ]

-- The two agents that `upsertPair` and `isPairAllowed` are called with.
unfoldable pub read_pair : Option Value → Option (String × String)
read_pair body = do
  initiator ← non_empty_string (member body "initiatorAgentDid")
  responder ← non_empty_string (member body "responderAgentDid")
  some (initiator, responder)

unfoldable pub save_pair : String → String → Storage → Storage
save_pair initiator responder st =
    let st' = save_pairs (add (load_pairs st) (to_pair_key initiator responder)) st in
    save_agent_peers
      (add_peer (add_peer (load_agent_peers st') initiator responder) responder initiator) st'

unfoldable pub handle_upsert_pair : Option Value → Storage → Storage × Response
unfolding read_pair
handle_upsert_pair body st = elim (read_pair body) [
  | none ↦ (st, error_response "PROXY_PAIR_UPSERT_INVALID_BODY" 400)
  | some (initiator, responder) ↦ (save_pair initiator responder st, json done)
]

unfoldable pub handle_is_pair_allowed : Option Value → Storage → Storage × Response
unfolding read_pair
handle_is_pair_allowed body st = elim (read_pair body) [
  | none ↦ (st, error_response "PROXY_PAIR_CHECK_INVALID_BODY" 400)
  | some (initiator, responder) ↦ (
    st,
    json (
        allowed (
          if initiator == responder
          then true
          else has (load_pairs st) (to_pair_key initiator responder))),
  )
]

unfoldable pub handle_is_agent_known : Option Value → Storage → Storage × Response
unfolding peers_of
handle_is_agent_known body st = elim (non_empty_string (member body "agentDid")) [
  | none ↦ (st, error_response "PROXY_AGENT_KNOWN_INVALID_BODY" 400)
  | some did ↦ (st, json (known (ltb 0 (length (peers_of (get (load_agent_peers st) did))))))
]

-- A number that is undefined, or whole and positive.
unfoldable pub positive : ℕ → Option Value → Option ℕ
positive default none = some default
positive default (some v) = do n ← as_number (some v); if nat_eq n 0 then none else some n

module _ (outside : Outside) where
  unfoldable pub read_agent_did : Option Value → Option String
  read_agent_did body = do
    s ← non_empty_string (member body "agentDid")
    let did = trim s
    if outside.tickets.is_agent_did did then some did else none

  -- The agent, the time, and the end of the revocation.
  unfoldable pub read_revocation : ℕ → Option Value → Option (String × ℕ × ℕ)
  unfolding read_agent_did positive
  read_revocation clock body = do
    did ← read_agent_did body
    now ← positive clock (member body "nowMs")
    ttl ← positive revoked_agent_marker_ttl_ms (member body "ttlMs")
    if leb (now + ttl) max_safe_integer then some (did, now, now + ttl) else none

  unfoldable pub handle_mark_agent_revoked : ℕ → Option Value → Storage → Storage × Response
  unfolding read_revocation
  handle_mark_agent_revoked clock body st = elim (read_revocation clock body) [
    | none ↦ (st, error_response "PROXY_AGENT_REVOKE_INVALID_BODY" 400)
    | some (did, now, expires_at_ms) ↦
        let agents = (prune_expired_revoked_agents (load_revoked_agents st) now).0 in
        (save_revoked_agents_and_schedule outside (set agents did expires_at_ms) st, json done)
  ]

  unfoldable pub read_revoked_check : ℕ → Option Value → Option (String × ℕ)
  unfolding read_agent_did positive
  read_revoked_check clock body = do
    did ← read_agent_did body
    now ← positive clock (member body "nowMs")
    some (did, now)

  unfoldable pub handle_is_agent_revoked : ℕ → Option Value → Storage → Storage × Response
  unfolding read_revoked_check is_later
  handle_is_agent_revoked clock body st = elim (read_revoked_check clock body) [
    | none ↦ (st, error_response "PROXY_AGENT_REVOKED_CHECK_INVALID_BODY" 400)
    | some (did, now) ↦
        let (agents, pruned) = prune_expired_revoked_agents (load_revoked_agents st) now in
        (
          if pruned then save_revoked_agents_and_schedule outside agents st else st,
          json (revoked (is_later outside.tickets now (get agents did))),
        )
  ]
