-- ===== src/Proxy/TrustState/Storage/Entries.antt =====
-- apps/proxy/src/proxy-trust-state/storage.ts: one stored entry, as a value and as a ticket.
use clawdentity.Shared.{String, Option, none, some, List, [], ◌∷◌, ◌>>=◌}
use clawdentity.Shared.Json.{
  Value, object, text, number, fields, member, non_empty_string, as_number,
}
use clawdentity.Proxy.Trust.Types.{Outcome, ok, failed, StoredTicket, ConfirmedTicket, PeerProfile}
use clawdentity.Proxy.TrustState.Utils.{Outside, parse_peer_profile}

-- A property of an object that is undefined is left out.
unfoldable pub optional_field : String → Option String → List (String × Value)
optional_field k none = []
optional_field k (some s) = (k, text s) ∷ []

unfoldable pub peer_profile_value : PeerProfile → Value
unfolding optional_field
peer_profile_value p = object (
    fields (
      ("agentName", text p.agent_name)
      ∷ (("humanName", text p.human_name) ∷ optional_field "proxyOrigin" p.proxy_origin)))

unfoldable pub pairing_ticket_value : StoredTicket → Value
unfolding peer_profile_value optional_field
pairing_ticket_value t = object (
    fields (
      ("ticket", text t.ticket)
      ∷ ("initiatorAgentDid", text t.initiator_agent_did)
      ∷ ("initiatorProfile", peer_profile_value t.initiator_profile)
      ∷ ("issuerProxyUrl", text t.issuer_proxy_url)
      ∷ ("expiresAtMs", number t.expires_at_ms)
      ∷ (("publicKeyX", text t.public_key_x)
          ∷ optional_field "allowResponderAgentDid" t.allow_responder_agent_did)))

unfoldable pub confirmed_ticket_value : ConfirmedTicket → Value
unfolding peer_profile_value
confirmed_ticket_value t = object (
    fields (
      ("ticket", text t.ticket)
      ∷ ("expiresAtMs", number t.expires_at_ms)
      ∷ ("initiatorAgentDid", text t.pair.initiator_agent_did)
      ∷ ("initiatorProfile", peer_profile_value t.pair.initiator_profile)
      ∷ ("responderAgentDid", text t.pair.responder_agent_did)
      ∷ ("responderProfile", peer_profile_value t.pair.responder_profile)
      ∷ ("issuerProxyUrl", text t.pair.issuer_proxy_url)
      ∷ ("confirmedAtMs", number t.confirmed_at_ms)
      ∷ []))

-- The ticket of the entry, or else its key.
unfoldable pub ticket_candidate : Option String → String → String
ticket_candidate none entry_key = entry_key
ticket_candidate (some ticket) entry_key = ticket

unfoldable pub parsed {ℓ} : {A : Type ℓ} → Outcome A → Option A
parsed (ok a) = some a
parsed (failed e) = none

-- A text that is undefined or not empty.
unfoldable pub optional_string : Option Value → Option (Option String)
unfolding non_empty_string
optional_string none = some none
optional_string (some v) = do s ← non_empty_string (some v); some (some s)

module _ (outside : Outside) where
  unfoldable pub read_pairing_ticket : String → Value → Option (String × StoredTicket)
  unfolding optional_string ticket_candidate parsed
  read_pairing_ticket entry_key value = do
    let at = λ (k : String). member (some value) k
    profile ← parse_peer_profile outside.parse_url (at "initiatorProfile")
    initiator ← non_empty_string (at "initiatorAgentDid")
    issuer ← non_empty_string (at "issuerProxyUrl")
    key_x ← non_empty_string (at "publicKeyX")
    expires_at_ms ← as_number (at "expiresAtMs")
    responder ← optional_string (at "allowResponderAgentDid")
    let candidate = ticket_candidate (non_empty_string (at "ticket")) entry_key
    payload ← parsed (outside.tickets.parse_pairing_ticket candidate)
    some (
      payload.kid,
      record {
        ticket = candidate;
        expires_at_ms = expires_at_ms;
        initiator_agent_did = initiator;
        initiator_profile = profile;
        issuer_proxy_url = payload.iss;
        public_key_x = key_x;
        allow_responder_agent_did = responder;
      },
    )

  unfoldable pub read_confirmed_ticket : String → Value → Option (String × ConfirmedTicket)
  unfolding ticket_candidate parsed
  read_confirmed_ticket entry_key value = do
    let at = λ (k : String). member (some value) k
    profile ← parse_peer_profile outside.parse_url (at "initiatorProfile")
    responder_profile ← parse_peer_profile outside.parse_url (at "responderProfile")
    initiator ← non_empty_string (at "initiatorAgentDid")
    responder ← non_empty_string (at "responderAgentDid")
    issuer ← non_empty_string (at "issuerProxyUrl")
    expires_at_ms ← as_number (at "expiresAtMs")
    confirmed_at_ms ← as_number (at "confirmedAtMs")
    let candidate = ticket_candidate (non_empty_string (at "ticket")) entry_key
    payload ← parsed (outside.tickets.parse_pairing_ticket candidate)
    some (
      payload.kid,
      record {
        ticket = candidate;
        expires_at_ms = expires_at_ms;
        pair = record {
          initiator_agent_did = initiator;
          initiator_profile = profile;
          responder_agent_did = responder;
          responder_profile = responder_profile;
          issuer_proxy_url = payload.iss;
        };
        confirmed_at_ms = confirmed_at_ms;
      },
    )
