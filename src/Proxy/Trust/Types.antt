-- ===== src/Proxy/Trust/Types.antt =====
-- apps/proxy/src/proxy-trust-store.ts: the inputs, results, errors and state of the trust store in
-- memory, and what it takes from pairing-ticket.ts and from packages/protocol.
use clawdentity.Shared.{ℕ, ◌*◌, String, Bool, Option, List, []}
use clawdentity.Shared.Dict.{Dict}

pub record PeerProfile : Type 0 where
  pub agent_name : String
  pub human_name : String
  pub proxy_origin : Option String

pub record PairingTicketInput : Type 0 where
  pub initiator_agent_did : String
  pub initiator_profile : PeerProfile
  pub issuer_proxy_url : String
  pub ticket : String
  pub public_key_x : String
  pub allow_responder_agent_did : Option String
  pub expires_at_ms : ℕ

pub record PairingTicketResult : Type 0 where
  pub ticket : String
  pub expires_at_ms : ℕ
  pub initiator_agent_did : String
  pub initiator_profile : PeerProfile
  pub issuer_proxy_url : String

pub record PairingTicketConfirmInput : Type 0 where
  pub ticket : String
  pub responder_agent_did : String
  pub responder_profile : PeerProfile

pub record PairingTicketConfirmResult : Type 0 where
  pub initiator_agent_did : String
  pub initiator_profile : PeerProfile
  pub responder_agent_did : String
  pub responder_profile : PeerProfile
  pub issuer_proxy_url : String

-- An entry of `pairingTickets`.
pub record StoredTicket : Type 0 where
  pub ticket : String
  pub expires_at_ms : ℕ
  pub initiator_agent_did : String
  pub initiator_profile : PeerProfile
  pub issuer_proxy_url : String
  pub public_key_x : String
  pub allow_responder_agent_did : Option String

-- An entry of `confirmedPairingTickets`.
pub record ConfirmedTicket : Type 0 where
  pub ticket : String
  pub expires_at_ms : ℕ
  pub pair : PairingTicketConfirmResult
  pub confirmed_at_ms : ℕ

pub data PairingTicketStatusResult : Type 0 where
  pending : StoredTicket → PairingTicketStatusResult
  confirmed : ConfirmedTicket → PairingTicketStatusResult

pub data ProxyTrustStoreError : Type 0 where
  ticket_parse_error : String → ProxyTrustStoreError
  ticket_already_confirmed : ProxyTrustStoreError
  ticket_not_found : ProxyTrustStoreError
  ticket_invalid_signature : ProxyTrustStoreError
  ticket_expired : ProxyTrustStoreError
  ticket_invalid_issuer : ProxyTrustStoreError
  responder_forbidden : ProxyTrustStoreError
  start_invalid_body : ProxyTrustStoreError
  revoke_invalid_body : ProxyTrustStoreError
  revoked_check_invalid_body : ProxyTrustStoreError

-- What a call returns or throws.
pub data Outcome {ℓ} (A : Type ℓ) : Type ℓ where
  ok : A → Outcome A
  failed : ProxyTrustStoreError → Outcome A

-- What the store reads of a parsed ticket; the signature is over the whole of it.
pub record PairingTicketPayload : Type 0 where
  pub iss : String
  pub kid : String
  pub exp : ℕ
  pub nonce : String
  pub pkid : String
  pub sig : String

-- The functions that the store calls: `parsePairingTicket` with the code of the error it throws,
-- `normalizePairingTicketText`, `verifyPairingTicketSignature` (false where it throws), and whether
-- `parseAgentDid` accepts a text.
pub record TicketFunctions : Type 0 where
  pub parse_pairing_ticket : String → Outcome PairingTicketPayload
  pub normalize_pairing_ticket_text : String → String
  pub verify_pairing_ticket_signature : PairingTicketPayload → String → Bool
  pub is_agent_did : String → Bool

pub record TrustState : Type 0 where
  pub pair_keys : List String
  pub agent_peers : Dict (List String)
  pub revoked_agents : Dict ℕ
  pub confirmed_pairing_tickets : Dict ConfirmedTicket
  pub pairing_tickets : Dict StoredTicket

abbrev pub empty_trust : TrustState
empty_trust = record {
  pair_keys = [];
  agent_peers = [];
  revoked_agents = [];
  confirmed_pairing_tickets = [];
  pairing_tickets = [];
}

abbrev pub revoked_agent_marker_ttl_ms : ℕ
revoked_agent_marker_ttl_ms = 30 * 24 * 60 * 60 * 1000
