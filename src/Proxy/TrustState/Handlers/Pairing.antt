-- ===== src/Proxy/TrustState/Handlers/Pairing.antt =====
-- apps/proxy/src/proxy-trust-state/handlers.ts, `handleCreatePairingTicket` and
-- `handleGetPairingTicketStatus`.
use clawdentity.Shared.{
  ℕ, ◌*◌, String, true, false, not, Option, none, some, ◌==◌, leb, nat_eq, ◌>>=◌, if◌then◌else◌,
}
use clawdentity.Shared.Dict.{get, set, delete}
use clawdentity.Shared.Text.{trim}
use clawdentity.Shared.Json.{Value, member, non_empty_string, as_number}
use clawdentity.Proxy.Trust.Keys.{normalize_expiry_to_whole_second}
use clawdentity.Proxy.Trust.Types.{
  Outcome, ok, failed, ProxyTrustStoreError, ticket_parse_error, PairingTicketInput,
  PairingTicketPayload, pending, confirmed, StoredTicket, ConfirmedTicket,
}
use clawdentity.Proxy.Trust.Confirm.{is_past}
use clawdentity.Proxy.Trust.Tickets.{created}
use clawdentity.Proxy.TrustState.Utils.{Outside, parse_peer_profile}
use clawdentity.Proxy.TrustState.Storage.{
  Storage, ExpirableTrustState, load_expirable_state, save_expirable_state_and_schedule,
}
use clawdentity.Proxy.TrustState.Handlers.{
  Response, json, error_response, rethrown, ticket_created, ticket_status, expired_response,
  not_found_response, now_of,
}

module _ (outside : Outside) where
  -- `parseNormalizedPairingTicket`, with what it answers or throws.
  unfoldable pub parse_failure : ProxyTrustStoreError → Response
  parse_failure (ticket_parse_error code) = error_response code 400
  parse_failure e = rethrown e

  -- The body of a creation but for the responder; the key is trimmed.
  unfoldable pub read_ticket_input : Option Value → Option PairingTicketInput
  read_ticket_input body = do
    profile ← parse_peer_profile outside.parse_url (member body "initiatorProfile")
    initiator ← non_empty_string (member body "initiatorAgentDid")
    issuer ← non_empty_string (member body "issuerProxyUrl")
    ticket ← non_empty_string (member body "ticket")
    key_x ← non_empty_string (member body "publicKeyX")
    expires_at_ms ← as_number (member body "expiresAtMs")
    if nat_eq expires_at_ms 0
        then none
        else some (record {
          initiator_agent_did = initiator;
          initiator_profile = profile;
          issuer_proxy_url = issuer;
          ticket = ticket;
          public_key_x = trim key_x;
          allow_responder_agent_did = none;
          expires_at_ms = expires_at_ms;
        })

  unfoldable pub read_responder : Option Value → Option (Option String)
  read_responder none = some none
  read_responder (some v) = do
    s ← non_empty_string (some v)
    if outside.tickets.is_agent_did (trim s) then some (some (trim s)) else none

  -- `callbackUrl` must be undefined.
  unfoldable pub no_callback : Option Value → Option (Unit {0})
  no_callback none = some tt
  no_callback (some v) = none

  unfoldable pub read_create : Option Value → Option PairingTicketInput
  unfolding read_ticket_input read_responder no_callback
  read_create body = do
    input ← read_ticket_input body
    responder ← read_responder (member body "allowResponderAgentDid")
    _ ← no_callback (member body "callbackUrl")
    some (record input { allow_responder_agent_did = responder })

  abbrev pub new_ticket : PairingTicketInput → PairingTicketPayload → StoredTicket
  new_ticket input payload = record {
    ticket = outside.tickets.normalize_pairing_ticket_text input.ticket;
    expires_at_ms = normalize_expiry_to_whole_second input.expires_at_ms;
    initiator_agent_did = input.initiator_agent_did;
    initiator_profile = input.initiator_profile;
    issuer_proxy_url = payload.iss;
    public_key_x = input.public_key_x;
    allow_responder_agent_did = input.allow_responder_agent_did;
  }

  unfoldable pub store_new_ticket : PairingTicketInput → PairingTicketPayload → Storage → Storage
  store_new_ticket input payload st =
      let s = load_expirable_state outside st in
      save_expirable_state_and_schedule outside true true
        (record {
          pairing_tickets = set s.pairing_tickets payload.kid (new_ticket input payload);
          confirmed_pairing_tickets = delete s.confirmed_pairing_tickets payload.kid;
        })
        st

  unfoldable pub create_with :
      ℕ → PairingTicketInput → Outcome PairingTicketPayload → Storage → Storage × Response
  unfolding parse_failure store_new_ticket
  create_with now input (failed e) st = (st, parse_failure e)
  create_with now input (ok payload) st =
      let expires_at_ms = normalize_expiry_to_whole_second input.expires_at_ms in
      if not (payload.iss == input.issuer_proxy_url)
      then (st, error_response "PROXY_PAIR_TICKET_INVALID_ISSUER" 400)
      else if not (nat_eq (payload.exp * 1000) expires_at_ms)
      then (st, error_response "PROXY_PAIR_START_INVALID_BODY" 400)
      else if leb expires_at_ms now
      then (st, expired_response)
      else (
        store_new_ticket input payload st,
        json (ticket_created (created (new_ticket input payload))),
      )

  unfoldable pub handle_create_pairing_ticket : ℕ → Option Value → Storage → Storage × Response
  unfolding read_create create_with now_of
  handle_create_pairing_ticket clock body st = elim (read_create body) [
    | none ↦ (st, error_response "PROXY_PAIR_START_INVALID_BODY" 400)
    | some input ↦
        let ticket = outside.tickets.normalize_pairing_ticket_text input.ticket in
        create_with (now_of clock body) input (outside.tickets.parse_pairing_ticket ticket) st
  ]

  -- The end of the status handler: no entry is for this text of the ticket.
  unfoldable pub status_missing : ℕ → PairingTicketPayload → Response
  status_missing now payload =
      if leb (payload.exp * 1000) now then expired_response else not_found_response

  unfoldable pub status_confirmed :
      ℕ
      → String
      → PairingTicketPayload
      → Option ConfirmedTicket
      → ExpirableTrustState
      → Storage
      → Storage × Response
  unfolding status_missing
  status_confirmed now ticket payload none s st = (st, status_missing now payload)
  status_confirmed now ticket payload (some t) s st =
      if t.ticket == ticket
      then (if is_past now t.expires_at_ms payload
          then (
            save_expirable_state_and_schedule outside false true
                (record s {
                  confirmed_pairing_tickets = delete s.confirmed_pairing_tickets payload.kid;
                })
                st,
            expired_response,
          )
          else (st, json (ticket_status (confirmed t))))
      else (st, status_missing now payload)

  unfoldable pub status_pending :
      ℕ
      → String
      → PairingTicketPayload
      → Option StoredTicket
      → ExpirableTrustState
      → Storage
      → Storage × Response
  unfolding status_confirmed
  status_pending now ticket payload none s st =
      status_confirmed now ticket payload (get s.confirmed_pairing_tickets payload.kid) s st
  status_pending now ticket payload (some t) s st =
      if t.ticket == ticket
      then (if is_past now t.expires_at_ms payload
          then (
            save_expirable_state_and_schedule outside true false
                (record s { pairing_tickets = delete s.pairing_tickets payload.kid }) st,
            expired_response,
          )
          else (st, json (ticket_status (pending t))))
      else status_confirmed now ticket payload (get s.confirmed_pairing_tickets payload.kid) s st

  unfoldable pub status_with :
      ℕ → String → Outcome PairingTicketPayload → Storage → Storage × Response
  unfolding parse_failure status_pending
  status_with now ticket (failed e) st = (st, parse_failure e)
  status_with now ticket (ok payload) st =
      let s = load_expirable_state outside st in
      status_pending now ticket payload (get s.pairing_tickets payload.kid) s st

  unfoldable pub handle_get_pairing_ticket_status : ℕ → Option Value → Storage → Storage × Response
  unfolding status_with now_of
  handle_get_pairing_ticket_status clock body st = elim (non_empty_string (member body "ticket")) [
    | none ↦ (st, error_response "PROXY_PAIR_STATUS_INVALID_BODY" 400)
    | some raw ↦
        let ticket = outside.tickets.normalize_pairing_ticket_text raw in
        status_with (now_of clock body) ticket (outside.tickets.parse_pairing_ticket ticket) st
  ]
