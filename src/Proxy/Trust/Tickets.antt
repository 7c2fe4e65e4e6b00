-- ===== src/Proxy/Trust/Tickets.antt =====
-- apps/proxy/src/proxy-trust-store.ts, `createPairingTicket` and `getPairingTicketStatus`.
pub mod Created
use clawdentity.Shared.{
  ℕ, ◌*◌, String, Bool, true, false, not, ◌||◌, ◌&&◌, Option, none, some, ◌==◌, leb, nat_eq,
  if◌then◌else◌,
}
use clawdentity.Shared.Dict.{get, set, delete}
use clawdentity.Shared.Text.{trim, is_empty}
use clawdentity.Proxy.Trust.Keys.{normalize_expiry_to_whole_second}
use clawdentity.Proxy.Trust.Types.{
  TrustState, Outcome, ok, failed, ticket_not_found, ticket_expired, ticket_invalid_issuer,
  start_invalid_body, TicketFunctions, StoredTicket, ConfirmedTicket, PairingTicketPayload,
  PairingTicketInput, PairingTicketResult, PairingTicketStatusResult, pending, confirmed,
}
use clawdentity.Proxy.Trust.Store.{cleanup}
use clawdentity.Proxy.Trust.Confirm.{is_past}

abbrev pub created : StoredTicket → PairingTicketResult
created t = record {
  ticket = t.ticket;
  expires_at_ms = t.expires_at_ms;
  initiator_agent_did = t.initiator_agent_did;
  initiator_profile = t.initiator_profile;
  issuer_proxy_url = t.issuer_proxy_url;
}

module _ (fns : TicketFunctions) where
  -- `allowResponderAgentDid`, trimmed, unless it is given and is empty or no agent DID.
  unfoldable pub normalize_responder : Option String → Outcome (Option String)
  normalize_responder none = ok none
  normalize_responder (some did) =
      let did' = trim did in
      if is_empty did' || not (fns.is_agent_did did')
      then failed start_invalid_body
      else ok (some did')

  abbrev pub stored_ticket :
      PairingTicketInput → PairingTicketPayload → Option String → StoredTicket
  stored_ticket input parsed responder = record {
    ticket = fns.normalize_pairing_ticket_text input.ticket;
    expires_at_ms = normalize_expiry_to_whole_second input.expires_at_ms;
    initiator_agent_did = input.initiator_agent_did;
    initiator_profile = input.initiator_profile;
    issuer_proxy_url = parsed.iss;
    public_key_x = trim input.public_key_x;
    allow_responder_agent_did = responder;
  }

  unfoldable pub store_ticket :
      PairingTicketInput
      → PairingTicketPayload
      → Outcome (Option String)
      → TrustState
      → TrustState × Outcome PairingTicketResult
  store_ticket input parsed (failed e) s = (s, failed e)
  store_ticket input parsed (ok responder) s =
      let t = stored_ticket input parsed responder in
      (
        record s {
          pairing_tickets = set s.pairing_tickets parsed.kid t;
          confirmed_pairing_tickets = delete s.confirmed_pairing_tickets parsed.kid;
        },
        ok (created t),
      )

  unfoldable pub create_parsed :
      PairingTicketInput
      → Outcome PairingTicketPayload
      → TrustState
      → TrustState × Outcome PairingTicketResult
  unfolding normalize_responder store_ticket
  create_parsed input (failed e) s = (s, failed e)
  create_parsed input (ok parsed) s =
      if not (parsed.iss == input.issuer_proxy_url)
      then (s, failed ticket_invalid_issuer)
      else if not
          (nat_eq (parsed.exp * 1000) (normalize_expiry_to_whole_second input.expires_at_ms))
      then (s, failed start_invalid_body)
      else if is_empty (trim input.public_key_x)
      then (s, failed start_invalid_body)
      else store_ticket input parsed (normalize_responder input.allow_responder_agent_did) s

  unfoldable pub create_pairing_ticket :
      ℕ → PairingTicketInput → TrustState → TrustState × Outcome PairingTicketResult
  unfolding create_parsed
  create_pairing_ticket now input s =
      create_parsed input
        (fns.parse_pairing_ticket (fns.normalize_pairing_ticket_text input.ticket))
        (cleanup now none s)

  -- No entry is for this text of the ticket.
  unfoldable pub status_missing :
      ℕ → PairingTicketPayload → TrustState → TrustState × Outcome PairingTicketStatusResult
  status_missing now parsed s =
      (s, if leb (parsed.exp * 1000) now then failed ticket_expired else failed ticket_not_found)

  unfoldable pub status_confirmed :
      ℕ
      → String
      → PairingTicketPayload
      → Option ConfirmedTicket
      → TrustState
      → TrustState × Outcome PairingTicketStatusResult
  unfolding status_missing
  status_confirmed now text parsed none s = status_missing now parsed s
  status_confirmed now text parsed (some t) s =
      if t.ticket == text
      then (if is_past now t.expires_at_ms parsed
          then (
            record s { confirmed_pairing_tickets = delete s.confirmed_pairing_tickets parsed.kid },
            failed ticket_expired,
          )
          else (s, ok (confirmed t)))
      else status_missing now parsed s

  unfoldable pub status_pending :
      ℕ
      → String
      → PairingTicketPayload
      → Option StoredTicket
      → TrustState
      → TrustState × Outcome PairingTicketStatusResult
  unfolding status_confirmed
  status_pending now text parsed none s =
      status_confirmed now text parsed (get s.confirmed_pairing_tickets parsed.kid) s
  status_pending now text parsed (some t) s =
      if t.ticket == text
      then (if is_past now t.expires_at_ms parsed
          then (
            record s { pairing_tickets = delete s.pairing_tickets parsed.kid },
            failed ticket_expired,
          )
          else (s, ok (pending t)))
      else status_confirmed now text parsed (get s.confirmed_pairing_tickets parsed.kid) s

  unfoldable pub status_parsed :
      ℕ
      → String
      → Outcome PairingTicketPayload
      → TrustState
      → TrustState × Outcome PairingTicketStatusResult
  unfolding status_pending
  status_parsed now text (failed e) s = (s, failed e)
  status_parsed now text (ok parsed) s =
      let s' = cleanup now (some parsed.kid) s in
      status_pending now text parsed (get s'.pairing_tickets parsed.kid) s'

  unfoldable pub get_pairing_ticket_status :
      ℕ → String → TrustState → TrustState × Outcome PairingTicketStatusResult
  unfolding status_parsed
  get_pairing_ticket_status now ticket s =
      let text = fns.normalize_pairing_ticket_text ticket in
      status_parsed now text (fns.parse_pairing_ticket text) s
