-- ===== src/Proxy/TrustState/Handlers/Confirm.antt =====
-- apps/proxy/src/proxy-trust-state/handlers.ts, `handleConfirmPairingTicket`: it awaits the check of
-- the signature, where other requests may run, and then saves the tickets that it read before.
use clawdentity.Shared.{ℕ, true, not, Option, none, some, ◌==◌, ◌>>=◌, if◌then◌else◌}
use clawdentity.Shared.Dict.{get, set, delete}
use clawdentity.Shared.Json.{Value, member, non_empty_string}
use clawdentity.Proxy.Trust.Keys.{normalize_expiry_to_whole_second}
use clawdentity.Proxy.Trust.Types.{
  Outcome, ok, failed, PairingTicketConfirmInput, PairingTicketPayload, StoredTicket,
  ConfirmedTicket,
}
use clawdentity.Proxy.Trust.Confirm.{Awaiting, is_past, is_for, forbids, confirmed_pair}
use clawdentity.Proxy.TrustState.Utils.{Outside, parse_peer_profile}
use clawdentity.Proxy.TrustState.Storage.{
  Storage, ExpirableTrustState, load_expirable_state, save_expirable_state_and_schedule,
}
use clawdentity.Proxy.TrustState.Handlers.{
  Response, json, error_response, ticket_confirmed, expired_response, not_found_response, now_of,
  save_pair,
}
use clawdentity.Proxy.TrustState.Handlers.Pairing.{parse_failure}

-- A confirmation at its `await`, with the tickets that it has read.
pub record Confirming : Type 0 where
  pub awaiting : Awaiting
  pub read_state : ExpirableTrustState

-- An answer, or the rest of the handler.
pub data Begun : Type 0 where
  answered : Response → Begun
  waits : Confirming → Begun

module _ (outside : Outside) where
  unfoldable pub read_confirm : Option Value → Option PairingTicketConfirmInput
  read_confirm body = do
    profile ← parse_peer_profile outside.parse_url (member body "responderProfile")
    ticket ← non_empty_string (member body "ticket")
    responder ← non_empty_string (member body "responderAgentDid")
    some (record { ticket = ticket; responder_agent_did = responder; responder_profile = profile })

  unfoldable pub begin_found :
      ℕ
      → PairingTicketConfirmInput
      → PairingTicketPayload
      → Option StoredTicket
      → ExpirableTrustState
      → Begun
  begin_found now input payload none s = answered not_found_response
  begin_found now input payload (some stored) s = waits (record {
    awaiting = record { input = input; now_ms = now; parsed = payload; stored = stored };
    read_state = s;
  })

  unfoldable pub begin_with :
      ℕ → PairingTicketConfirmInput → Outcome PairingTicketPayload → Storage → Begun
  unfolding is_for begin_found parse_failure
  begin_with now input (failed e) st = answered (parse_failure outside e)
  begin_with now input (ok payload) st =
      let s = load_expirable_state outside st in
      let ticket = outside.tickets.normalize_pairing_ticket_text input.ticket in
      if is_for ticket (get s.confirmed_pairing_tickets payload.kid)
      then answered (error_response "PROXY_PAIR_TICKET_ALREADY_CONFIRMED" 409)
      else begin_found now input payload (get s.pairing_tickets payload.kid) s

  unfoldable pub begin_confirm : ℕ → Option Value → Storage → Begun
  unfolding read_confirm begin_with now_of
  begin_confirm clock body st = elim (read_confirm body) [
    | none ↦ answered (error_response "PROXY_PAIR_CONFIRM_INVALID_BODY" 400)
    | some input ↦
        begin_with (now_of clock body) input
          (outside.tickets.parse_pairing_ticket
            (outside.tickets.normalize_pairing_ticket_text input.ticket))
          st
  ]

  abbrev pub confirmed_ticket : Awaiting → ConfirmedTicket
  confirmed_ticket a = record {
    ticket = outside.tickets.normalize_pairing_ticket_text a.input.ticket;
    expires_at_ms = a.stored.expires_at_ms;
    pair = confirmed_pair a;
    confirmed_at_ms = normalize_expiry_to_whole_second a.now_ms;
  }

  unfoldable pub store_confirmed : Confirming → Storage → Storage
  unfolding save_pair
  store_confirmed c st =
      let a = c.awaiting in
      save_expirable_state_and_schedule outside true true
        (record {
          pairing_tickets = delete c.read_state.pairing_tickets a.parsed.kid;
          confirmed_pairing_tickets =
              set c.read_state.confirmed_pairing_tickets a.parsed.kid (confirmed_ticket a);
        })
        (save_pair a.stored.initiator_agent_did a.input.responder_agent_did st)

  unfoldable pub drop_expired : Confirming → Storage → Storage
  drop_expired c st =
      let kid = c.awaiting.parsed.kid in
      save_expirable_state_and_schedule outside true true
        (record {
          pairing_tickets = delete c.read_state.pairing_tickets kid;
          confirmed_pairing_tickets = delete c.read_state.confirmed_pairing_tickets kid;
        })
        st

  unfoldable pub finish_confirm : Confirming → Storage → Storage × Response
  unfolding forbids store_confirmed drop_expired
  finish_confirm c st =
      let a = c.awaiting in
      if not (outside.tickets.verify_pairing_ticket_signature a.parsed a.stored.public_key_x)
      then (st, error_response "PROXY_PAIR_TICKET_INVALID_SIGNATURE" 400)
      else if is_past a.now_ms a.stored.expires_at_ms a.parsed
      then (drop_expired c st, expired_response)
      else if not (a.stored.issuer_proxy_url == a.parsed.iss)
      then (st, error_response "PROXY_PAIR_TICKET_INVALID_ISSUER" 400)
      else if forbids a.stored.allow_responder_agent_did a.input.responder_agent_did
      then (st, error_response "PROXY_PAIR_RESPONDER_FORBIDDEN" 403)
      else (store_confirmed c st, json (ticket_confirmed (confirmed_pair a)))

  unfoldable pub finish_begun : Begun → Storage → Storage × Response
  finish_begun (answered r) st = (st, r)
  finish_begun (waits c) st = finish_confirm c st

  -- The whole handler where no other request runs at its `await`.
  unfoldable pub handle_confirm_pairing_ticket : ℕ → Option Value → Storage → Storage × Response
  unfolding finish_begun
  handle_confirm_pairing_ticket clock body st = finish_begun (begin_confirm clock body st) st
