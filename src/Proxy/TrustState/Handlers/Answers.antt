-- ===== src/Proxy/TrustState/Handlers/Answers.antt =====
-- The durable object answers as the store in memory of proxy-trust-store.ts does.
use clawdentity.Shared.{
  ℕ, String, true, ◌≡◌, refl, ap, ◌∙◌, Option, none, some, arith, Bool-cases, inl, inr, eq_refl,
}
use clawdentity.Shared.Dict.{get, get-retain_of_kept}
use clawdentity.Shared.Json.{Value, member, non_empty_string}
use clawdentity.Proxy.Trust.Types.{
  Outcome, ok, failed, PairingTicketConfirmInput, PairingTicketConfirmResult,
  PairingTicketStatusResult, PairingTicketPayload, StoredTicket, ConfirmedTicket, TrustState,
  ProxyTrustStoreError, ticket_parse_error, ticket_already_confirmed, ticket_not_found,
  ticket_invalid_signature, ticket_expired, ticket_invalid_issuer, responder_forbidden,
  start_invalid_body, revoke_invalid_body, revoked_check_invalid_body,
}
use clawdentity.Proxy.Trust.Store.{keeps, cleanup}
use clawdentity.Proxy.Trust.Confirm
use clawdentity.Proxy.Trust.Confirm.{
  Awaiting, is_past, is_for, forbids, begin_stored, confirm_pairing_ticket,
}
use clawdentity.Proxy.Trust.Tickets
use clawdentity.Proxy.Trust.Tickets.{get_pairing_ticket_status, status_parsed}
use clawdentity.Proxy.TrustState.Utils.{Outside}
use clawdentity.Proxy.TrustState.Storage.{Storage, load_expirable_state}
use clawdentity.Proxy.TrustState.Handlers.{
  Response, json, error_response, ticket_confirmed, ticket_status, now_of,
}
use clawdentity.Proxy.TrustState.Handlers.Pairing.{
  parse_failure, status_missing, status_confirmed, status_pending, status_with,
  handle_get_pairing_ticket_status,
}
use clawdentity.Proxy.TrustState.Handlers.Confirm.{
  Confirming, read_confirm, begin_found, begin_with, begin_confirm, finish_confirm, finish_begun,
  handle_confirm_pairing_ticket,
}

-- The code and the status that the store in memory throws.
unfoldable pub thrown : ProxyTrustStoreError → Response
thrown (ticket_parse_error code) = error_response code 400
thrown ticket_already_confirmed = error_response "PROXY_PAIR_TICKET_ALREADY_CONFIRMED" 409
thrown ticket_not_found = error_response "PROXY_PAIR_TICKET_NOT_FOUND" 404
thrown ticket_invalid_signature = error_response "PROXY_PAIR_TICKET_INVALID_SIGNATURE" 400
thrown ticket_expired = error_response "PROXY_PAIR_TICKET_EXPIRED" 410
thrown ticket_invalid_issuer = error_response "PROXY_PAIR_TICKET_INVALID_ISSUER" 400
thrown responder_forbidden = error_response "PROXY_PAIR_RESPONDER_FORBIDDEN" 403
thrown start_invalid_body = error_response "PROXY_PAIR_START_INVALID_BODY" 400
thrown revoke_invalid_body = error_response "PROXY_AGENT_REVOKE_INVALID_BODY" 400
thrown revoked_check_invalid_body = error_response "PROXY_AGENT_REVOKED_CHECK_INVALID_BODY" 400

abbrev pub confirm_answer : Outcome PairingTicketConfirmResult → Response
confirm_answer (ok r) = json (ticket_confirmed r)
confirm_answer (failed e) = thrown e

abbrev pub status_answer : Outcome PairingTicketStatusResult → Response
status_answer (ok r) = json (ticket_status r)
status_answer (failed e) = thrown e

-- `parsePairingTicket` throws no other error than a `PairingTicketParseError`.
abbrev pub ThrowsParseErrors : Outside → Type 0
ThrowsParseErrors outside =
    (s : String) (e : ProxyTrustStoreError)
    → outside.tickets.parse_pairing_ticket s ≡ failed e
    → (code : String) × (e ≡ ticket_parse_error code)

-- The store in memory holds the tickets that are stored.
pub record HoldsTickets (outside : Outside) (st : Storage) (s : TrustState) : Type 0 where
  pub pending : s.pairing_tickets ≡ (load_expirable_state outside st).pairing_tickets
  pub confirmed :
      s.confirmed_pairing_tickets ≡ (load_expirable_state outside st).confirmed_pairing_tickets

keeps_skipped : (now : ℕ) (kid : String) (t : ℕ) → keeps now (some kid) kid t ≡ true
unfolding keeps
keeps_skipped now kid t = rw (eq_refl kid) refl

pub cleanup-pending :
    (now : ℕ) (kid : String) (s : TrustState)
    → get (cleanup now (some kid) s).pairing_tickets kid ≡ get s.pairing_tickets kid
unfolding cleanup
cleanup-pending now kid s =
    get-retain_of_kept (λ k t. keeps now (some kid) k t.expires_at_ms) s.pairing_tickets kid
      (λ t. keeps_skipped now kid t.expires_at_ms)

pub cleanup-confirmed :
    (now : ℕ) (kid : String) (s : TrustState)
    → get (cleanup now (some kid) s).confirmed_pairing_tickets kid
      ≡ get s.confirmed_pairing_tickets kid
unfolding cleanup
cleanup-confirmed now kid s =
    get-retain_of_kept (λ k t. keeps now (some kid) k t.expires_at_ms) s.confirmed_pairing_tickets
      kid (λ t. keeps_skipped now kid t.expires_at_ms)

module _ (outside : Outside) where
  parse_failure-eq :
      (e : ProxyTrustStoreError) (code : String)
      → e ≡ ticket_parse_error code
      → parse_failure outside e ≡ thrown e
  unfolding parse_failure thrown
  parse_failure-eq e code h = rw h refl

  finish-answers :
      (confirm_ms : ℕ) (c : Confirming) (st : Storage) (s : TrustState)
      → (finish_confirm outside c st).1
        ≡ confirm_answer (Confirm.finish_confirm outside.tickets confirm_ms c.awaiting s).1
  unfolding finish_confirm Confirm.finish_confirm thrown
  finish-answers confirm_ms c st s = ground arith

  -- Both begin in the same way, with the entries that they find.
  begin_found-answers :
      (now confirm_ms : ℕ) (input : PairingTicketConfirmInput) (payload : PairingTicketPayload)
      (o : Option StoredTicket) (st : Storage) (s : TrustState)
      → (finish_begun outside
          (begin_found outside now input payload o (load_expirable_state outside st))
          st).1
        ≡ confirm_answer
            (Confirm.finish_begun outside.tickets confirm_ms
              (s, begin_stored now input payload o)).1
  unfolding finish_begun begin_found Confirm.finish_begun begin_stored thrown
  begin_found-answers now confirm_ms input payload none st s = refl
  begin_found-answers now confirm_ms input payload (some t) st s =
      finish-answers confirm_ms
        (record {
          awaiting = record { input = input; now_ms = now; parsed = payload; stored = t };
          read_state = load_expirable_state outside st;
        })
        st s

  begin_with-answers :
      (now confirm_ms : ℕ) (input : PairingTicketConfirmInput) (o : Outcome PairingTicketPayload)
      (st : Storage) (s : TrustState)
      → ((e : ProxyTrustStoreError)
          → o ≡ failed e
          → (code : String) × (e ≡ ticket_parse_error code))
      → HoldsTickets outside st s
      → (finish_begun outside (begin_with outside now input o st) st).1
        ≡ confirm_answer
            (Confirm.finish_begun outside.tickets confirm_ms
              (Confirm.begin_parsed outside.tickets now input o s)).1
  unfolding begin_with Confirm.begin_parsed finish_begun Confirm.finish_begun
  begin_with-answers now confirm_ms input (failed e) st s p h =
      let (code, q) = p e refl in parse_failure-eq e code q
  begin_with-answers now confirm_ms input (ok payload) st s p h =
      let s' = cleanup now (some payload.kid) s in
      let pending_same : get s'.pairing_tickets payload.kid
          ≡ get (load_expirable_state outside st).pairing_tickets payload.kid =
        cleanup-pending now payload.kid s ∙ ap (λ m. get m payload.kid) h.pending in
      let confirmed_same : get s'.confirmed_pairing_tickets payload.kid
          ≡ get (load_expirable_state outside st).confirmed_pairing_tickets payload.kid =
        cleanup-confirmed now payload.kid s ∙ ap (λ m. get m payload.kid) h.confirmed in
      elim (Bool-cases (
        is_for (outside.tickets.normalize_pairing_ticket_text input.ticket)
          (get (load_expirable_state outside st).confirmed_pairing_tickets payload.kid))) [
            | inl already ↦ rw (confirmed_same, already) (unfold thrown in refl)
            | inr first ↦
                rw (confirmed_same, first, pending_same)
                  (begin_found-answers now confirm_ms input payload _ st s')
          ]

  -- With the same tickets, the durable object answers a confirmation exactly as the store in memory
  -- does, with its result or with the code and status of what it throws. Its body is valid, and no
  -- other request runs while it waits.
  pub confirm-answers :
      (clock confirm_ms : ℕ) (body : Option Value) (input : PairingTicketConfirmInput)
      (st : Storage) (s : TrustState)
      → ThrowsParseErrors outside
      → HoldsTickets outside st s
      → read_confirm outside body ≡ some input
      → (handle_confirm_pairing_ticket outside clock body st).1
        ≡ confirm_answer
            (confirm_pairing_ticket outside.tickets (now_of clock body) confirm_ms input s).1
  unfolding handle_confirm_pairing_ticket begin_confirm confirm_pairing_ticket Confirm.begin_confirm
  confirm-answers clock confirm_ms body input st s p h e =
      rw (e, begin_confirm) (begin_with-answers (now_of clock body) confirm_ms input _ st s (p _) h)

  status_missing-answers :
      (now : ℕ) (payload : PairingTicketPayload) (s : TrustState)
      → status_missing outside now payload
        ≡ status_answer (Tickets.status_missing outside.tickets now payload s).1
  unfolding status_missing Tickets.status_missing thrown
  status_missing-answers now payload s = ground arith

  status_confirmed-answers :
      (now : ℕ) (ticket : String) (payload : PairingTicketPayload) (o : Option ConfirmedTicket)
      (st : Storage) (s : TrustState)
      → (status_confirmed outside now ticket payload o (load_expirable_state outside st) st).1
        ≡ status_answer (Tickets.status_confirmed outside.tickets now ticket payload o s).1
  unfolding status_confirmed Tickets.status_confirmed thrown
  status_confirmed-answers now ticket payload none st s = status_missing-answers now payload s
  status_confirmed-answers now ticket payload (some t) st s =
      ground (arith, status_missing-answers now payload s)

  status_pending-answers :
      (now : ℕ) (ticket : String) (payload : PairingTicketPayload) (o : Option StoredTicket)
      (st : Storage) (s : TrustState)
      → get s.confirmed_pairing_tickets payload.kid
        ≡ get (load_expirable_state outside st).confirmed_pairing_tickets payload.kid
      → (status_pending outside now ticket payload o (load_expirable_state outside st) st).1
        ≡ status_answer (Tickets.status_pending outside.tickets now ticket payload o s).1
  unfolding status_pending Tickets.status_pending thrown
  status_pending-answers now ticket payload none st s h =
      rw h (status_confirmed-answers now ticket payload _ st s)
  status_pending-answers now ticket payload (some t) st s h = rw h (
      ground (
        arith,
        status_confirmed-answers now ticket payload
            (get (load_expirable_state outside st).confirmed_pairing_tickets payload.kid) st s,
      ))

  status_with-answers :
      (now : ℕ) (ticket : String) (o : Outcome PairingTicketPayload) (st : Storage) (s : TrustState)
      → ((e : ProxyTrustStoreError)
          → o ≡ failed e
          → (code : String) × (e ≡ ticket_parse_error code))
      → HoldsTickets outside st s
      → (status_with outside now ticket o st).1
        ≡ status_answer (status_parsed outside.tickets now ticket o s).1
  unfolding status_with status_parsed
  status_with-answers now ticket (failed e) st s p h =
      let (code, q) = p e refl in parse_failure-eq e code q
  status_with-answers now ticket (ok payload) st s p h =
      let s' = cleanup now (some payload.kid) s in
      rw (cleanup-pending now payload.kid s ∙ ap (λ m. get m payload.kid) h.pending) (
        status_pending-answers now ticket payload
          (get (load_expirable_state outside st).pairing_tickets payload.kid) st s'
          (cleanup-confirmed now payload.kid s ∙ ap (λ m. get m payload.kid) h.confirmed))

  -- With the same tickets, the durable object answers a question for a ticket's status exactly as the
  -- store in memory does, with its result or with the code and status of what it throws.
  pub status-answers :
      (clock : ℕ) (body : Option Value) (raw : String) (st : Storage) (s : TrustState)
      → ThrowsParseErrors outside
      → HoldsTickets outside st s
      → non_empty_string (member body "ticket") ≡ some raw
      → (handle_get_pairing_ticket_status outside clock body st).1
        ≡ status_answer (get_pairing_ticket_status outside.tickets (now_of clock body) raw s).1
  unfolding handle_get_pairing_ticket_status get_pairing_ticket_status
  status-answers clock body raw st s p h e =
      rw (e, handle_get_pairing_ticket_status)
        (status_with-answers (now_of clock body) _ _ st s (p _) h)
