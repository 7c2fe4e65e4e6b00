-- ===== src/Proxy/TrustState/Errors.antt =====
-- What the durable object leaves alone when it refuses a request.
use clawdentity.Shared.{
  ℕ, String, not, ◌==◌, leb, nat_eq, ◌*◌, ◌≡◌, refl, ◌≢◌, Option, none, some, arith, if_both,
  Option-cases, inl, inr,
}
use clawdentity.Shared.Json.{Value, member, non_empty_string}
use clawdentity.Proxy.Trust.Keys.{normalize_expiry_to_whole_second}
use clawdentity.Proxy.Trust.Types.{
  Outcome, ok, failed, PairingTicketInput, PairingTicketPayload, StoredTicket, ConfirmedTicket,
}
use clawdentity.Proxy.Trust.Confirm.{is_past, forbids}
use clawdentity.Proxy.TrustState.Utils.{Outside}
use clawdentity.Proxy.TrustState.Storage.{Storage, ExpirableTrustState}
use clawdentity.Proxy.TrustState.Handlers.{
  Response, json, error_response, Answer, read_pair, handle_upsert_pair, handle_is_pair_allowed,
  handle_is_agent_known, read_revocation, handle_mark_agent_revoked, read_revoked_check,
  handle_is_agent_revoked, expired_response, now_of,
}
use clawdentity.Proxy.TrustState.Handlers.Pairing.{
  read_create, create_with, handle_create_pairing_ticket, status_confirmed, status_pending,
  status_with, handle_get_pairing_ticket_status,
}
use clawdentity.Proxy.TrustState.Handlers.Confirm.{
  Confirming, Begun, answered, waits, finish_confirm, finish_begun, handle_confirm_pairing_ticket,
}
use clawdentity.Proxy.TrustState.Controller.{
  Request, Route, create_pairing_ticket, confirm_pairing_ticket, get_pairing_ticket_status,
  mark_agent_revoked, is_agent_revoked, upsert_pair, is_pair_allowed, is_agent_known, route_of,
  handle, fetch_route, fetch,
}

-- An error other than 410 comes with the storage as it was.
abbrev KeepsOnError : Storage → Storage × Response → Type 0
KeepsOnError st x =
    (code : String) (status : ℕ) → x.1 ≡ error_response code status → status ≢ 410 → x.0 ≡ st

kept : (st : Storage) (r : Response) → KeepsOnError st (st, r)
kept st r code status e ne = refl

answers : (st st' : Storage) (a : Answer) → KeepsOnError st (st', json a)
answers st st' a code status e ne = cc

expires : (st st' : Storage) → KeepsOnError st (st', expired_response)
expires st st' code status e ne = ground (arith, ne)

upsert-KeepsOnError :
    (body : Option Value) (st : Storage) → KeepsOnError st (handle_upsert_pair body st)
unfolding handle_upsert_pair
upsert-KeepsOnError body st = elim (Option-cases (read_pair body)) [
  | inl e ↦ rw (e, handle_upsert_pair) (kept st _)
  | inr (p, e) ↦ rw (e, handle_upsert_pair) (answers st _ _)
]

check-KeepsOnError :
    (body : Option Value) (st : Storage) → KeepsOnError st (handle_is_pair_allowed body st)
unfolding handle_is_pair_allowed
check-KeepsOnError body st = elim (Option-cases (read_pair body)) [
  | inl e ↦ rw (e, handle_is_pair_allowed) (kept st _)
  | inr (p, e) ↦ rw (e, handle_is_pair_allowed) (kept st _)
]

known-KeepsOnError :
    (body : Option Value) (st : Storage) → KeepsOnError st (handle_is_agent_known body st)
unfolding handle_is_agent_known
known-KeepsOnError body st = elim (Option-cases (non_empty_string (member body "agentDid"))) [
  | inl e ↦ rw (e, handle_is_agent_known) (kept st _)
  | inr (p, e) ↦ rw (e, handle_is_agent_known) (kept st _)
]

module _ (outside : Outside) where
  mark-KeepsOnError :
      (clock : ℕ) (body : Option Value) (st : Storage)
      → KeepsOnError st (handle_mark_agent_revoked outside clock body st)
  unfolding handle_mark_agent_revoked
  mark-KeepsOnError clock body st = elim (Option-cases (read_revocation outside clock body)) [
    | inl e ↦ rw (e, handle_mark_agent_revoked) (kept st _)
    | inr (r, e) ↦ rw (e, handle_mark_agent_revoked) (answers st _ _)
  ]

  revoked-KeepsOnError :
      (clock : ℕ) (body : Option Value) (st : Storage)
      → KeepsOnError st (handle_is_agent_revoked outside clock body st)
  unfolding handle_is_agent_revoked
  revoked-KeepsOnError clock body st = elim (Option-cases (read_revoked_check outside clock body)) [
    | inl e ↦ rw (e, handle_is_agent_revoked) (kept st _)
    | inr (r, e) ↦ rw (e, handle_is_agent_revoked) (answers st _ _)
  ]

  create_with-KeepsOnError :
      (now : ℕ) (input : PairingTicketInput) (o : Outcome PairingTicketPayload) (st : Storage)
      → KeepsOnError st (create_with outside now input o st)
  unfolding create_with
  create_with-KeepsOnError now input (failed e) st = kept st _
  create_with-KeepsOnError now input (ok payload) st =
      let P = KeepsOnError st in
      let end = normalize_expiry_to_whole_second input.expires_at_ms in
      if_both P (not (payload.iss == input.issuer_proxy_url)) _ _ (kept st _) (
        if_both P (not (nat_eq (payload.exp * 1000) end)) _ _ (kept st _)
          (if_both P (leb end now) _ _ (kept st _) (answers st _ _)))

  create-KeepsOnError :
      (clock : ℕ) (body : Option Value) (st : Storage)
      → KeepsOnError st (handle_create_pairing_ticket outside clock body st)
  unfolding handle_create_pairing_ticket
  create-KeepsOnError clock body st = elim (Option-cases (read_create outside body)) [
    | inl e ↦ rw (e, handle_create_pairing_ticket) (kept st _)
    | inr (input, e) ↦
        rw (e, handle_create_pairing_ticket)
          (create_with-KeepsOnError (now_of clock body) input _ st)
  ]

  status_confirmed-KeepsOnError :
      (now : ℕ) (ticket : String) (payload : PairingTicketPayload) (o : Option ConfirmedTicket)
      (s : ExpirableTrustState) (st : Storage)
      → KeepsOnError st (status_confirmed outside now ticket payload o s st)
  unfolding status_confirmed
  status_confirmed-KeepsOnError now ticket payload none s st = kept st _
  status_confirmed-KeepsOnError now ticket payload (some t) s st =
      let P = KeepsOnError st in
      if_both P (t.ticket == ticket) _ _
        (if_both P (is_past now t.expires_at_ms payload) _ _ (expires st _) (kept st _)) (kept st _)

  status_pending-KeepsOnError :
      (now : ℕ) (ticket : String) (payload : PairingTicketPayload) (o : Option StoredTicket)
      (s : ExpirableTrustState) (st : Storage)
      → KeepsOnError st (status_pending outside now ticket payload o s st)
  unfolding status_pending
  status_pending-KeepsOnError now ticket payload none s st =
      status_confirmed-KeepsOnError now ticket payload _ s st
  status_pending-KeepsOnError now ticket payload (some t) s st =
      let P = KeepsOnError st in
      if_both P (t.ticket == ticket) _ _
        (if_both P (is_past now t.expires_at_ms payload) _ _ (expires st _) (kept st _))
        (status_confirmed-KeepsOnError now ticket payload _ s st)

  status_with-KeepsOnError :
      (now : ℕ) (ticket : String) (o : Outcome PairingTicketPayload) (st : Storage)
      → KeepsOnError st (status_with outside now ticket o st)
  unfolding status_with
  status_with-KeepsOnError now ticket (failed e) st = kept st _
  status_with-KeepsOnError now ticket (ok payload) st =
      status_pending-KeepsOnError now ticket payload _ _ st

  status-KeepsOnError :
      (clock : ℕ) (body : Option Value) (st : Storage)
      → KeepsOnError st (handle_get_pairing_ticket_status outside clock body st)
  unfolding handle_get_pairing_ticket_status
  status-KeepsOnError clock body st =
      elim (Option-cases (non_empty_string (member body "ticket"))) [
        | inl e ↦ rw (e, handle_get_pairing_ticket_status) (kept st _)
        | inr (raw, e) ↦
            rw (e, handle_get_pairing_ticket_status)
              (status_with-KeepsOnError (now_of clock body) _ _ st)
      ]

  finish-KeepsOnError :
      (c : Confirming) (st : Storage) → KeepsOnError st (finish_confirm outside c st)
  unfolding finish_confirm
  finish-KeepsOnError c st =
      let P = KeepsOnError st in
      let a = c.awaiting in
      if_both P
        (not (outside.tickets.verify_pairing_ticket_signature a.parsed a.stored.public_key_x)) _ _
        (kept st _)
        (if_both P (is_past a.now_ms a.stored.expires_at_ms a.parsed) _ _ (expires st _) (
          if_both P (not (a.stored.issuer_proxy_url == a.parsed.iss)) _ _ (kept st _) (
            if_both P (forbids a.stored.allow_responder_agent_did a.input.responder_agent_did) _ _
              (kept st _) (answers st _ _))))

  begun-KeepsOnError : (b : Begun) (st : Storage) → KeepsOnError st (finish_begun outside b st)
  unfolding finish_begun
  begun-KeepsOnError (answered r) st = kept st r
  begun-KeepsOnError (waits c) st = finish-KeepsOnError c st

  handle-KeepsOnError :
      (clock : ℕ) (body : Option Value) (st : Storage) (route : Route)
      → KeepsOnError st (handle outside clock body st route)
  unfolding handle handle_confirm_pairing_ticket
  handle-KeepsOnError clock body st create_pairing_ticket = create-KeepsOnError clock body st
  handle-KeepsOnError clock body st confirm_pairing_ticket = begun-KeepsOnError _ st
  handle-KeepsOnError clock body st get_pairing_ticket_status = status-KeepsOnError clock body st
  handle-KeepsOnError clock body st mark_agent_revoked = mark-KeepsOnError clock body st
  handle-KeepsOnError clock body st is_agent_revoked = revoked-KeepsOnError clock body st
  handle-KeepsOnError clock body st upsert_pair = upsert-KeepsOnError body st
  handle-KeepsOnError clock body st is_pair_allowed = check-KeepsOnError body st
  handle-KeepsOnError clock body st is_agent_known = known-KeepsOnError body st

  -- Whatever the request: if the answer is "Not found" for its method or path, or an error whose
  -- status is not 410, then the storage and the alarm are as before.
  pub fetch-unchanged :
      (clock : ℕ) (r : Request) (st : Storage)
      → ((fetch outside clock r st).1 ≡ none → (fetch outside clock r st).0 ≡ st)
        × ((code : String) (status : ℕ)
            → (fetch outside clock r st).1 ≡ some (error_response code status)
            → status ≢ 410
            → (fetch outside clock r st).0 ≡ st)
  unfolding fetch
  fetch-unchanged clock r st =
      if_both P (not (r.method == "POST")) _ _ ((λ e. refl), (λ code status e ne. refl))
        (by_route (route_of r.pathname))
    where
      P : Storage × Option Response → Type 0
      P x =
          (x.1 ≡ none → x.0 ≡ st)
          × ((code : String) (status : ℕ)
              → x.1 ≡ some (error_response code status)
              → status ≢ 410
              → x.0 ≡ st)

      by_route : (o : Option Route) → P (fetch_route outside clock r.body st o)
      by_route none = ((λ e. refl), (λ code status e ne. refl))
      by_route (some route) = (
        (λ e. cc),
        (λ code status e ne.
            handle-KeepsOnError clock r.body st route code status (ground (arith, e)) ne),
      )
