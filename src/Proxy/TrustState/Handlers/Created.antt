-- ===== src/Proxy/TrustState/Handlers/Created.antt =====
-- A ticket that was created is found again in the stored values.
use clawdentity.Shared.{
  ℕ, ◌<◌, String, true, false, ◌==◌, nat_eq, leb, ◌*◌, ◌≡◌, refl, sym, ap, ◌∙◌, Option, some, arith,
  subst, Bool-cases, Option-cases, inl, inr, eq_iff,
}
use clawdentity.Shared.Dict.{
  get, get-set_self, set-IsDistinct, delete-IsDistinct, All-set, All-delete,
}
use clawdentity.Shared.Json.{Value, member, non_empty_string}
use clawdentity.Proxy.Trust.Keys.{normalize_expiry_to_whole_second}
use clawdentity.Proxy.Trust.Types.{
  Outcome, ok, failed, PairingTicketInput, PairingTicketPayload, PairingTicketResult, StoredTicket,
  ProxyTrustStoreError, pending,
}
use clawdentity.Proxy.Trust.Confirm.{is_past}
use clawdentity.Proxy.Trust.Tickets.{created}
use clawdentity.Proxy.TrustState.Utils.{Outside}
use clawdentity.Proxy.TrustState.Storage.{
  Storage, ExpirableTrustState, load_expirable_state, save_expirable_state,
  save_expirable_state_and_schedule,
}
use clawdentity.Proxy.TrustState.Storage.Canonical.{IsLawful}
use clawdentity.Proxy.TrustState.Storage.Rereads.{IsPending, IsConfirmed}
use clawdentity.Proxy.TrustState.Storage.Saved.{AreCanonical, load-AreCanonical}
use clawdentity.Proxy.TrustState.Storage.Scheduled.{load-save_expirable, load-schedule}
use clawdentity.Proxy.TrustState.Handlers.{Response, json, ticket_created, ticket_status, now_of}
use clawdentity.Proxy.TrustState.Handlers.Pairing.{
  parse_failure, read_create, new_ticket, store_new_ticket, create_with,
  handle_create_pairing_ticket, status_pending, status_with, handle_get_pairing_ticket_status,
}
use clawdentity.Proxy.TrustState.Handlers.Tickets.{
  IsInput, read_create-IsInput, new_ticket-IsPending,
}

module _ (outside : Outside) where
  -- Both maps are saved: a load gives them again.
  pub load-save_and_schedule :
      (s : ExpirableTrustState) (st : Storage)
      → AreCanonical outside s
      → load_expirable_state outside (save_expirable_state_and_schedule outside true true s st) ≡ s
  unfolding save_expirable_state_and_schedule
  load-save_and_schedule s st c =
      load-schedule outside s.pairing_tickets s.confirmed_pairing_tickets _
        (save_expirable_state true true s st)
      ∙ load-save_expirable outside true true s st c (λ e. cc) (λ e. cc)

  parse_failure-ne_json :
      (e : ProxyTrustStoreError) (r : PairingTicketResult)
      → parse_failure outside e ≡ json (ticket_created r)
      → ⊥
  unfolding parse_failure
  parse_failure-ne_json e r h = ground (arith, h)

-- What a creation that succeeded has found.
pub record IsCreated (outside : Outside) (st : Storage) (x : Storage × Response)
    (r : PairingTicketResult) : Type 0 where
  pub input : PairingTicketInput
  pub payload : PairingTicketPayload
  pub accepted :
      outside.tickets.parse_pairing_ticket
        (outside.tickets.normalize_pairing_ticket_text input.ticket)
      ≡ ok payload
  pub expiry : payload.exp * 1000 ≡ normalize_expiry_to_whole_second input.expires_at_ms
  pub stored : x.0 ≡ store_new_ticket outside input payload st
  pub is_input : IsInput outside input
  pub answer : created (new_ticket outside input payload) ≡ r

module _ (outside : Outside) (lawful : IsLawful outside) where
  create_with-IsCreated :
      (now : ℕ) (input : PairingTicketInput) (o : Outcome PairingTicketPayload) (st : Storage)
      (r : PairingTicketResult)
      → outside.tickets.parse_pairing_ticket
          (outside.tickets.normalize_pairing_ticket_text input.ticket)
        ≡ o
      → IsInput outside input
      → (create_with outside now input o st).1 ≡ json (ticket_created r)
      → IsCreated outside st (create_with outside now input o st) r
  unfolding create_with
  create_with-IsCreated now input (failed e) st r p i h =
      absurd (parse_failure-ne_json outside e r h)
  create_with-IsCreated now input (ok payload) st r p i h =
      let end = normalize_expiry_to_whole_second input.expires_at_ms in
      elim (Bool-cases (payload.iss == input.issuer_proxy_url)) [
        | inr other ↦ absurd (cc (rw other at h))
        | inl same ↦ elim (Bool-cases (nat_eq (payload.exp * 1000) end)) [
          | inr off ↦ absurd (cc (rw (same, off) at h))
          | inl fits ↦ elim (Bool-cases (leb end now)) [
            | inl past ↦ absurd (cc (rw (same, fits, past) at h))
            | inr live ↦
                let expiry : payload.exp * 1000 ≡ end = ground (arith, fits) in
                rw (same, fits, live)
                  (record {
                    input = input;
                    payload = payload;
                    accepted = p;
                    expiry = expiry;
                    stored = refl;
                    is_input = i;
                    answer = ground (arith, rw (same, fits, live) at h);
                  })
          ]
        ]
      ]

  pub create-IsCreated :
      (clock : ℕ) (body : Option Value) (st : Storage) (r : PairingTicketResult)
      → (handle_create_pairing_ticket outside clock body st).1 ≡ json (ticket_created r)
      → IsCreated outside st (handle_create_pairing_ticket outside clock body st) r
  unfolding handle_create_pairing_ticket
  create-IsCreated clock body st r h = elim (Option-cases (read_create outside body)) [
    | inl e ↦ absurd (cc (rw (e, handle_create_pairing_ticket) at h))
    | inr (input, e) ↦
        rw (e, handle_create_pairing_ticket)
          (create_with-IsCreated (now_of clock body) input _ st r refl
            (read_create-IsInput outside lawful body input e)
            (rw (e, handle_create_pairing_ticket) at h))
  ]

  stored-get :
      (input : PairingTicketInput) (payload : PairingTicketPayload) (st : Storage)
      → IsPending outside payload.kid (new_ticket outside input payload)
      → get
          (load_expirable_state outside (store_new_ticket outside input payload st)).pairing_tickets
          payload.kid
        ≡ some (new_ticket outside input payload)
  unfolding store_new_ticket
  stored-get input payload st t =
      let s = load_expirable_state outside st in
      let c = load-AreCanonical outside st lawful in
      ap (λ s'. get s'.pairing_tickets payload.kid)
        (load-save_and_schedule outside _ st (record {
          pending =
              All-set (λ e. IsPending outside e.0 e.1) s.pairing_tickets payload.kid _ c.pending t;
          pending_keys = set-IsDistinct s.pairing_tickets payload.kid _ c.pending_keys;
          confirmed =
              All-delete (λ e. IsConfirmed outside e.0 e.1) s.confirmed_pairing_tickets payload.kid
                c.confirmed;
          confirmed_keys =
              delete-IsDistinct s.confirmed_pairing_tickets payload.kid c.confirmed_keys;
        }))
      ∙ get-set_self s.pairing_tickets payload.kid (new_ticket outside input payload)

  not_past :
      (now : ℕ) (t : StoredTicket) (payload : PairingTicketPayload)
      → now < t.expires_at_ms
      → now < payload.exp * 1000
      → is_past now t.expires_at_ms payload ≡ false
  unfolding is_past
  not_past now t payload h k = ground arith

  pub pending-status :
      (clock : ℕ) (body : Option Value) (raw : String) (st : Storage)
      (payload : PairingTicketPayload) (t : StoredTicket)
      → non_empty_string (member body "ticket") ≡ some raw
      → outside.tickets.parse_pairing_ticket (outside.tickets.normalize_pairing_ticket_text raw)
        ≡ ok payload
      → get (load_expirable_state outside st).pairing_tickets payload.kid ≡ some t
      → t.ticket ≡ outside.tickets.normalize_pairing_ticket_text raw
      → now_of clock body < t.expires_at_ms
      → now_of clock body < payload.exp * 1000
      → (handle_get_pairing_ticket_status outside clock body st).1
        ≡ json (ticket_status (pending t))
  unfolding handle_get_pairing_ticket_status status_with status_pending
  pending-status clock body raw st payload t asked accepted found same live live' =
      let ticket = outside.tickets.normalize_pairing_ticket_text raw in
      let text_same : (t.ticket == ticket) ≡ true = (eq_iff _ _).1 same in
      rw
        (
          asked,
          handle_get_pairing_ticket_status,
          accepted,
          found,
          text_same,
          not_past (now_of clock body) t payload live live',
        )
        refl

  -- A ticket that the durable object created, whatever it had stored, is answered as pending, with
  -- the same content, if the next request asks for it with a text of this ticket before the
  -- ticket's end. No request comes in between.
  pub created-status :
      (clock : ℕ) (body : Option Value) (st : Storage) (r : PairingTicketResult) (clock' : ℕ)
      (body' : Option Value) (raw : String)
      → (handle_create_pairing_ticket outside clock body st).1 ≡ json (ticket_created r)
      → non_empty_string (member body' "ticket") ≡ some raw
      → outside.tickets.normalize_pairing_ticket_text raw ≡ r.ticket
      → now_of clock' body' < r.expires_at_ms
      → (t : StoredTicket) × (((handle_get_pairing_ticket_status outside clock' body'
              (handle_create_pairing_ticket outside clock body st).0).1
            ≡ json (ticket_status (pending t)))
          × (created t ≡ r))
  created-status clock body st r clock' body' raw h asked same_text live =
      let c = create-IsCreated clock body st r h in
      let t = new_ticket outside c.input c.payload in
      let pending_there =
        new_ticket-IsPending outside lawful c.input c.payload c.is_input c.accepted in
      let found =
        ap (λ x. get (load_expirable_state outside x).pairing_tickets c.payload.kid) c.stored
        ∙ stored-get c.input c.payload st pending_there in
      let text_same : outside.tickets.normalize_pairing_ticket_text raw
          ≡ outside.tickets.normalize_pairing_ticket_text c.input.ticket =
        same_text ∙ sym (ap (λ x. x.ticket) c.answer) in
      let before : now_of clock' body' < t.expires_at_ms =
        subst (λ n. now_of clock' body' < n) (sym (ap (λ x. x.expires_at_ms) c.answer)) live in
      (
        t,
        (
          pending-status clock' body' raw _ c.payload t asked
              (ap outside.tickets.parse_pairing_ticket text_same ∙ c.accepted) found (sym text_same)
              before (subst (λ n. now_of clock' body' < n) (sym c.expiry) before),
          c.answer,
        ),
      )
