-- ===== src/Proxy/TrustState/Handlers/Tickets.antt =====
-- The handlers of pairing tickets keep the alarm at the earliest expiry of what is stored.
use clawdentity.Shared.{
  ℕ, String, true, false, ◌==◌, nat_eq, leb, ◌*◌, ◌≡◌, refl, sym, Option, none, some, arith, subst,
  Bool-cases, Option-cases, inl, inr,
}
use clawdentity.Shared.Dict.{delete, set-IsDistinct, delete-IsDistinct, All-set, All-delete}
use clawdentity.Shared.Text.{trim}
use clawdentity.Shared.Json.{Value, member, non_empty_string, as_number}
use clawdentity.Proxy.Trust.Keys.{normalize_expiry_to_whole_second}
use clawdentity.Proxy.Trust.Types.{
  Outcome, ok, failed, PairingTicketInput, PairingTicketPayload, StoredTicket, ConfirmedTicket,
}
use clawdentity.Proxy.Trust.Confirm.{is_past}
use clawdentity.Proxy.TrustState.Utils.{Outside, parse_peer_profile}
use clawdentity.Proxy.TrustState.Storage.{
  Storage, load_expirable_state, save_expirable_state_and_schedule,
}
use clawdentity.Proxy.TrustState.Storage.Canonical.{
  IsLawful, IsFilled, IsProfile, trimmed, non_empty_string-IsFilled, >>=-eq-some, some_inj,
  parse_peer_profile-IsProfile,
}
use clawdentity.Proxy.TrustState.Storage.Rereads.{IsOptional, IsPending, IsConfirmed}
use clawdentity.Proxy.TrustState.Storage.Saved.{load-AreCanonical}
use clawdentity.Proxy.TrustState.Storage.Scheduled.{IsScheduled, save_and_schedule-IsScheduled}
use clawdentity.Proxy.TrustState.Handlers.{now_of}
use clawdentity.Proxy.TrustState.Handlers.Pairing.{
  read_ticket_input, read_responder, no_callback, read_create, new_ticket, store_new_ticket,
  create_with, handle_create_pairing_ticket, status_confirmed, status_pending, status_with,
  handle_get_pairing_ticket_status,
}

-- A body of a creation that was accepted.
pub record IsInput (outside : Outside) (input : PairingTicketInput) : Type 0 where
  pub initiator : IsFilled input.initiator_agent_did
  pub profile : IsProfile outside input.initiator_profile
  pub key_x : IsFilled input.public_key_x
  pub responder : IsOptional input.allow_responder_agent_did

module _ (outside : Outside) (lawful : IsLawful outside) where
  read_responder-IsOptional :
      (v : Option Value) (r : Option String) → read_responder outside v ≡ some r → IsOptional r
  unfolding read_responder
  read_responder-IsOptional none r h = subst IsOptional (some_inj none r h) tt
  read_responder-IsOptional (some v) r h =
      let (s, hs, h1) = >>=-eq-some (non_empty_string (some v)) _ h in
      let filled = trimmed s (non_empty_string-IsFilled (some v) s hs) in
      let is_did : r ≡ some (trim s) = ground (arith, h1) in subst IsOptional (sym is_did) filled.1

  pub read_create-IsInput :
      (body : Option Value) (input : PairingTicketInput)
      → read_create outside body ≡ some input
      → IsInput outside input
  unfolding read_create read_ticket_input
  read_create-IsInput body input h =
      let (base, hb, h1) = >>=-eq-some (read_ticket_input outside body) _ h in
      let (r, hr, h2) =
        >>=-eq-some (read_responder outside (member body "allowResponderAgentDid")) _ h1 in
      let (u, hu, h3) = >>=-eq-some (no_callback outside (member body "callbackUrl")) _ h2 in
      let (profile, hp, k1) =
        >>=-eq-some (parse_peer_profile outside.parse_url (member body "initiatorProfile")) _ hb in
      let (initiator, hi, k2) =
        >>=-eq-some (non_empty_string (member body "initiatorAgentDid")) _ k1 in
      let (issuer, hs, k3) = >>=-eq-some (non_empty_string (member body "issuerProxyUrl")) _ k2 in
      let (ticket, ht, k4) = >>=-eq-some (non_empty_string (member body "ticket")) _ k3 in
      let (key_x, hx, k5) = >>=-eq-some (non_empty_string (member body "publicKeyX")) _ k4 in
      let (t, hn, k6) = >>=-eq-some (as_number (member body "expiresAtMs")) _ k5 in
      let is_base : base ≡ record {
        initiator_agent_did = initiator;
        initiator_profile = profile;
        issuer_proxy_url = issuer;
        ticket = ticket;
        public_key_x = trim key_x;
        allow_responder_agent_did = none;
        expires_at_ms = t;
      } =
        ground (arith, k6) in
      let from : IsInput outside (record base { allow_responder_agent_did = r }) =
        subst
          (λ (b : PairingTicketInput). IsInput outside (record b { allow_responder_agent_did = r }))
          (sym is_base)
          (record {
            initiator = non_empty_string-IsFilled (member body "initiatorAgentDid") initiator hi;
            profile =
                parse_peer_profile-IsProfile outside lawful (member body "initiatorProfile") profile
                  hp;
            key_x =
                (trimmed key_x (non_empty_string-IsFilled (member body "publicKeyX") key_x hx)).1;
            responder = read_responder-IsOptional (member body "allowResponderAgentDid") r hr;
          }) in
      subst (IsInput outside) (some_inj _ input h3) from

  pub new_ticket-IsPending :
      (input : PairingTicketInput) (payload : PairingTicketPayload)
      → IsInput outside input
      → outside.tickets.parse_pairing_ticket
          (outside.tickets.normalize_pairing_ticket_text input.ticket)
        ≡ ok payload
      → IsPending outside payload.kid (new_ticket outside input payload)
  new_ticket-IsPending input payload h accepted =
      let filled = lawful.ticket_filled _ payload accepted in
      record {
        ticket = record {
          payload = payload;
          accepted = accepted;
          for_kid = refl;
          for_issuer = refl;
          filled = filled.0;
        };
        initiator = h.initiator;
        profile = h.profile;
        issuer = filled.1;
        key_x = h.key_x;
        responder = h.responder;
      }

  store_new-IsScheduled :
      (input : PairingTicketInput) (payload : PairingTicketPayload) (st : Storage)
      → IsPending outside payload.kid (new_ticket outside input payload)
      → IsScheduled outside (store_new_ticket outside input payload st)
  unfolding store_new_ticket
  store_new-IsScheduled input payload st t =
      let s = load_expirable_state outside st in
      let c = load-AreCanonical outside st lawful in
      save_and_schedule-IsScheduled outside true true _ st
        (record {
          pending =
              All-set (λ e. IsPending outside e.0 e.1) s.pairing_tickets payload.kid _ c.pending t;
          pending_keys = set-IsDistinct s.pairing_tickets payload.kid _ c.pending_keys;
          confirmed =
              All-delete (λ e. IsConfirmed outside e.0 e.1) s.confirmed_pairing_tickets payload.kid
                c.confirmed;
          confirmed_keys =
              delete-IsDistinct s.confirmed_pairing_tickets payload.kid c.confirmed_keys;
        })
        (λ e. cc) (λ e. cc)

  create_with-IsScheduled :
      (now : ℕ) (input : PairingTicketInput) (o : Outcome PairingTicketPayload) (st : Storage)
      → IsInput outside input
      → outside.tickets.parse_pairing_ticket
          (outside.tickets.normalize_pairing_ticket_text input.ticket)
        ≡ o
      → IsScheduled outside st
      → IsScheduled outside (create_with outside now input o st).0
  unfolding create_with
  create_with-IsScheduled now input (failed e) st i accepted h = h
  create_with-IsScheduled now input (ok payload) st i accepted h =
      let expires_at_ms = normalize_expiry_to_whole_second input.expires_at_ms in
      elim (Bool-cases (payload.iss == input.issuer_proxy_url)) [
        | inr other ↦ rw other h
        | inl same ↦ elim (Bool-cases (nat_eq (payload.exp * 1000) expires_at_ms)) [
          | inr off ↦ rw (same, off) h
          | inl fits ↦ elim (Bool-cases (leb expires_at_ms now)) [
            | inl past ↦ rw (same, fits, past) h
            | inr live ↦
                rw (same, fits, live)
                  (store_new-IsScheduled input payload st
                    (new_ticket-IsPending input payload i accepted))
          ]
        ]
      ]

  pub create-IsScheduled :
      (clock : ℕ) (body : Option Value) (st : Storage)
      → IsScheduled outside st
      → IsScheduled outside (handle_create_pairing_ticket outside clock body st).0
  unfolding handle_create_pairing_ticket
  create-IsScheduled clock body st h = elim (Option-cases (read_create outside body)) [
    | inl e ↦ rw (e, handle_create_pairing_ticket) h
    | inr (input, e) ↦
        rw (e, handle_create_pairing_ticket)
          (create_with-IsScheduled (now_of clock body) input _ st (read_create-IsInput body input e)
            refl h)
  ]

  -- One of the two maps is saved, without one of its tickets.
  drop_pending-IsScheduled :
      (kid : String) (st : Storage)
      → let s = load_expirable_state outside st in
        IsScheduled outside (
          save_expirable_state_and_schedule outside true false
            (record s { pairing_tickets = delete s.pairing_tickets kid })
            st)
  unfolding load_expirable_state
  drop_pending-IsScheduled kid st =
      let s = load_expirable_state outside st in
      let c = load-AreCanonical outside st lawful in
      save_and_schedule-IsScheduled outside true false _ st
        (record {
          pending = All-delete (λ e. IsPending outside e.0 e.1) s.pairing_tickets kid c.pending;
          pending_keys = delete-IsDistinct s.pairing_tickets kid c.pending_keys;
          confirmed = c.confirmed;
          confirmed_keys = c.confirmed_keys;
        })
        (λ e. cc) (λ e. refl)

  drop_confirmed-IsScheduled :
      (kid : String) (st : Storage)
      → let s = load_expirable_state outside st in
        IsScheduled outside (
          save_expirable_state_and_schedule outside false true
            (record s { confirmed_pairing_tickets = delete s.confirmed_pairing_tickets kid })
            st)
  unfolding load_expirable_state
  drop_confirmed-IsScheduled kid st =
      let s = load_expirable_state outside st in
      let c = load-AreCanonical outside st lawful in
      save_and_schedule-IsScheduled outside false true _ st
        (record {
          pending = c.pending;
          pending_keys = c.pending_keys;
          confirmed =
              All-delete (λ e. IsConfirmed outside e.0 e.1) s.confirmed_pairing_tickets kid
                c.confirmed;
          confirmed_keys = delete-IsDistinct s.confirmed_pairing_tickets kid c.confirmed_keys;
        })
        (λ e. refl) (λ e. cc)

  status_confirmed-IsScheduled :
      (now : ℕ) (ticket : String) (payload : PairingTicketPayload) (o : Option ConfirmedTicket)
      (st : Storage)
      → IsScheduled outside st
      → IsScheduled outside
          (status_confirmed outside now ticket payload o (load_expirable_state outside st) st).0
  unfolding status_confirmed
  status_confirmed-IsScheduled now ticket payload none st h = h
  status_confirmed-IsScheduled now ticket payload (some t) st h =
      elim (Bool-cases (t.ticket == ticket)) [
        | inr other ↦ rw other h
        | inl same ↦ elim (Bool-cases (is_past now t.expires_at_ms payload)) [
          | inl past ↦ rw (same, past) (drop_confirmed-IsScheduled payload.kid st)
          | inr live ↦ rw (same, live) h
        ]
      ]

  status_pending-IsScheduled :
      (now : ℕ) (ticket : String) (payload : PairingTicketPayload) (o : Option StoredTicket)
      (st : Storage)
      → IsScheduled outside st
      → IsScheduled outside
          (status_pending outside now ticket payload o (load_expirable_state outside st) st).0
  unfolding status_pending
  status_pending-IsScheduled now ticket payload none st h =
      status_confirmed-IsScheduled now ticket payload _ st h
  status_pending-IsScheduled now ticket payload (some t) st h =
      elim (Bool-cases (t.ticket == ticket)) [
        | inr other ↦ rw other (status_confirmed-IsScheduled now ticket payload _ st h)
        | inl same ↦ elim (Bool-cases (is_past now t.expires_at_ms payload)) [
          | inl past ↦ rw (same, past) (drop_pending-IsScheduled payload.kid st)
          | inr live ↦ rw (same, live) h
        ]
      ]

  status_with-IsScheduled :
      (now : ℕ) (ticket : String) (o : Outcome PairingTicketPayload) (st : Storage)
      → IsScheduled outside st
      → IsScheduled outside (status_with outside now ticket o st).0
  unfolding status_with
  status_with-IsScheduled now ticket (failed e) st h = h
  status_with-IsScheduled now ticket (ok payload) st h =
      status_pending-IsScheduled now ticket payload _ st h

  pub status-IsScheduled :
      (clock : ℕ) (body : Option Value) (st : Storage)
      → IsScheduled outside st
      → IsScheduled outside (handle_get_pairing_ticket_status outside clock body st).0
  unfolding handle_get_pairing_ticket_status
  status-IsScheduled clock body st h =
      elim (Option-cases (non_empty_string (member body "ticket"))) [
        | inl e ↦ rw (e, handle_get_pairing_ticket_status) h
        | inr (raw, e) ↦
            rw (e, handle_get_pairing_ticket_status)
              (status_with-IsScheduled (now_of clock body) _ _ st h)
      ]
