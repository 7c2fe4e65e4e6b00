-- ===== src/Proxy/Trust/Tickets/Created.antt =====
-- A ticket that was created is pending, and can be confirmed, until it expires.
use clawdentity.Shared.{
  ℕ, ◌*◌, ◌<◌, ◌≡◌, refl, ◌∙◌, ap, String, true, false, Option, none, some, arith, eq_iff, eq_refl,
}
use clawdentity.Shared.Dict.{
  get, get-set_self, get-delete_self, get-retain_of_keep, get-retain-none,
}
use clawdentity.Shared.Text.{trim}
use clawdentity.Proxy.Trust.Keys.{normalize_expiry_to_whole_second}
use clawdentity.Proxy.Trust.Types.{
  TrustState, TicketFunctions, Outcome, ok, failed, PairingTicketInput, PairingTicketResult,
  PairingTicketConfirmInput, PairingTicketConfirmResult, PairingTicketPayload, StoredTicket,
}
use clawdentity.Proxy.Trust.Store.{cleanup, keeps}
use clawdentity.Proxy.Trust.Confirm.{
  begin_confirm, begin_parsed, begin_stored, finish_confirm, finish_begun, confirm_pairing_ticket,
  is_past, is_for, forbids,
}
use clawdentity.Proxy.Trust.Tickets.{
  create_pairing_ticket, create_parsed, store_ticket, normalize_responder, stored_ticket, created,
}

-- The store holds this pending ticket, and no confirmed one of its id.
abbrev IsPending : String → StoredTicket → TrustState → Type 0
IsPending kid t s =
    (get s.pairing_tickets kid ≡ some t) × (get s.confirmed_pairing_tickets kid ≡ none)

-- A cleanup that skips a ticket leaves it.
cleanup-IsPending :
    (now : ℕ) (kid : String) (t : StoredTicket) (s : TrustState)
    → IsPending kid t s
    → IsPending kid t (cleanup now (some kid) s)
unfolding cleanup keeps
cleanup-IsPending now kid t s (h, h') = (
  get-retain_of_keep _ s.pairing_tickets kid t h (ground (arith, eq_refl kid)),
  get-retain-none _ s.confirmed_pairing_tickets kid h',
)

-- The pair that a confirmation of this ticket returns.
abbrev pub agreed : StoredTicket → PairingTicketConfirmInput → PairingTicketConfirmResult
agreed t c = record {
  initiator_agent_did = t.initiator_agent_did;
  initiator_profile = t.initiator_profile;
  responder_agent_did = c.responder_agent_did;
  responder_profile = c.responder_profile;
  issuer_proxy_url = t.issuer_proxy_url;
}

module _ (fns : TicketFunctions) where
  -- A call that succeeds has passed its guards.
  create_passes :
      (input : PairingTicketInput) (parsed : PairingTicketPayload) (s : TrustState)
      (r : PairingTicketResult)
      → (create_parsed fns input (ok parsed) s).1 ≡ ok r
      → (create_parsed fns input (ok parsed) s
          ≡ store_ticket fns input parsed
              (normalize_responder fns input.allow_responder_agent_did)
              s)
        × (parsed.exp * 1000 ≡ normalize_expiry_to_whole_second input.expires_at_ms)
  unfolding create_parsed
  create_passes input parsed s r h = ground arith

  -- What is stored: the ticket for this responder, pending.
  abbrev Stores :
      PairingTicketInput
      → PairingTicketPayload
      → Option String
      → PairingTicketResult
      → TrustState
      → Type 0
  Stores input parsed responder r t =
      (r ≡ created (stored_ticket fns input parsed responder))
      × IsPending parsed.kid (stored_ticket fns input parsed responder) t

  store-Stores :
      (input : PairingTicketInput) (parsed : PairingTicketPayload) (o : Outcome (Option String))
      (s : TrustState) (r : PairingTicketResult)
      → (store_ticket fns input parsed o s).1 ≡ ok r
      → (responder : Option String) × ((o ≡ ok responder)
          × Stores input parsed responder r (store_ticket fns input parsed o s).0)
  unfolding store_ticket
  store-Stores input parsed (failed e) s r h = cc
  store-Stores input parsed (ok responder) s r h = (
    responder,
    (
      refl,
      (
        cc (h),
        (
          get-set_self s.pairing_tickets parsed.kid _,
          get-delete_self s.confirmed_pairing_tickets parsed.kid,
        ),
      ),
    ),
  )

  create-Stores :
      (now : ℕ) (input : PairingTicketInput) (parsed : PairingTicketPayload) (s : TrustState)
      (r : PairingTicketResult)
      → fns.parse_pairing_ticket (fns.normalize_pairing_ticket_text input.ticket) ≡ ok parsed
      → (create_pairing_ticket fns now input s).1 ≡ ok r
      → (responder : Option String) × ((normalize_responder fns input.allow_responder_agent_did
            ≡ ok responder)
          × ((parsed.exp * 1000 ≡ normalize_expiry_to_whole_second input.expires_at_ms)
              × Stores input parsed responder r (create_pairing_ticket fns now input s).0))
  unfolding create_pairing_ticket
  create-Stores now input parsed s r e h =
      let h' : (create_parsed fns input (ok parsed) (cleanup now none s)).1 ≡ ok r = rw e at h in
      let (same, expiry) = create_passes input parsed (cleanup now none s) r h' in
      let (responder, (norm, stores)) =
        store-Stores input parsed _ (cleanup now none s) r (rw same at h') in
      (responder, (norm, (expiry, rw (e, same) stores)))

  pending_confirm :
      (now confirm_ms : ℕ) (c : PairingTicketConfirmInput) (parsed : PairingTicketPayload)
      (t : StoredTicket) (s : TrustState)
      → fns.parse_pairing_ticket (fns.normalize_pairing_ticket_text c.ticket) ≡ ok parsed
      → IsPending parsed.kid t s
      → fns.verify_pairing_ticket_signature parsed t.public_key_x ≡ true
      → now < t.expires_at_ms
      → now < parsed.exp * 1000
      → t.issuer_proxy_url ≡ parsed.iss
      → forbids t.allow_responder_agent_did c.responder_agent_did ≡ false
      → (confirm_pairing_ticket fns now confirm_ms c s).1 ≡ ok (agreed t c)
  unfolding confirm_pairing_ticket begin_confirm begin_parsed begin_stored is_for finish_begun
      finish_confirm is_past
  pending_confirm now confirm_ms c parsed t s e h signed early early' issuer permitted =
      let (h', h'') = cleanup-IsPending now parsed.kid t s h in
      rw (e, h', h'')
        (ground
          (arith, signed, early, early', eq_iff t.issuer_proxy_url parsed.iss, issuer, permitted))

  -- A ticket that was created is confirmed by a responder who presents it before its expiry with the
  -- signature of the stored key and whom the ticket does not exclude; the pair that is returned is
  -- the initiator of the ticket and this responder.
  pub create-confirm :
      (now later confirm_ms : ℕ) (input : PairingTicketInput) (c : PairingTicketConfirmInput)
      (s : TrustState) (parsed : PairingTicketPayload) (r : PairingTicketResult)
      → fns.parse_pairing_ticket (fns.normalize_pairing_ticket_text input.ticket) ≡ ok parsed
      → (create_pairing_ticket fns now input s).1 ≡ ok r
      → fns.normalize_pairing_ticket_text c.ticket ≡ fns.normalize_pairing_ticket_text input.ticket
      → later < r.expires_at_ms
      → fns.verify_pairing_ticket_signature parsed (trim input.public_key_x) ≡ true
      → ((did : String)
          → normalize_responder fns input.allow_responder_agent_did ≡ ok (some did)
          → did ≡ c.responder_agent_did)
      → (t : StoredTicket) × (((confirm_pairing_ticket fns later confirm_ms c
              (create_pairing_ticket fns now input s).0).1
            ≡ ok (agreed t c))
          × (r ≡ created t))
  unfolding forbids
  create-confirm now later confirm_ms input c s parsed r e h same early signed permitted =
      let (responder, (norm, (expiry, (result, stores)))) =
        create-Stores now input parsed s r e h in
      let t = stored_ticket fns input parsed responder in
      let expires : r.expires_at_ms ≡ normalize_expiry_to_whole_second input.expires_at_ms =
        cc (result) in
      (
        t,
        (
          pending_confirm later confirm_ms c parsed t _ (ap fns.parse_pairing_ticket same ∙ e)
              stores signed (omega (arith, early, expires)) (omega (arith, early, expires, expiry))
              refl (permits responder (λ did k. permitted did (norm ∙ ap ok k))),
          result,
        ),
      )
    where
      permits :
          (o : Option String)
          → ((did : String) → o ≡ some did → did ≡ c.responder_agent_did)
          → forbids o c.responder_agent_did ≡ false
      permits none k = refl
      permits (some did) k = ground (arith, eq_iff did c.responder_agent_did, k did refl)
