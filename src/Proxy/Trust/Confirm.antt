-- ===== src/Proxy/Trust/Confirm.antt =====
-- apps/proxy/src/proxy-trust-store.ts, `confirmPairingTicket`. It awaits the check of the signature,
-- where other calls may run: it is `begin_confirm`, up to the `await`, and `finish_confirm` after it.
pub mod Trusted
use clawdentity.Shared.{
  ℕ, ◌*◌, String, Bool, true, false, not, ◌||◌, Option, none, some, ◌==◌, leb, if◌then◌else◌,
}
use clawdentity.Shared.Dict.{get, set, delete}
use clawdentity.Proxy.Trust.Keys.{normalize_expiry_to_whole_second}
use clawdentity.Proxy.Trust.Types.{
  TrustState, Outcome, ok, failed, ticket_not_found, ticket_already_confirmed,
  ticket_invalid_signature, ticket_expired, ticket_invalid_issuer, responder_forbidden,
  TicketFunctions, StoredTicket, ConfirmedTicket, PairingTicketPayload, PairingTicketConfirmInput,
  PairingTicketConfirmResult,
}
use clawdentity.Proxy.Trust.Store.{cleanup, upsert_pair}

unfoldable pub is_past : ℕ → ℕ → PairingTicketPayload → Bool
is_past now expires_at_ms parsed = leb expires_at_ms now || leb (parsed.exp * 1000) now

-- What `confirmPairingTicket` holds while it awaits the check of the signature.
pub record Awaiting : Type 0 where
  pub input : PairingTicketConfirmInput
  pub now_ms : ℕ
  pub parsed : PairingTicketPayload
  pub stored : StoredTicket

unfoldable pub is_for : String → Option ConfirmedTicket → Bool
is_for text none = false
is_for text (some t) = t.ticket == text

unfoldable pub begin_stored :
    ℕ → PairingTicketConfirmInput → PairingTicketPayload → Option StoredTicket → Outcome Awaiting
begin_stored now input parsed none = failed ticket_not_found
begin_stored now input parsed (some stored) =
    ok (record { input = input; now_ms = now; parsed = parsed; stored = stored })

abbrev pub confirmed_pair : Awaiting → PairingTicketConfirmResult
confirmed_pair a = record {
  initiator_agent_did = a.stored.initiator_agent_did;
  initiator_profile = a.stored.initiator_profile;
  responder_agent_did = a.input.responder_agent_did;
  responder_profile = a.input.responder_profile;
  issuer_proxy_url = a.stored.issuer_proxy_url;
}

unfoldable pub forbids : Option String → String → Bool
forbids none responder = false
forbids (some allowed) responder = not (allowed == responder)

module _ (fns : TicketFunctions) where
  unfoldable pub begin_parsed :
      ℕ
      → PairingTicketConfirmInput
      → Outcome PairingTicketPayload
      → TrustState
      → TrustState × Outcome Awaiting
  unfolding is_for begin_stored
  begin_parsed now input (failed e) s = (s, failed e)
  begin_parsed now input (ok parsed) s =
      let s' = cleanup now (some parsed.kid) s in
      let text = fns.normalize_pairing_ticket_text input.ticket in
      let already = get s'.confirmed_pairing_tickets parsed.kid in
      (
        s',
        if is_for text already
            then failed ticket_already_confirmed
            else begin_stored now input parsed (get s'.pairing_tickets parsed.kid),
      )

  unfoldable pub begin_confirm :
      ℕ → PairingTicketConfirmInput → TrustState → TrustState × Outcome Awaiting
  unfolding begin_parsed
  begin_confirm now input s =
      begin_parsed now input
        (fns.parse_pairing_ticket (fns.normalize_pairing_ticket_text input.ticket)) s

  -- The pair is allowed and the ticket moves to the confirmed ones; `confirm_ms` is the time that
  -- is read again for `confirmedAtMs`.
  unfoldable pub complete : ℕ → Awaiting → TrustState → TrustState
  complete confirm_ms a s =
      let paired = upsert_pair a.stored.initiator_agent_did a.input.responder_agent_did s in
      record paired {
        pairing_tickets = delete s.pairing_tickets a.parsed.kid;
        confirmed_pairing_tickets = set s.confirmed_pairing_tickets a.parsed.kid (record {
          ticket = fns.normalize_pairing_ticket_text a.input.ticket;
          expires_at_ms = a.stored.expires_at_ms;
          pair = confirmed_pair a;
          confirmed_at_ms = normalize_expiry_to_whole_second confirm_ms;
        });
      }

  unfoldable pub finish_confirm :
      ℕ → Awaiting → TrustState → TrustState × Outcome PairingTicketConfirmResult
  unfolding forbids
  finish_confirm confirm_ms a s =
      if not (fns.verify_pairing_ticket_signature a.parsed a.stored.public_key_x)
      then (s, failed ticket_invalid_signature)
      else if is_past a.now_ms a.stored.expires_at_ms a.parsed
      then (
        record s { pairing_tickets = delete s.pairing_tickets a.parsed.kid },
        failed ticket_expired,
      )
      else if not (a.stored.issuer_proxy_url == a.parsed.iss)
      then (s, failed ticket_invalid_issuer)
      else if forbids a.stored.allow_responder_agent_did a.input.responder_agent_did
      then (s, failed responder_forbidden)
      else (complete confirm_ms a s, ok (confirmed_pair a))

  unfoldable pub finish_begun :
      ℕ → TrustState × Outcome Awaiting → TrustState × Outcome PairingTicketConfirmResult
  finish_begun confirm_ms (s, failed e) = (s, failed e)
  finish_begun confirm_ms (s, ok a) = finish_confirm confirm_ms a s

  -- The whole call where no other call runs at its `await`.
  unfoldable pub confirm_pairing_ticket :
      ℕ
      → ℕ
      → PairingTicketConfirmInput
      → TrustState
      → TrustState × Outcome PairingTicketConfirmResult
  unfolding finish_begun
  confirm_pairing_ticket now confirm_ms input s =
      finish_begun confirm_ms (begin_confirm now input s)
