-- ===== src/Proxy/TrustState/Handlers/Paired.antt =====
-- The answers after a confirmation that succeeded.
use clawdentity.Shared.{
  ℕ, String, true, ◌==◌, ◌||◌, ◌≡◌, refl, sym, ap, ◌∙◌, Option, none, some, arith, subst,
  if◌then◌else◌, eq_iff, if_both, ◌≢◌,
}
use clawdentity.Shared.Dict.{get, get-set_self}
use clawdentity.Shared.Json.{Value}
use clawdentity.Proxy.Trust.Keys.{to_pair_key}
use clawdentity.Proxy.Trust.Types.{
  Outcome, ok, failed, PairingTicketConfirmInput, PairingTicketConfirmResult, PairingTicketPayload,
  StoredTicket, ConfirmedTicket,
}
use clawdentity.Proxy.Trust.Store.{has}
use clawdentity.Proxy.Trust.Confirm.{is_for}
use clawdentity.Proxy.TrustState.Utils.{Outside}
use clawdentity.Proxy.TrustState.Storage.{
  Storage, ExpirableTrustState, load_pairs, load_expirable_state,
}
use clawdentity.Proxy.TrustState.Storage.Canonical.{IsLawful}
use clawdentity.Proxy.TrustState.Handlers.{
  Answer, json, error_response, allowed, ticket_confirmed, now_of, read_pair, save_pair,
  handle_is_pair_allowed,
}
use clawdentity.Proxy.TrustState.Handlers.Pairing.{parse_failure}
use clawdentity.Proxy.TrustState.Handlers.Created.{load-save_and_schedule}
use clawdentity.Proxy.TrustState.Handlers.Confirm.{
  Confirming, Begun, answered, waits, read_confirm, begin_found, begin_with, begin_confirm,
  confirmed_ticket, store_confirmed, finish_confirm, finish_begun, handle_confirm_pairing_ticket,
}
use clawdentity.Proxy.TrustState.Handlers.Confirming.{
  IsWaiting, BegunWaits, begin-Waits, confirmed_state, confirmed_state-AreCanonical,
}
use clawdentity.Proxy.TrustState.Handlers.Allowed.{
  save_pair-pairs, save_and_schedule-pairs, finish-IsStored,
}

-- A confirmation with this input waits, or it is refused.
abbrev WaitsFor : PairingTicketConfirmInput → Begun → Type 0
WaitsFor input (answered r) = (a : Answer) → r ≢ json a
WaitsFor input (waits c) = c.awaiting.input ≡ input

module _ (outside : Outside) where
  begin_with-WaitsFor :
      (now : ℕ) (input : PairingTicketConfirmInput) (o : Outcome PairingTicketPayload)
      (st : Storage)
      → WaitsFor input (begin_with outside now input o st)
  unfolding begin_with parse_failure
  begin_with-WaitsFor now input (failed e) st = λ a h. ground (arith, h)
  begin_with-WaitsFor now input (ok payload) st =
      let s = load_expirable_state outside st in
      if_both (WaitsFor input)
        (is_for (outside.tickets.normalize_pairing_ticket_text input.ticket)
          (get s.confirmed_pairing_tickets payload.kid))
        _ _ (λ a h. cc) (found (get s.pairing_tickets payload.kid) s)
    where
      found :
          (o : Option StoredTicket) (s : ExpirableTrustState)
          → WaitsFor input (begin_found outside now input payload o s)
      found none s = λ a h. cc
      found (some t) s = refl

  begin-WaitsFor :
      (clock : ℕ) (body : Option Value) (input : PairingTicketConfirmInput) (st : Storage)
      → read_confirm outside body ≡ some input
      → WaitsFor input (begin_confirm outside clock body st)
  unfolding begin_confirm
  begin-WaitsFor clock body input st e =
      rw (e, begin_confirm) (begin_with-WaitsFor (now_of clock body) input _ st)

  confirmed-refuses :
      (clock : ℕ) (body : Option Value) (input : PairingTicketConfirmInput) (st : Storage)
      (payload : PairingTicketPayload) (t : ConfirmedTicket)
      → read_confirm outside body ≡ some input
      → outside.tickets.parse_pairing_ticket
          (outside.tickets.normalize_pairing_ticket_text input.ticket)
        ≡ ok payload
      → get (load_expirable_state outside st).confirmed_pairing_tickets payload.kid ≡ some t
      → t.ticket ≡ outside.tickets.normalize_pairing_ticket_text input.ticket
      → (handle_confirm_pairing_ticket outside clock body st).1
        ≡ error_response "PROXY_PAIR_TICKET_ALREADY_CONFIRMED" 409
  unfolding handle_confirm_pairing_ticket begin_confirm begin_with is_for finish_begun
  confirmed-refuses clock body input st payload t e accepted found same =
      let text_same : (t.ticket == outside.tickets.normalize_pairing_ticket_text input.ticket)
          ≡ true =
        (eq_iff _ _).1 same in
      rw (e, begin_confirm, accepted, found, text_same) refl

  -- The ticket of a confirmation that is stored is there.
  store_confirmed-get :
      (c : Confirming) (st : Storage)
      → IsLawful outside
      → IsWaiting outside c
      → c.awaiting.stored.issuer_proxy_url ≡ c.awaiting.parsed.iss
      → get
          (load_expirable_state outside (store_confirmed outside c st)).confirmed_pairing_tickets
          c.awaiting.parsed.kid
        ≡ some (confirmed_ticket outside c.awaiting)
  unfolding store_confirmed
  store_confirmed-get c st lawful w same =
      ap (λ s. get s.confirmed_pairing_tickets c.awaiting.parsed.kid)
        (load-save_and_schedule outside (confirmed_state outside c)
          (save_pair c.awaiting.stored.initiator_agent_did c.awaiting.input.responder_agent_did st)
          (confirmed_state-AreCanonical outside c lawful w same))
      ∙ get-set_self c.read_state.confirmed_pairing_tickets c.awaiting.parsed.kid
          (confirmed_ticket outside c.awaiting)

  store_confirmed-pairs :
      (c : Confirming) (st : Storage) (k : String)
      → has (load_pairs (store_confirmed outside c st)) k ≡ (
          has (load_pairs st) k
          || to_pair_key c.awaiting.stored.initiator_agent_did c.awaiting.input.responder_agent_did
            == k)
  unfolding store_confirmed
  store_confirmed-pairs c st k =
      ap (λ ks. has ks k) (save_and_schedule-pairs outside (confirmed_state outside c) _)
      ∙ save_pair-pairs c.awaiting.stored.initiator_agent_did c.awaiting.input.responder_agent_did
          st k

pub check-allowed :
    (body : Option Value) (st : Storage) (i j : String)
    → read_pair body ≡ some (i, j)
    → (handle_is_pair_allowed body st).1
      ≡ json (allowed (if i == j then true else has (load_pairs st) (to_pair_key i j)))
unfolding handle_is_pair_allowed
check-allowed body st i j e = rw (e, handle_is_pair_allowed) refl

-- What holds of the answers after a confirmation.
pub record IsPaired (outside : Outside) (st st' : Storage) (ticket : String)
    (r : PairingTicketConfirmResult) : Type 0 where
  -- Exactly one more pair is allowed.
  pub pairs :
      (body : Option Value) (i j : String)
      → read_pair body ≡ some (i, j)
      → (handle_is_pair_allowed body st').1
        ≡ json (
            allowed (
              if i == j
              then true
              else has (load_pairs st) (to_pair_key i j)
                || to_pair_key r.initiator_agent_did r.responder_agent_did == to_pair_key i j))
  -- The ticket is refused, whoever confirms it.
  pub used :
      (clock : ℕ) (body : Option Value) (input : PairingTicketConfirmInput)
      → read_confirm outside body ≡ some input
      → outside.tickets.normalize_pairing_ticket_text input.ticket ≡ ticket
      → (handle_confirm_pairing_ticket outside clock body st').1
        ≡ error_response "PROXY_PAIR_TICKET_ALREADY_CONFIRMED" 409

module _ (outside : Outside) where
  finish-IsPaired :
      (c : Confirming) (st : Storage) (r : PairingTicketConfirmResult)
      → IsLawful outside
      → IsWaiting outside c
      → (finish_confirm outside c st).1 ≡ json (ticket_confirmed r)
      → IsPaired outside st
          (finish_confirm outside c st).0
          (outside.tickets.normalize_pairing_ticket_text c.awaiting.input.ticket)
          r
  finish-IsPaired c st r lawful w h =
      let s = finish-IsStored outside c st r h in
      subst
        (λ x.
          IsPaired outside st x
            (outside.tickets.normalize_pairing_ticket_text c.awaiting.input.ticket) r)
        (sym s.stored)
        (record {
          pairs = λ body i j e.
              check-allowed body _ i j e
              ∙ ap (λ b. json (allowed (if i == j then true else b)))
                  (store_confirmed-pairs outside c st (to_pair_key i j)
                    ∙ ap
                        (λ p.
                          has (load_pairs st) (to_pair_key i j)
                          || to_pair_key p.initiator_agent_did p.responder_agent_did
                            == to_pair_key i j)
                        s.pair);
          used = λ clock body input e same_text.
              confirmed-refuses outside clock body input _ c.awaiting.parsed
                (confirmed_ticket outside c.awaiting) e
                (ap outside.tickets.parse_pairing_ticket same_text ∙ w.accepted)
                (store_confirmed-get outside c st lawful w s.issuer) (sym same_text);
        })

  begun-IsPaired :
      (b : Begun) (input : PairingTicketConfirmInput) (st : Storage)
      (r : PairingTicketConfirmResult)
      → IsLawful outside
      → BegunWaits outside b
      → WaitsFor input b
      → (finish_begun outside b st).1 ≡ json (ticket_confirmed r)
      → IsPaired outside st
          (finish_begun outside b st).0
          (outside.tickets.normalize_pairing_ticket_text input.ticket)
          r
  unfolding finish_begun
  begun-IsPaired (answered x) input st r lawful w for h = absurd (for _ h)
  begun-IsPaired (waits c) input st r lawful w for h =
      subst
        (λ i.
          IsPaired outside st (finish_confirm outside c st).0
            (outside.tickets.normalize_pairing_ticket_text i.ticket) r)
        for (finish-IsPaired c st r lawful w h)

  -- When a confirmation succeeds and no other request ran while it waited: two different agents are
  -- allowed afterwards exactly if they were before or have the key of the pair in its answer, and the
  -- next confirmation with a text of the ticket is refused as already confirmed, whoever asks.
  pub confirm-IsPaired :
      (clock : ℕ) (body : Option Value) (input : PairingTicketConfirmInput) (st : Storage)
      (r : PairingTicketConfirmResult)
      → IsLawful outside
      → read_confirm outside body ≡ some input
      → (handle_confirm_pairing_ticket outside clock body st).1 ≡ json (ticket_confirmed r)
      → IsPaired outside st
          (handle_confirm_pairing_ticket outside clock body st).0
          (outside.tickets.normalize_pairing_ticket_text input.ticket)
          r
  unfolding handle_confirm_pairing_ticket
  confirm-IsPaired clock body input st r lawful e h =
      begun-IsPaired (begin_confirm outside clock body st) input st r lawful
        (begin-Waits outside lawful clock body st) (begin-WaitsFor outside clock body input st e) h
