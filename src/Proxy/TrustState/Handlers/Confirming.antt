-- ===== src/Proxy/TrustState/Handlers/Confirming.antt =====
-- A confirmation keeps the alarm at the earliest expiry of what is stored, whatever was stored while
-- it waited.
use clawdentity.Shared.{
  ℕ, true, ◌==◌, ◌≡◌, refl, sym, Option, none, some, subst, Bool-cases, Option-cases, inl, inr,
  eq_iff,
}
use clawdentity.Shared.Dict.{
  get, set, delete, set-IsDistinct, delete-IsDistinct, All-set, All-delete, All-get,
}
use clawdentity.Shared.Json.{Value, member, non_empty_string}
use clawdentity.Proxy.Trust.Types.{
  Outcome, ok, failed, PairingTicketConfirmInput, PairingTicketPayload, StoredTicket,
}
use clawdentity.Proxy.Trust.Confirm.{is_past, is_for, forbids}
use clawdentity.Proxy.TrustState.Utils.{Outside, parse_peer_profile}
use clawdentity.Proxy.TrustState.Storage.{Storage, ExpirableTrustState, load_expirable_state}
use clawdentity.Proxy.TrustState.Storage.Canonical.{
  IsLawful, IsFilled, IsProfile, non_empty_string-IsFilled, >>=-eq-some, some_inj,
  parse_peer_profile-IsProfile,
}
use clawdentity.Proxy.TrustState.Storage.Rereads.{IsPending, IsConfirmed}
use clawdentity.Proxy.TrustState.Storage.Saved.{AreCanonical, load-AreCanonical}
use clawdentity.Proxy.TrustState.Storage.Scheduled.{IsScheduled, save_and_schedule-IsScheduled}
use clawdentity.Proxy.TrustState.Handlers.{now_of}
use clawdentity.Proxy.TrustState.Handlers.Confirm.{
  Confirming, Begun, answered, waits, read_confirm, begin_found, begin_with, begin_confirm,
  confirmed_ticket, store_confirmed, drop_expired, finish_confirm, finish_begun,
}

-- A body of a confirmation that was accepted.
pub record IsConfirmInput (outside : Outside) (input : PairingTicketConfirmInput) : Type 0 where
  pub responder : IsFilled input.responder_agent_did
  pub profile : IsProfile outside input.responder_profile

-- A confirmation at its `await`: its ticket is one of the tickets that it has read.
pub record IsWaiting (outside : Outside) (c : Confirming) : Type 0 where
  pub canonical : AreCanonical outside c.read_state
  pub input : IsConfirmInput outside c.awaiting.input
  pub accepted :
      outside.tickets.parse_pairing_ticket
        (outside.tickets.normalize_pairing_ticket_text c.awaiting.input.ticket)
      ≡ ok c.awaiting.parsed
  pub stored : get c.read_state.pairing_tickets c.awaiting.parsed.kid ≡ some c.awaiting.stored

-- What is begun waits for a ticket, if it waits.
abbrev pub BegunWaits : Outside → Begun → Type 0
BegunWaits outside (answered r) = Unit
BegunWaits outside (waits c) = IsWaiting outside c

module _ (outside : Outside) (lawful : IsLawful outside) where
  read_confirm-IsConfirmInput :
      (body : Option Value) (input : PairingTicketConfirmInput)
      → read_confirm outside body ≡ some input
      → IsConfirmInput outside input
  unfolding read_confirm
  read_confirm-IsConfirmInput body input h =
      let (profile, hp, h1) =
        >>=-eq-some (parse_peer_profile outside.parse_url (member body "responderProfile")) _ h in
      let (ticket, ht, h2) = >>=-eq-some (non_empty_string (member body "ticket")) _ h1 in
      let (responder, hr, h3) =
        >>=-eq-some (non_empty_string (member body "responderAgentDid")) _ h2 in
      subst (IsConfirmInput outside) (some_inj _ input h3) (record {
        responder = non_empty_string-IsFilled (member body "responderAgentDid") responder hr;
        profile =
            parse_peer_profile-IsProfile outside lawful (member body "responderProfile") profile hp;
      })

  begin_found-Waits :
      (now : ℕ) (input : PairingTicketConfirmInput) (payload : PairingTicketPayload)
      (o : Option StoredTicket) (st : Storage)
      → IsConfirmInput outside input
      → outside.tickets.parse_pairing_ticket
          (outside.tickets.normalize_pairing_ticket_text input.ticket)
        ≡ ok payload
      → get (load_expirable_state outside st).pairing_tickets payload.kid ≡ o
      → BegunWaits outside
          (begin_found outside now input payload o (load_expirable_state outside st))
  unfolding begin_found
  begin_found-Waits now input payload none st i p h = tt
  begin_found-Waits now input payload (some stored) st i p h = record {
    canonical = load-AreCanonical outside st lawful;
    input = i;
    accepted = p;
    stored = h;
  }

  begin_with-Waits :
      (now : ℕ) (input : PairingTicketConfirmInput) (o : Outcome PairingTicketPayload)
      (st : Storage)
      → IsConfirmInput outside input
      → outside.tickets.parse_pairing_ticket
          (outside.tickets.normalize_pairing_ticket_text input.ticket)
        ≡ o
      → BegunWaits outside (begin_with outside now input o st)
  unfolding begin_with
  begin_with-Waits now input (failed e) st i p = tt
  begin_with-Waits now input (ok payload) st i p =
      elim (Bool-cases (
        is_for (outside.tickets.normalize_pairing_ticket_text input.ticket)
          (get (load_expirable_state outside st).confirmed_pairing_tickets payload.kid))) [
            | inl already ↦ rw already tt
            | inr first ↦ rw first (begin_found-Waits now input payload _ st i p refl)
          ]

  pub begin-Waits :
      (clock : ℕ) (body : Option Value) (st : Storage)
      → BegunWaits outside (begin_confirm outside clock body st)
  unfolding begin_confirm
  begin-Waits clock body st = elim (Option-cases (read_confirm outside body)) [
    | inl e ↦ rw (e, begin_confirm) tt
    | inr (input, e) ↦
        rw (e, begin_confirm)
          (begin_with-Waits (now_of clock body) input _ st
            (read_confirm-IsConfirmInput body input e) refl)
  ]

module _ (outside : Outside) where
  stored-IsPending :
      (c : Confirming)
      → IsWaiting outside c
      → IsPending outside c.awaiting.parsed.kid c.awaiting.stored
  stored-IsPending c w =
      All-get (λ e. IsPending outside e.0 e.1) c.read_state.pairing_tickets c.awaiting.parsed.kid
        c.awaiting.stored w.canonical.pending w.stored

  -- The tickets that a successful confirmation saves.
  abbrev pub confirmed_state : Confirming → ExpirableTrustState
  confirmed_state c = record {
    pairing_tickets = delete c.read_state.pairing_tickets c.awaiting.parsed.kid;
    confirmed_pairing_tickets =
        set c.read_state.confirmed_pairing_tickets c.awaiting.parsed.kid
          (confirmed_ticket outside c.awaiting);
  }

  pub confirmed_state-AreCanonical :
      (c : Confirming)
      → IsLawful outside
      → IsWaiting outside c
      → c.awaiting.stored.issuer_proxy_url ≡ c.awaiting.parsed.iss
      → AreCanonical outside (confirmed_state c)
  confirmed_state-AreCanonical c lawful w same =
      let s = c.read_state in
      let kid = c.awaiting.parsed.kid in
      let t = stored-IsPending c w in
      record {
        pending =
            All-delete (λ e. IsPending outside e.0 e.1) s.pairing_tickets kid w.canonical.pending;
        pending_keys = delete-IsDistinct s.pairing_tickets kid w.canonical.pending_keys;
        confirmed =
            All-set (λ e. IsConfirmed outside e.0 e.1) s.confirmed_pairing_tickets kid _
              w.canonical.confirmed
              (record {
                ticket = record {
                  payload = c.awaiting.parsed;
                  accepted = w.accepted;
                  for_kid = refl;
                  for_issuer = sym same;
                  filled = (lawful.ticket_filled _ c.awaiting.parsed w.accepted).0;
                };
                initiator = t.initiator;
                profile = t.profile;
                responder = w.input.responder;
                responder_profile = w.input.profile;
                issuer = t.issuer;
              });
        confirmed_keys =
            set-IsDistinct s.confirmed_pairing_tickets kid _ w.canonical.confirmed_keys;
      }

  drop_expired-IsScheduled :
      (c : Confirming) (st : Storage)
      → IsWaiting outside c
      → IsScheduled outside (drop_expired outside c st)
  unfolding drop_expired
  drop_expired-IsScheduled c st w =
      let s = c.read_state in
      let kid = c.awaiting.parsed.kid in
      save_and_schedule-IsScheduled outside true true _ st
        (record {
          pending =
              All-delete (λ e. IsPending outside e.0 e.1) s.pairing_tickets kid w.canonical.pending;
          pending_keys = delete-IsDistinct s.pairing_tickets kid w.canonical.pending_keys;
          confirmed =
              All-delete (λ e. IsConfirmed outside e.0 e.1) s.confirmed_pairing_tickets kid
                w.canonical.confirmed;
          confirmed_keys =
              delete-IsDistinct s.confirmed_pairing_tickets kid w.canonical.confirmed_keys;
        })
        (λ e. cc) (λ e. cc)

  pub store_confirmed-IsScheduled :
      (c : Confirming) (st : Storage)
      → IsLawful outside
      → IsWaiting outside c
      → c.awaiting.stored.issuer_proxy_url ≡ c.awaiting.parsed.iss
      → IsScheduled outside (store_confirmed outside c st)
  unfolding store_confirmed
  store_confirmed-IsScheduled c st lawful w same =
      save_and_schedule-IsScheduled outside true true (confirmed_state c) _
        (confirmed_state-AreCanonical c lawful w same) (λ e. cc) (λ e. cc)

  pub finish-IsScheduled :
      (c : Confirming) (st : Storage)
      → IsLawful outside
      → IsWaiting outside c
      → IsScheduled outside st
      → IsScheduled outside (finish_confirm outside c st).0
  unfolding finish_confirm
  finish-IsScheduled c st lawful w h =
      let a = c.awaiting in
      elim (Bool-cases
        (outside.tickets.verify_pairing_ticket_signature a.parsed a.stored.public_key_x)) [
          | inr bad ↦ rw bad h
          | inl good ↦ elim (Bool-cases (is_past a.now_ms a.stored.expires_at_ms a.parsed)) [
            | inl past ↦ rw (good, past) (drop_expired-IsScheduled c st w)
            | inr live ↦ elim (Bool-cases (a.stored.issuer_proxy_url == a.parsed.iss)) [
              | inr other ↦ rw (good, live, other) h
              | inl same ↦
                  elim (Bool-cases
                    (forbids a.stored.allow_responder_agent_did a.input.responder_agent_did)) [
                      | inl denied ↦ rw (good, live, same, denied) h
                      | inr open_to ↦
                          rw (good, live, same, open_to)
                            (store_confirmed-IsScheduled c st lawful w ((eq_iff _ _).0 same))
                    ]
            ]
          ]
        ]

  pub begun-IsScheduled :
      (b : Begun) (st : Storage)
      → IsLawful outside
      → BegunWaits outside b
      → IsScheduled outside st
      → IsScheduled outside (finish_begun outside b st).0
  unfolding finish_begun
  begun-IsScheduled (answered r) st lawful w h = h
  begun-IsScheduled (waits c) st lawful w h = finish-IsScheduled c st lawful w h
