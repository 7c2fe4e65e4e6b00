-- ===== src/Proxy/Trust/System/Reuse.antt =====
-- A confirmed ticket cannot be confirmed again until it is created again.
use clawdentity.Shared.{
  ℕ, ◌≡◌, ◌≢◌, refl, ◌∙◌, ◌⊎◌, String, Option, none, some, List, arith, eq_iff,
}
use clawdentity.Shared.Dict.{
  Dict, get, delete, get-set, get-delete, get-delete_self, get-retain-none,
}
use clawdentity.Proxy.Trust.Types.{
  TrustState, TicketFunctions, Outcome, ok, failed, PairingTicketInput, PairingTicketConfirmInput,
  PairingTicketPayload, StoredTicket, PairingTicketConfirmResult, ticket_already_confirmed,
  ticket_not_found,
}
use clawdentity.Proxy.Trust.Store.{cleanup, upsert_pair, mark_agent_revoked, is_agent_revoked}
use clawdentity.Proxy.Trust.Confirm.{
  Awaiting, begin_confirm, begin_parsed, begin_stored, finish_confirm, complete,
}
use clawdentity.Proxy.Trust.Tickets.{
  create_pairing_ticket, get_pairing_ticket_status, create_parsed, store_ticket,
  normalize_responder, status_parsed, status_pending, status_confirmed, status_missing,
}
use clawdentity.Proxy.Trust.System.{
  System, Step, creates, begins, finishes, asks_status, marks_revoked, checks_revoked, upserts,
}

abbrev IsNotPending : String → TrustState → Type 0
IsNotPending kid s = get s.pairing_tickets kid ≡ none

module _ (fns : TicketFunctions) where
  -- The step does not create this ticket.
  unfoldable pub Spares : String → {s t : System} → Step fns s t → Type 0
  Spares kid (creates now input) =
      (parsed : PairingTicketPayload)
      → fns.parse_pairing_ticket (fns.normalize_pairing_ticket_text input.ticket) ≡ ok parsed
      → parsed.kid ≢ kid
  Spares kid _ = Unit

  -- Any number of steps that do not create this ticket.
  pub data Quiet (kid : String) (s : System) : System → Type 0 where
    at_once : Quiet kid s s
    then_step : {t u : System} → Quiet kid s t → (st : Step fns t u) → Spares kid st → Quiet kid s u

  cleanup-IsNotPending :
      (kid : String) (now : ℕ) (skip : Option String) (s : TrustState)
      → IsNotPending kid s
      → IsNotPending kid (cleanup now skip s)
  unfolding cleanup
  cleanup-IsNotPending kid now skip s h = get-retain-none _ s.pairing_tickets kid h

  store_ticket-IsNotPending :
      (kid : String) (input : PairingTicketInput) (parsed : PairingTicketPayload)
      (o : Outcome (Option String)) (s : TrustState)
      → parsed.kid ≢ kid
      → IsNotPending kid s
      → IsNotPending kid (store_ticket fns input parsed o s).0
  unfolding store_ticket
  store_ticket-IsNotPending kid input parsed (failed e) s other h = h
  store_ticket-IsNotPending kid input parsed (ok responder) s other h =
      get-set s.pairing_tickets parsed.kid kid _ ∙ ground (arith, h, other, eq_iff parsed.kid kid)

  create_parsed-IsNotPending :
      (kid : String) (input : PairingTicketInput) (o : Outcome PairingTicketPayload)
      (s : TrustState)
      → ((parsed : PairingTicketPayload) → o ≡ ok parsed → parsed.kid ≢ kid)
      → IsNotPending kid s
      → IsNotPending kid (create_parsed fns input o s).0
  unfolding create_parsed
  create_parsed-IsNotPending kid input (failed e) s other h = h
  create_parsed-IsNotPending kid input (ok parsed) s other h = ground (
    arith,
    h,
    store_ticket-IsNotPending kid input parsed
        (normalize_responder fns input.allow_responder_agent_did) s (other parsed refl) h,
  )

  begin_parsed-IsNotPending :
      (kid : String) (now : ℕ) (input : PairingTicketConfirmInput)
      (o : Outcome PairingTicketPayload) (s : TrustState)
      → IsNotPending kid s
      → IsNotPending kid (begin_parsed fns now input o s).0
  unfolding begin_parsed
  begin_parsed-IsNotPending kid now input (failed e) s h = h
  begin_parsed-IsNotPending kid now input (ok parsed) s h = cleanup-IsNotPending kid now _ s h

  delete-IsNotPending :
      (kid k : String) (m : Dict StoredTicket) → get m kid ≡ none → get (delete m k) kid ≡ none
  delete-IsNotPending kid k m h = get-delete m k kid ∙ ground (arith, h)

  finish-IsNotPending :
      (kid : String) (confirm_ms : ℕ) (a : Awaiting) (s : TrustState)
      → IsNotPending kid s
      → IsNotPending kid (finish_confirm fns confirm_ms a s).0
  unfolding finish_confirm complete upsert_pair
  finish-IsNotPending kid confirm_ms a s h =
      ground (arith, h, delete-IsNotPending kid a.parsed.kid s.pairing_tickets h)

  status-IsNotPending :
      (kid : String) (now : ℕ) (text : String) (o : Outcome PairingTicketPayload) (s : TrustState)
      → IsNotPending kid s
      → IsNotPending kid (status_parsed fns now text o s).0
  unfolding status_parsed status_pending status_confirmed status_missing
  status-IsNotPending kid now text (failed e) s h = h
  status-IsNotPending kid now text (ok parsed) s h =
      let h' = cleanup-IsNotPending kid now (some parsed.kid) s h in
      ground (
        arith,
        h',
        delete-IsNotPending kid parsed.kid (cleanup now (some parsed.kid) s).pairing_tickets h',
      )

  Step-IsNotPending :
      (kid : String) {s t : System} (st : Step fns s t)
      → Spares kid st
      → IsNotPending kid s.store
      → IsNotPending kid t.store
  unfolding Spares create_pairing_ticket begin_confirm get_pairing_ticket_status mark_agent_revoked
      is_agent_revoked upsert_pair
  Step-IsNotPending kid {s} (creates now input) other h =
      create_parsed-IsNotPending kid input _ _ other (cleanup-IsNotPending kid now none s.store h)
  Step-IsNotPending kid {s} (begins now input) other h =
      begin_parsed-IsNotPending kid now input _ s.store h
  Step-IsNotPending kid {s} (finishes confirm_ms before after a e) other h =
      finish-IsNotPending kid confirm_ms a s.store h
  Step-IsNotPending kid {s} (asks_status now ticket) other h =
      status-IsNotPending kid now _ _ s.store h
  Step-IsNotPending kid {s} (marks_revoked now did) other h =
      ground (arith, h, cleanup-IsNotPending kid now none s.store h)
  Step-IsNotPending kid {s} (checks_revoked now did) other h =
      ground (arith, h, cleanup-IsNotPending kid now none s.store h)
  Step-IsNotPending kid {s} (upserts i j) other h = h

  Quiet-IsNotPending :
      (kid : String) {s t : System}
      → Quiet kid s t
      → IsNotPending kid s.store
      → IsNotPending kid t.store
  Quiet-IsNotPending kid at_once h = h
  Quiet-IsNotPending kid (then_step q st other) h =
      Step-IsNotPending kid st other (Quiet-IsNotPending kid q h)

  finished-IsNotPending :
      (confirm_ms : ℕ) (a : Awaiting) (s : TrustState) (pair : PairingTicketConfirmResult)
      → (finish_confirm fns confirm_ms a s).1 ≡ ok pair
      → IsNotPending a.parsed.kid (finish_confirm fns confirm_ms a s).0
  unfolding finish_confirm complete upsert_pair
  finished-IsNotPending confirm_ms a s pair h =
      ground (arith, get-delete_self s.pairing_tickets a.parsed.kid)

  begin_refused :
      (now : ℕ) (input : PairingTicketConfirmInput) (parsed : PairingTicketPayload) (s : TrustState)
      → IsNotPending parsed.kid s
      → ((begin_parsed fns now input (ok parsed) s).1 ≡ failed ticket_already_confirmed)
        ⊎ ((begin_parsed fns now input (ok parsed) s).1 ≡ failed ticket_not_found)
  unfolding begin_parsed begin_stored
  begin_refused now input parsed s h =
      ground (arith, cleanup-IsNotPending parsed.kid now (some parsed.kid) s h)

  -- Once a confirmation has succeeded, no other one of the same ticket can begin: until the ticket is
  -- created again, and whatever other calls run or finish in between, the call fails with "already
  -- confirmed" or "not found" and waits for no signature.
  pub confirmed_once :
      (confirm_ms now : ℕ) (a : Awaiting) (s : TrustState) (waiting : List Awaiting) {t : System}
      (pair : PairingTicketConfirmResult) (input : PairingTicketConfirmInput)
      (parsed : PairingTicketPayload)
      → (finish_confirm fns confirm_ms a s).1 ≡ ok pair
      → Quiet a.parsed.kid
          (record { store = (finish_confirm fns confirm_ms a s).0; waiting = waiting })
          t
      → fns.parse_pairing_ticket (fns.normalize_pairing_ticket_text input.ticket) ≡ ok parsed
      → parsed.kid ≡ a.parsed.kid
      → ((begin_confirm fns now input t.store).1 ≡ failed ticket_already_confirmed)
        ⊎ ((begin_confirm fns now input t.store).1 ≡ failed ticket_not_found)
  unfolding begin_confirm
  confirmed_once confirm_ms now a s waiting {t} pair input parsed h q e same = rw (e) (
      begin_refused now input parsed t.store
        (rw same (Quiet-IsNotPending a.parsed.kid q (finished-IsNotPending confirm_ms a s pair h))))
