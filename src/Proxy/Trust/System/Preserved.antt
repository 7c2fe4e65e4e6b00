-- ===== src/Proxy/Trust/System/Preserved.antt =====
-- Every call of the trust store keeps what holds of it.
use clawdentity.Shared.{ℕ, String, Option, none, some, arith}
use clawdentity.Shared.Dict.{get}
use clawdentity.Proxy.Trust.Types.{
  TrustState, TicketFunctions, Outcome, ok, failed, PairingTicketInput, PairingTicketConfirmInput,
  PairingTicketPayload, StoredTicket, ConfirmedTicket,
}
use clawdentity.Proxy.Trust.Store.{upsert_pair, mark_agent_revoked, is_agent_revoked}
use clawdentity.Proxy.Trust.Confirm.{
  Awaiting, begin_confirm, begin_parsed, finish_confirm, complete,
}
use clawdentity.Proxy.Trust.Tickets.{
  create_pairing_ticket, get_pairing_ticket_status, create_parsed, store_ticket,
  normalize_responder, status_parsed, status_pending, status_confirmed, status_missing,
}
use clawdentity.Proxy.Trust.System.{
  System, Step, Reach, creates, begins, finishes, asks_status, marks_revoked, checks_revoked,
  upserts, start, later,
}
use clawdentity.Proxy.Trust.System.Invariant.{
  IsSound, cleanup-IsSound, upsert_pair-IsPaired, upsert_pair-IsSound, drop_pending-IsExclusive,
  drop_confirmed-IsExclusive, pend-IsExclusive, confirm-IsExclusive, empty-IsSound,
}

module _ (fns : TicketFunctions) where
  complete-IsSound :
      (confirm_ms : ℕ) (a : Awaiting) (s : TrustState)
      → IsSound s
      → IsSound (complete fns confirm_ms a s)
  unfolding complete upsert_pair
  complete-IsSound confirm_ms a s (h, p) =
      (confirm-IsExclusive a.parsed.kid _ h, upsert_pair-IsPaired _ _ s p)

  finish-IsSound :
      (confirm_ms : ℕ) (a : Awaiting) (s : TrustState)
      → IsSound s
      → IsSound (finish_confirm fns confirm_ms a s).0
  unfolding finish_confirm
  finish-IsSound confirm_ms a s (h, p) =
      ground
        (arith, drop_pending-IsExclusive a.parsed.kid h, complete-IsSound confirm_ms a s (h, p))

  begin_parsed-IsSound :
      (now : ℕ) (input : PairingTicketConfirmInput) (o : Outcome PairingTicketPayload)
      (s : TrustState)
      → IsSound s
      → IsSound (begin_parsed fns now input o s).0
  unfolding begin_parsed
  begin_parsed-IsSound now input (failed e) s h = h
  begin_parsed-IsSound now input (ok parsed) s h = cleanup-IsSound now (some parsed.kid) s h

  begin-IsSound :
      (now : ℕ) (input : PairingTicketConfirmInput) (s : TrustState)
      → IsSound s
      → IsSound (begin_confirm fns now input s).0
  unfolding begin_confirm
  begin-IsSound now input s h = begin_parsed-IsSound now input _ s h

  store_ticket-IsSound :
      (input : PairingTicketInput) (parsed : PairingTicketPayload) (o : Outcome (Option String))
      (s : TrustState)
      → IsSound s
      → IsSound (store_ticket fns input parsed o s).0
  unfolding store_ticket
  store_ticket-IsSound input parsed (failed e) s h = h
  store_ticket-IsSound input parsed (ok responder) s (h, p) = (pend-IsExclusive parsed.kid _ h, p)

  create_parsed-IsSound :
      (input : PairingTicketInput) (o : Outcome PairingTicketPayload) (s : TrustState)
      → IsSound s
      → IsSound (create_parsed fns input o s).0
  unfolding create_parsed
  create_parsed-IsSound input (failed e) s h = h
  create_parsed-IsSound input (ok parsed) s (h, p) =
      let stored =
        store_ticket-IsSound input parsed (normalize_responder fns input.allow_responder_agent_did)
          s (h, p) in
      ground (arith, h, p, stored)

  create-IsSound :
      (now : ℕ) (input : PairingTicketInput) (s : TrustState)
      → IsSound s
      → IsSound (create_pairing_ticket fns now input s).0
  unfolding create_pairing_ticket
  create-IsSound now input s h = create_parsed-IsSound input _ _ (cleanup-IsSound now none s h)

  status_confirmed-IsSound :
      (now : ℕ) (text : String) (parsed : PairingTicketPayload) (o : Option ConfirmedTicket)
      (s : TrustState)
      → IsSound s
      → IsSound (status_confirmed fns now text parsed o s).0
  unfolding status_confirmed status_missing
  status_confirmed-IsSound now text parsed none s h = h
  status_confirmed-IsSound now text parsed (some t) s (h, p) =
      ground (arith, h, p, drop_confirmed-IsExclusive parsed.kid h)

  status_pending-IsSound :
      (now : ℕ) (text : String) (parsed : PairingTicketPayload) (o : Option StoredTicket)
      (s : TrustState)
      → IsSound s
      → IsSound (status_pending fns now text parsed o s).0
  unfolding status_pending
  status_pending-IsSound now text parsed none s h = status_confirmed-IsSound now text parsed _ s h
  status_pending-IsSound now text parsed (some t) s (h, p) = ground (
    arith,
    h,
    p,
    drop_pending-IsExclusive parsed.kid h,
    status_confirmed-IsSound now text parsed (get s.confirmed_pairing_tickets parsed.kid) s (h, p),
  )

  status_parsed-IsSound :
      (now : ℕ) (text : String) (o : Outcome PairingTicketPayload) (s : TrustState)
      → IsSound s
      → IsSound (status_parsed fns now text o s).0
  unfolding status_parsed
  status_parsed-IsSound now text (failed e) s h = h
  status_parsed-IsSound now text (ok parsed) s h =
      status_pending-IsSound now text parsed _ _ (cleanup-IsSound now (some parsed.kid) s h)

  status-IsSound :
      (now : ℕ) (ticket : String) (s : TrustState)
      → IsSound s
      → IsSound (get_pairing_ticket_status fns now ticket s).0
  unfolding get_pairing_ticket_status
  status-IsSound now ticket s h = status_parsed-IsSound now _ _ s h

  mark-IsSound :
      (now : ℕ) (did : String) (s : TrustState)
      → IsSound s
      → IsSound (mark_agent_revoked fns now did s).0
  unfolding mark_agent_revoked
  mark-IsSound now did s (h, p) =
      let (h', p') = cleanup-IsSound now none s (h, p) in ground (arith, h, p, h', p')

  check-IsSound :
      (now : ℕ) (did : String) (s : TrustState)
      → IsSound s
      → IsSound (is_agent_revoked fns now did s).0
  unfolding is_agent_revoked
  check-IsSound now did s (h, p) =
      let (h', p') = cleanup-IsSound now none s (h, p) in ground (arith, h, p, h', p')

  Step-IsSound : {s t : System} → Step fns s t → IsSound s.store → IsSound t.store
  Step-IsSound {s} (creates now input) h = create-IsSound now input s.store h
  Step-IsSound {s} (begins now input) h = begin-IsSound now input s.store h
  Step-IsSound {s} (finishes confirm_ms before after a e) h = finish-IsSound confirm_ms a s.store h
  Step-IsSound {s} (asks_status now ticket) h = status-IsSound now ticket s.store h
  Step-IsSound {s} (marks_revoked now did) h = mark-IsSound now did s.store h
  Step-IsSound {s} (checks_revoked now did) h = check-IsSound now did s.store h
  Step-IsSound {s} (upserts i j) h = upsert_pair-IsSound i j s.store h

  -- After any calls, whatever runs while a confirmation awaits, no ticket is both pending and
  -- confirmed or stored twice, to be a peer goes both ways, and the pair key of two peers is in the
  -- set of allowed pairs.
  pub reach-IsSound : {s : System} → Reach fns s → IsSound s.store
  reach-IsSound start = empty-IsSound
  reach-IsSound (later r st) = Step-IsSound st (reach-IsSound r)
