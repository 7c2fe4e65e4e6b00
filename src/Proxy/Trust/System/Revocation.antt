-- ===== src/Proxy/Trust/System/Revocation.antt =====
-- How long an agent that is marked as revoked stays so.
use clawdentity.Shared.{
  Bool-cases, inl, inr, subst, sym, ℕ, ◌+◌, ◌≤◌, ◌<◌, ◌≡◌, refl, ◌∙◌, String, true, Option, none,
  some, ◌==◌, arith, lt→ltb,
}
use clawdentity.Shared.Dict.{Dict, get, set, get-set, get-set_self, get-retain_of_keep}
use clawdentity.Proxy.Trust.Types.{
  TrustState, TicketFunctions, Outcome, ok, failed, PairingTicketInput, PairingTicketConfirmInput,
  PairingTicketPayload, revoked_agent_marker_ttl_ms,
}
use clawdentity.Proxy.Trust.Store.{
  cleanup, upsert_pair, mark_agent_revoked, is_agent_revoked, is_later,
}
use clawdentity.Proxy.Trust.Confirm.{
  Awaiting, begin_confirm, begin_parsed, finish_confirm, complete,
}
use clawdentity.Proxy.Trust.Tickets.{
  create_pairing_ticket, get_pairing_ticket_status, create_parsed, store_ticket, status_parsed,
  status_pending, status_confirmed, status_missing,
}
use clawdentity.Proxy.Trust.System.{
  System, Step, creates, begins, finishes, asks_status, marks_revoked, checks_revoked, upserts,
}

-- The agent's mark lasts at least until `deadline`.
abbrev IsMarked : String → ℕ → Dict ℕ → Type 0
IsMarked did deadline revoked = (e : ℕ) × ((get revoked did ≡ some e) × (deadline ≤ e))

module _ (fns : TicketFunctions) where
  -- A step that reads the clock does so in this span of time.
  pub Within : ℕ → ℕ → {s t : System} → Step fns s t → Type 0
  Within start deadline (creates now input) = (start ≤ now) × (now < deadline)
  Within start deadline (begins now input) = (start ≤ now) × (now < deadline)
  Within start deadline (finishes confirm_ms before after a e) = Unit
  Within start deadline (asks_status now ticket) = (start ≤ now) × (now < deadline)
  Within start deadline (marks_revoked now did) = (start ≤ now) × (now < deadline)
  Within start deadline (checks_revoked now did) = (start ≤ now) × (now < deadline)
  Within start deadline (upserts i j) = Unit

  -- Any number of such steps.
  pub data During (start deadline : ℕ) (s : System) : System → Type 0 where
    at_once : During start deadline s s
    then_step :
        {t u : System}
        → During start deadline s t
        → (st : Step fns t u) → Within start deadline st
        → During start deadline s u

  cleanup-IsMarked :
      (did : String) (deadline now : ℕ) (skip : Option String) (s : TrustState)
      → now < deadline
      → IsMarked did deadline s.revoked_agents
      → IsMarked did deadline (cleanup now skip s).revoked_agents
  unfolding cleanup
  cleanup-IsMarked did deadline now skip s early (e, (h, long)) = (
    e,
    (
      get-retain_of_keep _ s.revoked_agents did e h (lt→ltb now e (omega (arith, early, long))),
      long,
    ),
  )

  begin_revoked :
      (now : ℕ) (input : PairingTicketConfirmInput) (o : Outcome PairingTicketPayload)
      (s : TrustState) (did : String) (deadline : ℕ)
      → now < deadline
      → IsMarked did deadline s.revoked_agents
      → IsMarked did deadline (begin_parsed fns now input o s).0.revoked_agents
  unfolding begin_parsed
  begin_revoked now input (failed e) s did deadline early h = h
  begin_revoked now input (ok parsed) s did deadline early h =
      cleanup-IsMarked did deadline now (some parsed.kid) s early h

  create_revoked :
      (input : PairingTicketInput) (o : Outcome PairingTicketPayload) (s : TrustState)
      → (create_parsed fns input o s).0.revoked_agents ≡ s.revoked_agents
  unfolding create_parsed store_ticket
  create_revoked input (failed e) s = refl
  create_revoked input (ok parsed) s = ground arith

  status_keeps_marks :
      (now : ℕ) (text : String) (parsed : PairingTicketPayload) (s : TrustState)
      → (status_parsed fns now text (ok parsed) s).0.revoked_agents
        ≡ (cleanup now (some parsed.kid) s).revoked_agents
  unfolding status_parsed status_pending status_confirmed status_missing
  status_keeps_marks now text parsed s = ground arith

  status_revoked :
      (now : ℕ) (text : String) (o : Outcome PairingTicketPayload) (s : TrustState) (did : String)
      (deadline : ℕ)
      → now < deadline
      → IsMarked did deadline s.revoked_agents
      → IsMarked did deadline (status_parsed fns now text o s).0.revoked_agents
  unfolding status_parsed
  status_revoked now text (failed e) s did deadline early h = h
  status_revoked now text (ok parsed) s did deadline early h =
      subst (IsMarked did deadline) (sym (status_keeps_marks now text parsed s))
        (cleanup-IsMarked did deadline now (some parsed.kid) s early h)

  finish_revoked :
      (confirm_ms : ℕ) (a : Awaiting) (s : TrustState)
      → (finish_confirm fns confirm_ms a s).0.revoked_agents ≡ s.revoked_agents
  unfolding finish_confirm complete upsert_pair
  finish_revoked confirm_ms a s = ground arith

  set-IsMarked :
      (did other : String) (deadline e : ℕ) (revoked : Dict ℕ)
      → deadline ≤ e
      → IsMarked did deadline revoked
      → IsMarked did deadline (set revoked other e)
  set-IsMarked did other deadline e revoked long (e', (h, long')) =
      elim (Bool-cases (other == did)) [
        | inl same ↦ (e, (get-set revoked other did e ∙ rw same refl, long))
        | inr different ↦ (e', (get-set revoked other did e ∙ rw different h, long'))
      ]

  mark-IsMarked :
      (now : ℕ) (did other : String) (s : TrustState) (start deadline : ℕ)
      → deadline ≤ start + revoked_agent_marker_ttl_ms
      → start ≤ now
      → now < deadline
      → IsMarked did deadline s.revoked_agents
      → IsMarked did deadline (mark_agent_revoked fns now other s).0.revoked_agents
  unfolding mark_agent_revoked
  mark-IsMarked now did other s start deadline span order early h =
      elim (Bool-cases (fns.is_agent_did other)) [
        | inl valid ↦ rw valid (
            set-IsMarked did other deadline (now + revoked_agent_marker_ttl_ms) _
              (omega (arith, span, order)) (cleanup-IsMarked did deadline now none s early h))
        | inr bad ↦ rw bad h
      ]

  check-IsMarked :
      (now : ℕ) (did other : String) (s : TrustState) (deadline : ℕ)
      → now < deadline
      → IsMarked did deadline s.revoked_agents
      → IsMarked did deadline (is_agent_revoked fns now other s).0.revoked_agents
  unfolding is_agent_revoked
  check-IsMarked now did other s deadline early h = elim (Bool-cases (fns.is_agent_did other)) [
    | inl valid ↦ rw valid (cleanup-IsMarked did deadline now none s early h)
    | inr bad ↦ rw bad h
  ]

  Step-IsMarked :
      (did : String) (start deadline : ℕ) {s t : System} (st : Step fns s t)
      → deadline ≤ start + revoked_agent_marker_ttl_ms
      → Within start deadline st
      → IsMarked did deadline s.store.revoked_agents
      → IsMarked did deadline t.store.revoked_agents
  unfolding Within create_pairing_ticket begin_confirm get_pairing_ticket_status upsert_pair
  Step-IsMarked did start deadline {s} (creates now input) span (order, early) h =
      subst (IsMarked did deadline) (sym (create_revoked input _ _))
        (cleanup-IsMarked did deadline now none s.store early h)
  Step-IsMarked did start deadline {s} (begins now input) span (order, early) h =
      begin_revoked now input _ s.store did deadline early h
  Step-IsMarked did start deadline {s} (finishes confirm_ms before after a e) span w h =
      subst (IsMarked did deadline) (sym (finish_revoked confirm_ms a s.store)) h
  Step-IsMarked did start deadline {s} (asks_status now ticket) span (order, early) h =
      status_revoked now _ _ s.store did deadline early h
  Step-IsMarked did start deadline {s} (marks_revoked now other) span (order, early) h =
      mark-IsMarked now did other s.store start deadline span order early h
  Step-IsMarked did start deadline {s} (checks_revoked now other) span (order, early) h =
      check-IsMarked now did other s.store deadline early h
  Step-IsMarked did start deadline {s} (upserts i j) span w h = h

  During-IsMarked :
      (did : String) (start deadline : ℕ) {s t : System}
      → deadline ≤ start + revoked_agent_marker_ttl_ms
      → During start deadline s t
      → IsMarked did deadline s.store.revoked_agents
      → IsMarked did deadline t.store.revoked_agents
  During-IsMarked did start deadline span at_once h = h
  During-IsMarked did start deadline span (then_step d st w) h =
      Step-IsMarked did start deadline st span w (During-IsMarked did start deadline span d h)

  mark-IsMarked_self :
      (now : ℕ) (did : String) (s : TrustState)
      → fns.is_agent_did did ≡ true
      → IsMarked did
          (now + revoked_agent_marker_ttl_ms)
          (mark_agent_revoked fns now did s).0.revoked_agents
  unfolding mark_agent_revoked
  mark-IsMarked_self now did s valid = rw valid (
    now + revoked_agent_marker_ttl_ms,
    (get-set_self _ did (now + revoked_agent_marker_ttl_ms), omega arith),
  )

  check_marked :
      (now : ℕ) (did : String) (deadline : ℕ) (s : TrustState)
      → fns.is_agent_did did ≡ true
      → now < deadline
      → IsMarked did deadline s.revoked_agents
      → (is_agent_revoked fns now did s).1 ≡ ok true
  unfolding is_agent_revoked is_later
  check_marked now did deadline s valid early h =
      let (e, (found, long)) = cleanup-IsMarked did deadline now none s early h in
      rw (valid, found, lt→ltb now e (omega (arith, early, long))) refl

  -- An agent that is marked as revoked is reported as revoked for the next thirty days, whatever
  -- calls at times in between come before the question, those of other agents' confirmations included.
  pub revoked_for_ttl :
      (now later : ℕ) (did : String) (s t : System)
      → fns.is_agent_did did ≡ true
      → During now
          (now + revoked_agent_marker_ttl_ms)
          (record s { store = (mark_agent_revoked fns now did s.store).0 })
          t
      → later < now + revoked_agent_marker_ttl_ms
      → (is_agent_revoked fns later did t.store).1 ≡ ok true
  revoked_for_ttl now later did s t valid d early =
      let deadline = now + revoked_agent_marker_ttl_ms in
      check_marked later did deadline t.store valid early (
        During-IsMarked did now deadline (omega arith) d (mark-IsMarked_self now did s.store valid))
