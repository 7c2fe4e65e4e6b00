-- ===== src/Proxy/Trust/System/Consent.antt =====
-- Which calls of the trust store allow a pair.
use clawdentity.Shared.{
  any, ◌↔◌, ℕ, ◌≡◌, refl, ◌⊎◌, inl, inr, String, true, false, List, ◌==◌, arith, eq_iff, eq_refl,
}
use clawdentity.Proxy.Trust.Types.{
  TrustState, TicketFunctions, Outcome, ok, failed, PairingTicketInput, PairingTicketConfirmInput,
  PairingTicketPayload,
}
use clawdentity.Proxy.Trust.Keys.{to_pair_key}
use clawdentity.Proxy.Trust.Store.{cleanup, upsert_pair, mark_agent_revoked, is_agent_revoked, has}
use clawdentity.Proxy.Trust.Store.Pairs.{has-add, upsert_pair-keys}
use clawdentity.Proxy.Trust.Confirm.{
  Awaiting, begin_confirm, begin_parsed, finish_confirm, complete, is_past, forbids,
}
use clawdentity.Proxy.Trust.Tickets.{
  create_pairing_ticket, get_pairing_ticket_status, create_parsed, store_ticket, status_parsed,
  status_pending, status_confirmed, status_missing,
}
use clawdentity.Proxy.Trust.System.{
  System, Step, creates, begins, finishes, asks_status, marks_revoked, checks_revoked, upserts,
  Reach, start, later,
}

module _ (fns : TicketFunctions) where
  -- The signature of the ticket is the initiator's, the ticket had not run out when the call began
  -- and is of the proxy that issued the stored one, and the responder is one that it allows.
  pub record IsConsent (a : Awaiting) : Type 0 where
    pub signed : fns.verify_pairing_ticket_signature a.parsed a.stored.public_key_x ≡ true
    pub in_time : is_past a.now_ms a.stored.expires_at_ms a.parsed ≡ false
    pub issued : a.stored.issuer_proxy_url ≡ a.parsed.iss
    pub allowed : forbids a.stored.allow_responder_agent_did a.input.responder_agent_did ≡ false

  -- The step allows the pair with this key.
  pub Grants : String → {s t : System} → Step fns s t → Type 0
  Grants k (finishes confirm_ms before after a e) =
      IsConsent a × (to_pair_key a.stored.initiator_agent_did a.input.responder_agent_did ≡ k)
  Grants k (upserts i j) = to_pair_key i j ≡ k
  Grants k _ = ⊥

  -- The keys are those from before, and perhaps this one.
  abbrev Adds : String → Type 0 → List String → List String → Type 0
  Adds k P keys keys' =
      (has keys k ≡ true → has keys' k ≡ true) × (has keys' k ≡ true → (has keys k ≡ true) ⊎ P)

  same_keys :
      (k : String) (P : Type 0) (keys keys' : List String) → keys' ≡ keys → Adds k P keys keys'
  same_keys k P keys keys' e = rw e (λ h. h, λ h. inl h)

  IsConsent-of :
      (a : Awaiting)
      → fns.verify_pairing_ticket_signature a.parsed a.stored.public_key_x ≡ true
      → is_past a.now_ms a.stored.expires_at_ms a.parsed ≡ false
      → (a.stored.issuer_proxy_url == a.parsed.iss) ≡ true
      → forbids a.stored.allow_responder_agent_did a.input.responder_agent_did ≡ false
      → IsConsent a
  IsConsent-of a signed in_time same allowed = record {
    signed = signed;
    in_time = in_time;
    issued = (eq_iff a.stored.issuer_proxy_url a.parsed.iss).0 same;
    allowed = allowed;
  }

  finish-Adds :
      (confirm_ms : ℕ) (a : Awaiting) (s : TrustState) (k : String)
      → Adds k
          (IsConsent a × (to_pair_key a.stored.initiator_agent_did a.input.responder_agent_did ≡ k))
          s.pair_keys
          (finish_confirm fns confirm_ms a s).0.pair_keys
  unfolding finish_confirm complete upsert_pair
  finish-Adds confirm_ms a s k =
      let key = to_pair_key a.stored.initiator_agent_did a.input.responder_agent_did in
      ground (arith, IsConsent-of a, has-add s.pair_keys key k, eq_iff key k)

  begin_keys :
      (now : ℕ) (input : PairingTicketConfirmInput) (o : Outcome PairingTicketPayload)
      (s : TrustState)
      → (begin_parsed fns now input o s).0.pair_keys ≡ s.pair_keys
  unfolding begin_parsed cleanup
  begin_keys now input (failed e) s = refl
  begin_keys now input (ok parsed) s = refl

  create_keys :
      (input : PairingTicketInput) (o : Outcome PairingTicketPayload) (s : TrustState)
      → (create_parsed fns input o s).0.pair_keys ≡ s.pair_keys
  unfolding create_parsed store_ticket
  create_keys input (failed e) s = refl
  create_keys input (ok parsed) s = ground arith

  status_keys :
      (now : ℕ) (text : String) (o : Outcome PairingTicketPayload) (s : TrustState)
      → (status_parsed fns now text o s).0.pair_keys ≡ s.pair_keys
  unfolding status_parsed status_pending status_confirmed status_missing cleanup
  status_keys now text (failed e) s = refl
  status_keys now text (ok parsed) s = ground arith

  -- A pair that is allowed stays allowed, and a step adds a key only by `upsertPair` or by a
  -- confirmation whose ticket is signed, in time, of the right issuer and open to the responder.
  Step-adds :
      {s t : System} (st : Step fns s t) (k : String)
      → (has s.store.pair_keys k ≡ true → has t.store.pair_keys k ≡ true)
        × (has t.store.pair_keys k ≡ true → (has s.store.pair_keys k ≡ true) ⊎ Grants k st)
  unfolding Grants create_pairing_ticket begin_confirm get_pairing_ticket_status mark_agent_revoked
      is_agent_revoked cleanup
  Step-adds {s} (creates now input) k = same_keys k ⊥ s.store.pair_keys _ (create_keys input _ _)
  Step-adds {s} (begins now input) k = same_keys k ⊥ s.store.pair_keys _ (begin_keys now input _ _)
  Step-adds {s} (finishes confirm_ms before after a e) k = finish-Adds confirm_ms a s.store k
  Step-adds {s} (asks_status now ticket) k =
      same_keys k ⊥ s.store.pair_keys _ (status_keys now _ _ _)
  Step-adds {s} (marks_revoked now did) k = same_keys k ⊥ s.store.pair_keys _ (ground arith)
  Step-adds {s} (checks_revoked now did) k = same_keys k ⊥ s.store.pair_keys _ (ground arith)
  Step-adds {s} (upserts i j) k =
      ground (arith, upsert_pair-keys i j s.store k, eq_iff (to_pair_key i j) k)

  finish_grants :
      (confirm_ms : ℕ) (a : Awaiting) (s : TrustState)
      → IsConsent a
      → has
          (finish_confirm fns confirm_ms a s).0.pair_keys
          (to_pair_key a.stored.initiator_agent_did a.input.responder_agent_did)
        ≡ true
  unfolding finish_confirm complete upsert_pair
  finish_grants confirm_ms a s h =
      let key = to_pair_key a.stored.initiator_agent_did a.input.responder_agent_did in
      ground (
        arith,
        h.signed,
        h.in_time,
        h.issued,
        h.allowed,
        has-add s.pair_keys key key,
        eq_refl key,
        eq_iff a.stored.issuer_proxy_url a.parsed.iss,
      )

  Grants-key :
      {s t : System} (st : Step fns s t) (k : String) → Grants k st → has t.store.pair_keys k ≡ true
  unfolding Grants
  Grants-key {s} (finishes confirm_ms before after a e) k (h, same) =
      rw (← same) (finish_grants confirm_ms a s.store h)
  Grants-key {s} (upserts i j) k same =
      ground (arith, upsert_pair-keys i j s.store k, eq_iff (to_pair_key i j) k)
  Grants-key (creates now input) k h = absurd h
  Grants-key (begins now input) k h = absurd h
  Grants-key (asks_status now ticket) k h = absurd h
  Grants-key (marks_revoked now did) k h = absurd h
  Grants-key (checks_revoked now did) k h = absurd h

  -- A step of the history has allowed the pair with this key.
  pub WasGranted : String → {s : System} → Reach fns s → Type 0
  WasGranted k start = ⊥
  WasGranted k (later r st) = WasGranted k r ⊎ Grants k st

  -- The keys of the allowed pairs are exactly those that a call of the history has granted, by
  -- `upsertPair` or by a confirmation of a ticket that was signed by the key of the stored ticket, not
  -- expired when the call began, of the stored issuer and open to the responder. In particular
  -- revoking an agent, failed calls and expiry neither add nor take away a pair.
  pub reach-WasGranted :
      {s : System} (r : Reach fns s) (k : String)
      → (has s.store.pair_keys k ≡ true) ↔ WasGranted k r
  unfolding WasGranted has any
  reach-WasGranted start k = (λ h. cc, λ h. absurd h)
  reach-WasGranted (later r st) k =
      let (up, down) = reach-WasGranted r k in
      let (keeps, adds) = Step-adds st k in
      (
        λ h. elim (adds h) [ inl before ↦ inl (up before) | inr now ↦ inr now ],
        λ h. elim h [ inl before ↦ keeps (down before) | inr now ↦ Grants-key st k now ],
      )
