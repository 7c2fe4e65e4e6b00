-- ===== src/Proxy/Trust/Confirm/Trusted.antt =====
-- What a confirmation that succeeds changes, also where another one runs while it awaits.
use clawdentity.Shared.{ℕ, ◌≡◌, refl, ◌∙◌, ap, sym, String, true, arith, eq_refl}
use clawdentity.Proxy.Trust.Keys.{to_pair_key}
use clawdentity.Proxy.Trust.Types.{
  TrustState, TicketFunctions, Outcome, ok, failed, PairingTicketConfirmInput, PairingTicketPayload,
  PairingTicketConfirmResult,
}
use clawdentity.Proxy.Trust.Store.{upsert_pair, is_pair_allowed, is_agent_known}
use clawdentity.Proxy.Trust.Store.Pairs.{
  upsert_pair-keys, upsert_pair-peers, allowed_comm, key_allowed, peer_known, known-upsert_pair,
  allowed-upsert_pair,
}
use clawdentity.Proxy.Trust.Confirm.{
  Awaiting, begin_confirm, begin_parsed, begin_stored, finish_confirm, finish_begun, complete,
  confirmed_pair, confirm_pairing_ticket,
}

-- The two agents may reach each other, and are known.
abbrev pub AreTrusted : String → String → TrustState → Type 0
AreTrusted i j s =
    (is_pair_allowed i j s ≡ true)
    × ((is_pair_allowed j i s ≡ true) × ((is_agent_known i s ≡ true) × (is_agent_known j s ≡ true)))

upsert_pair-AreTrusted : (i j : String) (s : TrustState) → AreTrusted i j (upsert_pair i j s)
upsert_pair-AreTrusted i j s =
    let allowed =
      key_allowed i j (upsert_pair i j s)
        (upsert_pair-keys i j s (to_pair_key i j) ∙ ground (arith, eq_refl (to_pair_key i j))) in
    (
      allowed,
      (
        sym (allowed_comm i j (upsert_pair i j s)) ∙ allowed,
        (
          peer_known (upsert_pair i j s) i j
              (upsert_pair-peers i j s i j ∙ ground (arith, eq_refl i, eq_refl j)),
          peer_known (upsert_pair i j s) j i
              (upsert_pair-peers i j s j i ∙ ground (arith, eq_refl i, eq_refl j)),
        ),
      ),
    )

module _ (fns : TicketFunctions) where
  finish_ok :
      (confirm_ms : ℕ) (a : Awaiting) (s : TrustState) (pair : PairingTicketConfirmResult)
      → (finish_confirm fns confirm_ms a s).1 ≡ ok pair
      → (finish_confirm fns confirm_ms a s ≡ (complete fns confirm_ms a s, ok (confirmed_pair a)))
  unfolding finish_confirm
  finish_ok confirm_ms a s pair h = ground arith

  -- A confirmation that succeeds allows the pair in both orders and makes both agents known.
  complete-AreTrusted :
      (confirm_ms : ℕ) (a : Awaiting) (s : TrustState)
      → AreTrusted a.stored.initiator_agent_did a.input.responder_agent_did
          (complete fns confirm_ms a s)
  unfolding complete upsert_pair is_pair_allowed is_agent_known
  complete-AreTrusted confirm_ms a s =
      upsert_pair-AreTrusted a.stored.initiator_agent_did a.input.responder_agent_did s

  finish-AreTrusted :
      (confirm_ms : ℕ) (a : Awaiting) (s : TrustState) (pair : PairingTicketConfirmResult)
      → (finish_confirm fns confirm_ms a s).1 ≡ ok pair
      → (pair ≡ confirmed_pair a)
        × AreTrusted pair.initiator_agent_did pair.responder_agent_did
            (finish_confirm fns confirm_ms a s).0
  finish-AreTrusted confirm_ms a s pair h =
      let done = finish_ok confirm_ms a s pair h in
      let same : pair ≡ confirmed_pair a = cc (h, done) in
      (same, rw (same, done) (complete-AreTrusted confirm_ms a s))

  begin_parsed_input :
      (now : ℕ) (input : PairingTicketConfirmInput) (o : Outcome PairingTicketPayload)
      (s : TrustState) (a : Awaiting)
      → (begin_parsed fns now input o s).1 ≡ ok a
      → a.input ≡ input
  unfolding begin_parsed begin_stored
  begin_parsed_input now input (failed e) s a h = cc
  begin_parsed_input now input (ok parsed) s a h = ground arith

  finish_begun-AreTrusted :
      (confirm_ms : ℕ) (input : PairingTicketConfirmInput) (s : TrustState) (o : Outcome Awaiting)
      (pair : PairingTicketConfirmResult)
      → ((a : Awaiting) → o ≡ ok a → a.input ≡ input)
      → (finish_begun fns confirm_ms (s, o)).1 ≡ ok pair
      → (pair.responder_agent_did ≡ input.responder_agent_did)
        × AreTrusted pair.initiator_agent_did pair.responder_agent_did
            (finish_begun fns confirm_ms (s, o)).0
  unfolding finish_begun
  finish_begun-AreTrusted confirm_ms input s (failed e) pair own h = cc
  finish_begun-AreTrusted confirm_ms input s (ok a) pair own h =
      let (same, trusted) = finish-AreTrusted confirm_ms a s pair h in
      (ap (λ p. p.responder_agent_did) same ∙ ap (λ i. i.responder_agent_did) (own a refl), trusted)

  -- Where `confirmPairingTicket` returns a pair, the pair is of the responder who asked, its two agents
  -- may reach each other in both directions from then on, and both are known.
  pub confirm-AreTrusted :
      (now confirm_ms : ℕ) (input : PairingTicketConfirmInput) (s : TrustState)
      (pair : PairingTicketConfirmResult)
      → (confirm_pairing_ticket fns now confirm_ms input s).1 ≡ ok pair
      → (pair.responder_agent_did ≡ input.responder_agent_did)
        × AreTrusted pair.initiator_agent_did pair.responder_agent_did
            (confirm_pairing_ticket fns now confirm_ms input s).0
  unfolding confirm_pairing_ticket begin_confirm
  confirm-AreTrusted now confirm_ms input s pair h =
      finish_begun-AreTrusted confirm_ms input _ _ pair
        (λ a e. begin_parsed_input now input _ s a e) h

  later-AreTrusted :
      (i j k l : String) (s : TrustState) → AreTrusted i j s → AreTrusted i j (upsert_pair k l s)
  later-AreTrusted i j k l s h = (
    allowed-upsert_pair i j k l s h.0,
    (
      allowed-upsert_pair j i k l s h.1.0,
      (known-upsert_pair i k l s h.1.1.0, known-upsert_pair j k l s h.1.1.1),
    ),
  )

  complete-keeps :
      (confirm_ms : ℕ) (a : Awaiting) (i j : String) (s : TrustState)
      → AreTrusted i j s
      → AreTrusted i j (complete fns confirm_ms a s)
  unfolding complete upsert_pair is_pair_allowed is_agent_known
  complete-keeps confirm_ms a i j s h =
      later-AreTrusted i j a.stored.initiator_agent_did a.input.responder_agent_did s h

  -- The answer does not depend on the store at that time.
  finish_anywhere :
      (confirm_ms : ℕ) (a : Awaiting) (s t : TrustState)
      → (finish_confirm fns confirm_ms a s).1 ≡ (finish_confirm fns confirm_ms a t).1
  unfolding finish_confirm
  finish_anywhere confirm_ms a s t = ground arith

  -- Two confirmations that overlap both succeed: if each of two that await their signature would
  -- succeed, then both do when one ends after the other, also where they are of one ticket for two
  -- responders, and then both pairs are allowed.
  pub both_confirmed :
      (confirm_ms confirm_ms' : ℕ) (a b : Awaiting) (s : TrustState)
      (p q : PairingTicketConfirmResult)
      → (finish_confirm fns confirm_ms a s).1 ≡ ok p
      → (finish_confirm fns confirm_ms' b s).1 ≡ ok q
      → let s' = (finish_confirm fns confirm_ms a s).0 in
        let s'' = (finish_confirm fns confirm_ms' b s').0 in
        ((finish_confirm fns confirm_ms' b s').1 ≡ ok q)
        × (AreTrusted p.initiator_agent_did p.responder_agent_did s''
            × AreTrusted q.initiator_agent_did q.responder_agent_did s'')
  both_confirmed confirm_ms confirm_ms' a b s p q h h' =
      let s' = (finish_confirm fns confirm_ms a s).0 in
      let again = finish_anywhere confirm_ms' b s' s ∙ h' in
      let done = finish_ok confirm_ms' b s' q again in
      (
        again,
        (
          rw done (
              complete-keeps confirm_ms' b p.initiator_agent_did p.responder_agent_did s'
                (finish-AreTrusted confirm_ms a s p h).1),
          (finish-AreTrusted confirm_ms' b s' q again).1,
        ),
      )
