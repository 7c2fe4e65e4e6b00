-- ===== src/Connector/Replay/Delivery/Attempts.antt =====
-- The deliveries' loop ends, by its own test, within the attempts of the policy.
use clawdentity.Shared.{
  ℕ, zero, suc, ◌+◌, ◌≤◌, ◌<◌, max, ◌≡◌, ◌≢◌, refl, sym, Option, none, some, arith, Bool-cases, inl,
  inr, nat_eq, subst,
}
use clawdentity.Connector.Replay.Delivery.{
  ErrorCode, hook_auth_rejected, runtime_stopping, other, DeliveryError, InboundReplayPolicy,
  SyncOutcome, sync_throws, token_changed, Tries, Next, again, throws, attempts_remain,
  retry_or_throw, after_sync, after_failure, deliver_from, attempts_fuel,
  deliver_to_delivery_webhook_hook_with_retry,
}

module _ (policy : InboundReplayPolicy) (tries : Tries) where
  retry-again :
      (attempt : ℕ) (e : DeliveryError)
      → retry_or_throw policy tries attempt e ≡ again
      → attempt < policy.runtime_replay_max_attempts
  unfolding retry_or_throw attempts_remain
  retry-again attempt e h = ground arith

  sync-again :
      (attempt : ℕ) (e : DeliveryError) (o : SyncOutcome)
      → after_sync policy tries attempt e o ≡ again
      → attempt < policy.runtime_replay_max_attempts
  unfolding after_sync attempts_remain
  sync-again attempt e (sync_throws e') h = cc
  sync-again attempt e (token_changed changed) h = ground (arith, retry-again attempt e)

  failure-again :
      (attempt : ℕ) (e : DeliveryError) (code : ErrorCode)
      → after_failure policy tries attempt e code ≡ again
      → attempt < policy.runtime_replay_max_attempts
  unfolding after_failure
  failure-again attempt e runtime_stopping h = cc
  failure-again attempt e hook_auth_rejected h = sync-again attempt e (tries.sync attempt) h
  failure-again attempt e other h = retry-again attempt e h

  -- What the loop gives from an attempt on.
  pub record Ends (first : ℕ) (o : Option (ℕ × Option DeliveryError)) : Type 0 where
    pub last : ℕ
    pub error : Option DeliveryError
    pub returned : o ≡ some (last, error)
    pub bounded : last ≤ max first policy.runtime_replay_max_attempts
    pub from : first ≤ last
    pub accepted : error ≡ none → tries.hook last ≡ none
    pub refused : error ≢ none → tries.hook last ≢ none
    pub before : (i : ℕ) → first ≤ i → i < last → tries.hook i ≢ none

  Ends-next :
      (attempt : ℕ) (o : Option (ℕ × Option DeliveryError))
      → attempt < policy.runtime_replay_max_attempts
      → tries.hook attempt ≢ none
      → Ends (attempt + 1) o
      → Ends attempt o
  Ends-next attempt o h failed e = record {
    last = e.last;
    error = e.error;
    returned = e.returned;
    bounded = omega (arith, e.bounded);
    from = omega (arith, e.from);
    accepted = e.accepted;
    refused = e.refused;
    before = λ i ge lt. elim (Bool-cases (nat_eq i attempt)) [
      | inl same ↦
          let at : i ≡ attempt = ground (arith, same) in
          subst (λ j. tries.hook j ≢ none) (sym at) failed
      | inr later ↦ e.before i (ground (arith, later, ge)) lt
    ];
  }

  deliver_from-Ends :
      (fuel attempt : ℕ)
      → policy.runtime_replay_max_attempts < attempt + fuel
      → 0 < fuel
      → Ends attempt (deliver_from policy tries fuel attempt)
  unfolding deliver_from
  deliver_from-Ends zero attempt enough pos = absurd (omega arith)
  deliver_from-Ends (suc fuel) attempt enough pos = by_hook (tries.hook attempt) refl (λ less.
      deliver_from-Ends fuel (attempt + 1) (omega (arith, enough)) (omega (arith, enough, less)))
    where
      last_at :
          (error : Option DeliveryError)
          → (error ≡ none → tries.hook attempt ≡ none)
          → (error ≢ none → tries.hook attempt ≢ none)
          → Ends attempt (some (attempt, error))
      last_at error ok bad = record {
        last = attempt;
        error = error;
        returned = refl;
        bounded = omega arith;
        from = omega arith;
        accepted = ok;
        refused = bad;
        before = λ i ge lt. absurd (omega (arith, ge, lt));
      }

      by_next :
          (e : DeliveryError) (n : Next)
          → tries.hook attempt ≡ some e
          → after_failure policy tries attempt e e.code ≡ n
          → (attempt < policy.runtime_replay_max_attempts
              → Ends (attempt + 1) (deliver_from policy tries fuel (attempt + 1)))
          → Ends attempt (elim n [
            | again ↦ deliver_from policy tries fuel (attempt + 1)
            | throws e' ↦ some (attempt, some e')
          ])
      by_next e again failed next rest =
          let less = failure-again attempt e e.code next in
          Ends-next attempt _ less (λ h. cc) (rest less)
      by_next e (throws e') failed next rest = last_at (some e') (λ h. cc) (λ h k. cc)

      by_hook :
          (o : Option DeliveryError)
          → tries.hook attempt ≡ o
          → (attempt < policy.runtime_replay_max_attempts
              → Ends (attempt + 1) (deliver_from policy tries fuel (attempt + 1)))
          → Ends attempt (elim o [
            | none ↦ some (attempt, none)
            | some e ↦ elim (after_failure policy tries attempt e e.code) [
              | again ↦ deliver_from policy tries fuel (attempt + 1)
              | throws e' ↦ some (attempt, some e')
            ]
          ])
      by_hook none h rest = last_at none (λ e. h) (λ ne. absurd (ne refl))
      by_hook (some e) h rest = by_next e _ h refl rest

  -- A delivery always ends by the loop's own test, after at most as many attempts as the policy
  -- allows, and one at least: each attempt before the last one was refused by the webhook, and the
  -- delivery succeeds exactly if the last one was accepted.
  pub deliver-Ends : Ends 1 (deliver_to_delivery_webhook_hook_with_retry policy tries)
  unfolding deliver_to_delivery_webhook_hook_with_retry
  deliver-Ends = deliver_from-Ends (attempts_fuel policy tries) 1 (omega arith) (omega arith)
