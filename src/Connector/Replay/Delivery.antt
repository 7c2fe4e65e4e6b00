-- ===== src/Connector/Replay/Delivery.antt =====
-- packages/connector/src/runtime/replay.ts and policy.ts: one delivery to the webhook with its
-- retries. What the webhook, the token and the shutdown do is given by the number of the attempt.
pub mod Attempts
use clawdentity.Shared.{
  ℕ, zero, suc, ◌+◌, ◌-◌, ◌*◌, ◌/◌, ◌^◌, min, max, String, Bool, true, false, not, ◌&&◌, ◌||◌,
  Option, none, some, ltb, if◌then◌else◌,
}

-- `code` of a LocalDeliveryWebhookDeliveryError; other errors have none.
pub data ErrorCode : Type 0 where
  hook_auth_rejected runtime_stopping other : ErrorCode

-- An error with its sanitized reason; one of another class is `other` and retryable.
pub record DeliveryError : Type 0 where
  pub code : ErrorCode
  pub retryable : Bool
  pub reason : String

-- The backoff factors are fractions.
pub record InboundReplayPolicy : Type 0 where
  pub batch_size : ℕ
  pub dead_letter_non_retryable_max_attempts : ℕ
  pub retry_initial_delay_ms : ℕ
  pub retry_max_delay_ms : ℕ
  pub retry_backoff_factor : ℕ × ℕ
  pub runtime_replay_max_attempts : ℕ
  pub runtime_replay_retry_initial_delay_ms : ℕ
  pub runtime_replay_retry_max_delay_ms : ℕ
  pub runtime_replay_retry_backoff_factor : ℕ × ℕ

abbrev backoff : ℕ → ℕ → ℕ × ℕ → ℕ → ℕ
backoff initial limit factor attempt_count =
    let exponent = attempt_count - 1 in
    max 1 (min limit (initial * factor.0 ^ exponent / factor.1 ^ exponent))

unfoldable pub compute_replay_delay_ms : ℕ → InboundReplayPolicy → ℕ
compute_replay_delay_ms attempt_count policy =
    backoff policy.retry_initial_delay_ms policy.retry_max_delay_ms policy.retry_backoff_factor
      attempt_count

unfoldable pub compute_runtime_replay_retry_delay_ms : ℕ → InboundReplayPolicy → ℕ
compute_runtime_replay_retry_delay_ms attempt_count policy =
    backoff policy.runtime_replay_retry_initial_delay_ms policy.runtime_replay_retry_max_delay_ms
      policy.runtime_replay_retry_backoff_factor attempt_count

-- What `syncDeliveryWebhookHookToken` does: it throws, or the token is another one or not.
pub data SyncOutcome : Type 0 where
  sync_throws : DeliveryError → SyncOutcome
  token_changed : Bool → SyncOutcome

-- What surrounds a delivery, by the number of the attempt: the webhook's answer, where `none` is a
-- success, the token, whether the runtime stops at the two tests, and whether it stops in the wait
-- of this length.
pub record Tries : Type 0 where
  pub hook : ℕ → Option DeliveryError
  pub sync : ℕ → SyncOutcome
  pub stopping_after_sync : ℕ → Bool
  pub stopping : ℕ → Bool
  pub stops_in_wait : ℕ → ℕ → Bool

pub data Next : Type 0 where
  again : Next
  throws : DeliveryError → Next

abbrev pub stopped : DeliveryError
stopped = record {
  code = runtime_stopping;
  retryable = false;
  reason = "Connector runtime is stopping";
}

module _ (policy : InboundReplayPolicy) (tries : Tries) where
  unfoldable pub attempts_remain : ℕ → Bool
  attempts_remain attempt = ltb attempt policy.runtime_replay_max_attempts

  -- The end of the loop's body.
  unfoldable pub retry_or_throw : ℕ → DeliveryError → Next
  unfolding attempts_remain
  retry_or_throw attempt e =
      if not e.retryable || (not (attempts_remain attempt) || tries.stopping attempt)
      then throws e
      else if tries.stops_in_wait attempt (compute_runtime_replay_retry_delay_ms attempt policy)
      then throws stopped
      else again

  unfoldable pub after_sync : ℕ → DeliveryError → SyncOutcome → Next
  unfolding retry_or_throw
  after_sync attempt e (sync_throws e') = throws e'
  after_sync attempt e (token_changed changed) =
      if changed && (not (tries.stopping_after_sync attempt) && attempts_remain attempt)
      then again
      else retry_or_throw attempt e

  unfoldable pub after_failure : ℕ → DeliveryError → ErrorCode → Next
  unfolding after_sync
  after_failure attempt e runtime_stopping = throws e
  after_failure attempt e hook_auth_rejected = after_sync attempt e (tries.sync attempt)
  after_failure attempt e other = retry_or_throw attempt e

  -- The loop `while (true)`, with fuel: the last attempt and what it throws, where the outer `none`
  -- means that the fuel ran out.
  unfoldable pub deliver_from : ℕ → ℕ → Option (ℕ × Option DeliveryError)
  unfolding after_failure
  deliver_from zero attempt = none
  deliver_from (suc fuel) attempt = elim (tries.hook attempt) [
    | none ↦ some (attempt, none)
    | some e ↦ elim (after_failure attempt e e.code) [
      | again ↦ deliver_from fuel (attempt + 1)
      | throws e' ↦ some (attempt, some e')
    ]
  ]

  abbrev pub attempts_fuel : ℕ
  attempts_fuel = max 1 policy.runtime_replay_max_attempts

  unfoldable pub deliver_to_delivery_webhook_hook_with_retry : Option (ℕ × Option DeliveryError)
  unfolding deliver_from
  deliver_to_delivery_webhook_hook_with_retry = deliver_from attempts_fuel 1
