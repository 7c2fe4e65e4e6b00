-- ===== src/Proxy/Relay/Policy.antt =====
-- apps/proxy/src/agent-relay-session/policy.ts: the delay before the next attempt.
use clawdentity.Shared.{ℕ, ◌+◌, ◌-◌, ◌*◌, ◌/◌, ◌^◌, ◌<◌, min, max, nat_eq, if◌then◌else◌}
use clawdentity.Proxy.Relay.Types.{RelayDeliveryPolicy}

-- A value of `Math.random()`: the fraction `num / den`, at least 0 and less than 1.
pub record Sample : Type 0 where
  pub num : ℕ
  pub den : ℕ
  pub below_one : num < den

base_delay_ms : RelayDeliveryPolicy → ℕ → ℕ
base_delay_ms policy prior_attempts =
    min policy.retry_max_ms (policy.retry_initial_ms * 2 ^ (prior_attempts - 1))

-- `Math.max(1, Math.floor(baseDelay - jitterSpan))`; a difference below 0 gives 1 as well.
lower_bound : RelayDeliveryPolicy → ℕ → ℕ
lower_bound policy base =
    max 1 ((base * policy.jitter_den - base * policy.jitter_num) / policy.jitter_den)

-- `Math.ceil(baseDelay + jitterSpan)`
upper_bound : RelayDeliveryPolicy → ℕ → ℕ
upper_bound policy base =
    (base * policy.jitter_den + base * policy.jitter_num + (policy.jitter_den - 1))
    / policy.jitter_den

-- `Math.floor(lowerBound + Math.random() * (upperBound - lowerBound))`, also where the bounds cross.
sample_between : ℕ → ℕ → Sample → ℕ
sample_between lower upper r = (lower * r.den + r.num * upper - r.num * lower) / r.den

unfoldable pub compute_retry_delay_ms : RelayDeliveryPolicy → ℕ → Sample → ℕ
unfolding base_delay_ms lower_bound upper_bound sample_between
compute_retry_delay_ms policy prior_attempts r =
    let base = base_delay_ms policy prior_attempts in
    if nat_eq policy.jitter_num 0
    then base
    else min policy.retry_max_ms
        (sample_between (lower_bound policy base) (upper_bound policy base) r)
