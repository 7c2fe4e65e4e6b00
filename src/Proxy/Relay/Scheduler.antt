-- ===== src/Proxy/Relay/Scheduler.antt =====
-- apps/proxy/src/agent-relay-session/scheduler.ts: the session's next alarm. `none` is a deleted
-- alarm.
pub mod Wake
use clawdentity.Shared.{ℕ, ◌+◌, min, Bool, true, false, Option, none, some}
use clawdentity.Proxy.Relay.Types.{RelayQueueState}
use clawdentity.Proxy.Relay.Queue.{find_next_queue_wake_ms}

abbrev pub relay_heartbeat_interval_ms : ℕ
relay_heartbeat_interval_ms = 30_000

-- `Math.min(...candidates)` of the two candidates that may be there.
next_alarm : Option ℕ → Bool → ℕ → Option ℕ
next_alarm none false now = none
next_alarm none true now = some (now + relay_heartbeat_interval_ms)
next_alarm (some wake) false now = some wake
next_alarm (some wake) true now = some (min wake (now + relay_heartbeat_interval_ms))

unfoldable pub schedule_next_relay_alarm : RelayQueueState → ℕ → Bool → Option ℕ
unfolding next_alarm
schedule_next_relay_alarm q now has_active_sockets =
    next_alarm (find_next_queue_wake_ms q now) has_active_sockets now
