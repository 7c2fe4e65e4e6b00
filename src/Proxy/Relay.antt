-- ===== src/Proxy/Relay.antt =====
-- apps/proxy/src/agent-relay-session: one session per recipient agent, which forwards deliveries to
-- the agent's connector or keeps them in a durable queue, and remembers their receipts.
pub mod Types
pub mod Invariant
pub mod Policy
pub mod Queue
pub mod Scheduler
pub mod Manager
pub mod Session
