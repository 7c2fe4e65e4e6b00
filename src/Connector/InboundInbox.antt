-- ===== src/Connector/InboundInbox.antt =====
-- packages/connector/src/inbound-inbox.ts: the durable inbox of delivered frames, with the dead
-- letters of those that the local agent refused. Each call runs in one transaction under the write
-- lock; `none` is a call that throws and whose transaction is rolled back. `now` is `nowIso()`.
pub mod Types
pub mod Storage
pub mod Due
pub mod Listed
pub mod Snapshot
pub mod DeadLetters
pub mod Replayed
pub mod Calls
pub mod Sound
pub mod Preserved
pub mod Kept
pub mod Runs
pub mod Caps
pub mod Tests
pub mod Attempts
