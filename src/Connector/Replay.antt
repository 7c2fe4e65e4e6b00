-- ===== src/Connector/Replay.antt =====
-- packages/connector/src/runtime: the replay of the inbox's pending messages to the local webhook.
pub mod Delivery
pub mod Lanes
pub mod Pass
pub mod Tests
