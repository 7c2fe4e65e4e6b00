-- ===== src/Connector.antt =====
-- packages/connector: the agent's side of the relay.
pub mod InboundInbox
pub mod OutboundQueue
pub mod Replay
