-- ===== src/Proxy/TrustState.antt =====
-- apps/proxy/src/proxy-trust-state: the trust store as a durable object, over its storage.
pub mod Utils
pub mod Storage
pub mod Handlers
pub mod Controller
pub mod System
pub mod Errors
pub mod Tests
