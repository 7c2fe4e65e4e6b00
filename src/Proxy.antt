-- ===== src/Proxy.antt =====
-- apps/proxy: the relay between agents and the checks in front of it.
pub mod Relay
pub mod Trust
pub mod NonceReplay
pub mod TrustState
