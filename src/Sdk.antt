-- ===== src/Sdk.antt =====
-- packages/sdk: the security helpers that servers share.
pub mod NonceCache
