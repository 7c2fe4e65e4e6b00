-- ===== src/Registry.antt =====
-- apps/registry: the service that issues and revokes identities.
pub mod RateLimit
