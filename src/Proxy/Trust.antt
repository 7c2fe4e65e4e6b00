-- ===== src/Proxy/Trust.antt =====
-- The proxy's trust between agents: pairing tickets, pairs and revocations.
pub mod Keys
pub mod Types
pub mod Store
pub mod Confirm
pub mod Tickets
pub mod System
pub mod Tests
