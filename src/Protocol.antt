-- ===== src/Protocol.antt =====
-- The messages between poller and endpoint server: protocol/.
pub mod Methods
pub mod Frame
pub mod Checks
pub mod Messages
pub mod Roundtrip
