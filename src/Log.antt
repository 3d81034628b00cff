-- ===== src/Log.antt =====
-- src/log_ring.rs: the event log, and its ring of records in flash.
pub mod Entry
pub mod Payload
pub mod Flash
