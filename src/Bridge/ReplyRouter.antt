-- ===== src/Bridge/ReplyRouter.antt =====
-- src/bridge/reply_router.rs: the map from the ids of messenger messages to phone numbers.
pub mod Slots
pub mod Lookup
pub mod Stored
