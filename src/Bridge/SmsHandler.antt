-- ===== src/Bridge/SmsHandler.antt =====
-- src/bridge/sms_handler.rs: from the modem's storage to the messenger.
pub mod Fields
pub mod Storage
pub mod Listing
pub mod Intake
