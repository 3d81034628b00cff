-- ===== src/Bridge.antt =====
-- src/bridge: what the bridge between SMS and the messenger keeps and decides.
pub mod ReplyRouter
pub mod Blocklist
pub mod Forwarder
pub mod SmsHandler
pub mod Poller
pub mod CallHandler
pub mod AtHandler
