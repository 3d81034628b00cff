-- ===== src/Sms/Sender.antt =====
-- src/sms/sender.rs: the outbound queue with retries and the rate limit of /send.
pub mod Queue
pub mod Drain
pub mod Invariant
pub mod Accepted
pub mod RateLimit
pub mod Delivery
