-- ===== src/Sms/Concat.antt =====
-- src/sms/concat.rs: the reassembly of concatenated messages.
-- `Instant::now()` is the argument `now`, in nanoseconds; an index out of range, which panics, is
-- `none`.
pub mod Group
pub mod Feed
pub mod Invariant
pub mod Completion
pub mod InOrder
