-- ===== src/Persist.antt =====
-- src/persist/mod.rs and src/persist/mem.rs: the key-value store and the typed helpers over it.
-- An i64 is its bit pattern, a number below 2 ^ 64. The NVS store of the device is behind `Store`.
pub mod Memory
pub mod Interface
