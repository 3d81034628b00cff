-- ===== src/Sms/Codec.antt =====
-- src/sms/codec.rs: the encoding and decoding of SMS PDUs.
pub mod Result
pub mod Hex
pub mod Gsm7
pub mod Septets
pub mod Ucs2
pub mod Phone
pub mod Safe
pub mod Scts
pub mod Deliver
pub mod StatusReport
pub mod Unix
pub mod Submit
pub mod Parts
pub mod Clip
pub mod Rfc3339
