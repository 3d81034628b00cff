-- ===== src/Sms.antt =====
-- src/sms: the PDU codec, the reassembly of concatenated messages and the outbound queue.
pub mod Pdu
pub mod Codec
pub mod Concat
pub mod Sender
