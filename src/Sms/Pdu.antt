-- ===== src/Sms/Pdu.antt =====
-- The records of src/sms/codec.rs and src/sms/mod.rs that the other modules read.
use smsgate.Base.{ℕ, List, Option, Bool, Text}

-- A parsed SMS-DELIVER PDU.
pub record SmsPdu : Type 0 where
  pub sender : Text
  pub timestamp : Text
  pub content : Text
  pub dcs : ℕ
  pub user_data_header : List ℕ
  pub user_data_payload : List ℕ
  pub destination_port : Option ℕ
  pub source_port : Option ℕ
  pub is_concatenated : Bool
  pub concat_ref : ℕ
  pub concat_total : ℕ
  pub concat_part : ℕ

-- An SMS-SUBMIT PDU: SCA and TPDU in hex, and the byte count of the TPDU.
pub record SmsSubmitPdu : Type 0 where
  pub hex : Text
  pub tpdu_len : ℕ

-- A message that has been put together; `slot` is its place in the modem's storage.
pub record SmsMessage : Type 0 where
  pub sender : Text
  pub body : Text
  pub timestamp : Text
  pub slot : ℕ
