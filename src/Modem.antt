-- ===== src/Modem.antt =====
-- The modem as the rest of the program sees it: src/modem/mod.rs.
pub mod Status
pub mod Urc
use smsgate.Base.{ℕ, ◌++◌, Bool, List, Option, Text, codes}

pub record AtResponse : Type 0 where
  pub body : Text
  pub ok : Bool

pub data ModemError : Type 0 where
  timeout : ModemError
  interrupted_for_call : ModemError
  at_error : Text → ModemError
  io : ModemError
  not_ready : ModemError
  response_too_long : ModemError

-- `Display` of the error.
unfoldable pub error_text : ModemError → Text
error_text timeout = codes "timeout waiting for response"
error_text interrupted_for_call = codes "AT operation interrupted for incoming call"
error_text (at_error detail) = codes "modem returned ERROR: " ++ detail
error_text io = codes "UART write failed"
error_text not_ready = codes "modem not ready"
error_text response_too_long = codes "AT response exceeded the bounded body buffer"

pub data AtReply : Type 0 where
  answered : AtResponse → AtReply
  failed : ModemError → AtReply

-- The part of `AtTransport` that reads the stored messages. `send_at_streaming` gives the lines that
-- the callback saw, and the error if there is one.
pub record AtTransport {ℓ} (M : Type ℓ) : Type ℓ where
  pub send_at : M → Text → M × AtReply
  pub send_at_streaming : M → Text → M × (List Text × Option ModemError)
