-- ===== src/Im.antt =====
-- The messenger as the rest of the program sees it: src/im/mod.rs.
use smsgate.Base.{ℕ, ◌++◌, Option, List, [], ◌∷◌, Text, codes, decimal_text}

-- A message's id is an i64, here its bit pattern.
abbrev pub MessageId : Type 0
MessageId = ℕ

pub data MessageFormat : Type 0 where
  plain : MessageFormat
  html : MessageFormat

pub data MessengerError : Type 0 where
  http : Text → MessengerError
  outcome_unknown : Text → MessengerError
  json : Text → MessengerError
  rate_limited : ℕ → Text → MessengerError
  api : Text → MessengerError
  timeout : Text → MessengerError
  disconnected : MessengerError

-- `Display` of the error.
unfoldable pub error_text : MessengerError → Text
error_text (http why) = codes "HTTP error: " ++ why
error_text (outcome_unknown why) = codes "Telegram request outcome unknown: " ++ why
error_text (json why) = codes "JSON parse error: " ++ why
error_text (rate_limited secs why) =
    codes "API rate limited: retry after " ++ (decimal_text secs ++ (codes "s: " ++ why))
error_text (api why) = codes "API error: " ++ why
error_text (timeout why) = codes "timeout: " ++ why
error_text disconnected = codes "not connected"

pub data Delivery : Type 0 where
  delivered : MessageId → Delivery
  refused : MessengerError → Delivery

-- The part of `MessageSink` that the forwarding of messages uses.
pub record MessageSink {ℓ} (M : Type ℓ) : Type ℓ where
  pub send_message_with_format : M → Text → MessageFormat → M × Delivery

pub record InlineKeyboardButton : Type 0 where
  pub text : Text
  pub callback_data : Text

pub record InlineKeyboard : Type 0 where
  pub rows : List (List InlineKeyboardButton)

abbrev pub single_row : List InlineKeyboardButton → InlineKeyboard
single_row [] = record { rows = [] }
single_row (button ∷ buttons) = record { rows = (button ∷ buttons) ∷ [] }

pub record InboundCallback : Type 0 where
  pub id : Text
  pub data_text : Text
  pub message_id : MessageId

-- A document that came with a message.
pub record InboundDocument : Type 0 where
  pub file_id : Text
  pub file_unique_id : Text
  pub file_name : Option Text
  pub mime_type : Option Text
  pub file_size : Option ℕ
  pub caption : Option Text

pub record InboundMessage : Type 0 where
  pub cursor : ℕ
  pub text : Text
  pub reply_to : Option MessageId
  pub document : Option InboundDocument
  pub callback : Option InboundCallback

-- `CommandResponder`; each call gives an error if there is one.
pub record CommandResponder {ℓ} (M : Type ℓ) : Type ℓ where
  pub send_reply : M → Text → Option InlineKeyboard → MessageFormat → M × Option MessengerError
  pub edit_reply :
      M → MessageId → Text → Option InlineKeyboard → MessageFormat → M × Option MessengerError
  pub answer_callback : M → Text → Option Text → M × Option MessengerError
