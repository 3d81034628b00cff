-- ===== src/Tests/Intake.antt =====
-- A message from its PDU to the messenger, over the store of the tests.
use smsgate.Base.{
  ℕ, suc, ◌≡◌, length, take, drop, text_eq, if◌then◌else◌, refl, ◌⊎◌, ◌++◌, ◌<◌, inl, Bool, true,
  false, List, [], ◌∷◌, Option, none, some, Text, codes, decimal_text, arith,
}
use smsgate.Im.{MessageId}
use smsgate.Log.Entry.{LogEntry}
use smsgate.Mms.{Headers, read_headers}
use smsgate.Mms.Rounds.{Run, read_headers-Run}
use smsgate.Timer.{elapsed_since, is_past, elapsed_since-is_past}
use smsgate.Persist.Memory.{MemStore, mem_store}
use smsgate.Persist.Memory
use smsgate.Sms.Pdu.{SmsMessage}
use smsgate.Sms.Codec.Hex
use smsgate.Sms.Codec.Deliver
use smsgate.Sms.Codec.Result
use smsgate.Sms.Codec.Phone
use smsgate.Sms.Codec.Scts
use smsgate.Sms.Concat.Group.{StorageSlot}
use smsgate.Sms.Concat.Feed.{ConcatReassembler, empty}
use smsgate.Bridge.Forwarder.{World, forward_sms}
use smsgate.Bridge.Forwarder.Reported.{IsReported, forward_sms-IsReported}
use smsgate.Bridge.SmsHandler.Intake.{SmsDisposition, process_pdu_hex_with_slot}
use smsgate.Bridge.SmsHandler.Intake.Deletes.{Deletes}
use smsgate.Tests.Desk.{services, world}

abbrev message : SmsMessage
message = record { sender = codes "Bank"; body = codes "hi"; timestamp = []; slot = 3 }

abbrev forwarded : Option (World (List Text) (List LogEntry) MemStore × Option MessageId)
forwarded = forward_sms services message world []

abbrev world_of {ℓ κ} : {A : Type ℓ} {B : Type κ} → A → Option (A × B) → A
world_of w none = w
world_of w (some (w', b)) = w'

forward_sms-IsReported_example : IsReported services world (world_of world forwarded) message 7
unfolding forward_sms Memory.load Memory.save Memory.new smsgate.Base.encode_utf8
forward_sms-IsReported_example =
    forward_sms-IsReported services message world (world_of world forwarded) [] 7 refl

elapsed_since-is_past_example :
    (elapsed_since 4_294_967_290 4 ≡ 10) × (is_past 4_294_967_290 4 ≡ true)
elapsed_since-is_past_example = elapsed_since-is_past 4_294_967_290 10 (omega arith)

abbrev nothing_read : Headers
nothing_read = record {
  is_notification = false;
  content_location = none;
  message_size = none;
  expiry = none;
}

-- Three headers: the type of a notice, its version, and its size.
abbrev notice : List ℕ
notice = 0x8C ∷ 0x82 ∷ 0x8D ∷ 0x90 ∷ 0x8E ∷ 1 ∷ 200 ∷ []

read_headers-Run_example : Run 32 notice 0 nothing_read (read_headers 7 32 notice 0 nothing_read)
read_headers-Run_example = read_headers-Run 7 32 notice 0 nothing_read (omega arith)

-- "hi" from 1234.
abbrev pdu_hex : Text
pdu_hex = codes "000404912143000062400121000000" ++ codes "02E834"

abbrev stored_at : StorageSlot
stored_at = record { mem = codes "SM"; index = 3; fingerprint = 9 }

abbrev taken :
    Option (World (List Text) (List LogEntry) MemStore × (ConcatReassembler × SmsDisposition))
taken = process_pdu_hex_with_slot services 5 pdu_hex 3 (some stored_at) empty world []
