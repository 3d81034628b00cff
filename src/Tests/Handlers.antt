-- ===== src/Tests/Handlers.antt =====
-- The handlers of calls, of AT commands and of the modem's storage.
use smsgate.Base.{
  ℕ, ◌+◌, ◌≤◌, ◌≡◌, ◌⊎◌, refl, inl, inr, Bool, true, false, List, [], ◌∷◌, Option, none, some, Text,
  codes, length, bytes, retain, arith,
}
use smsgate.Locale.En.{sms_received}
use smsgate.Locale.En.Markup.{is_angle, retain-sms_received}
use smsgate.Modem.{AtTransport, AtReply, answered}
use smsgate.Modem.Urc.{parse_urc, new_sms}
use smsgate.Sms.Pdu.{SmsMessage}
use smsgate.Sms.Concat.Group.{StorageSlot}
use smsgate.Bridge.CallHandler.{idle, ringing, cooling, HangUp, CallNotification}
use smsgate.Bridge.CallHandler.Spacing.{Event, urc, tick, on_event, run, run_after_notification}
use smsgate.Bridge.AtHandler.{parse_hidden_at_command, AtTexts, reply_of, max_response_bytes}
use smsgate.Bridge.AtHandler.Allowed.{IsAllowed, parse_hidden_at_command-IsAllowed, reply_of-le}
use smsgate.Bridge.SmsHandler.Storage.{delete_verified_sms_slot}
use smsgate.Bridge.SmsHandler.Storage.Verified.{IsDeleted, delete_verified_sms_slot-IsDeleted}
use smsgate.Tests.Desk.{services}

-- A modem that counts how often it hung up.
abbrev counting : HangUp ℕ
counting = record { hang_up = λ m. (m + 1, none) }

abbrev notice : CallNotification
notice = record {
  text = services.locale.incoming_call (codes "unknown caller");
  caller_display = codes "unknown caller";
  detail = codes "incoming call; hung up";
  hang_up_error = none;
}

abbrev later : List (ℕ × Event)
later = (3_000_000_000, urc (codes "RING")) ∷ (4_000_000_000, tick) ∷ []

run_after_notification_example :
    ((tick ≡ urc (codes "NO CARRIER")) × (cooling 8_000_000_000 ≡ idle))
    ⊎ ((cooling 8_000_000_000 ≡ cooling 8_000_000_000)
        × (run counting services.locale later (cooling 8_000_000_000) 1
            ≡ some (cooling 8_000_000_000, (1, []))))
unfolding on_event
run_after_notification_example =
    run_after_notification counting services.locale 2_000_000_000 tick (ringing 1_500_000_000 none)
      (cooling 8_000_000_000) 0 1 notice later refl (omega arith)

parse_hidden_at_command-IsAllowed_example : IsAllowed (codes "+csq")
unfolding parse_hidden_at_command smsgate.Base.encode_utf8
parse_hidden_at_command-IsAllowed_example =
    parse_hidden_at_command-IsAllowed (codes "/at@bot at+csq") (codes "+csq") refl

abbrev texts : AtTexts
texts = record {
  at_transport_error = λ error. error;
  at_response_truncated = codes "\n[response truncated]";
  at_usage = codes "Usage: /at AT+CSQ";
  at_invalid_command = codes "Invalid AT command.";
  at_command_too_long = codes "AT command is too long.";
  at_unsupported_command = codes "Not supported.";
}

reply_of-le_example :
    length (bytes (reply_of texts (codes "+CSQ: 20,99" ∷ [], none)).text)
    ≤ max_response_bytes + length (bytes (codes "\n[response truncated]")) + 6
reply_of-le_example = reply_of-le texts (codes "+CSQ: 20,99" ∷ [], none)

retain-sms_received_example :
    retain is_angle (sms_received (codes "<b>") (codes "now") (codes "a > b")) ≡ codes "<><>"
retain-sms_received_example = retain-sms_received (codes "<b>") (codes "now") (codes "a > b")

-- A modem that answers every command with the same stored message; its state counts the commands.
abbrev stored_reply : AtReply
stored_reply = answered (record { body = codes "+CMGR: 0,,20\nOK1\n0004AB"; ok = true })

abbrev storing : AtTransport ℕ
storing = record {
  send_at = λ m command. (m + 1, stored_reply);
  send_at_streaming = λ m command. (m + 1, ([], none));
}

abbrev size_hash : Text → Option SmsMessage → ℕ
size_hash hex decoded = length hex

abbrev expected : StorageSlot
expected = record { mem = codes "SM"; index = 3; fingerprint = 6 }

delete_verified_sms_slot-IsDeleted_example : IsDeleted storing size_hash expected 0 4
unfolding delete_verified_sms_slot smsgate.Base.encode_utf8
delete_verified_sms_slot-IsDeleted_example =
    delete_verified_sms_slot-IsDeleted storing size_hash expected 0 4 refl

new_sms_notice : parse_urc (codes "+CMTI: \"SM\",3") ≡ new_sms (codes "SM") 3
unfolding parse_urc smsgate.Base.text_eq smsgate.Base.is_whitespace
new_sms_notice = refl
