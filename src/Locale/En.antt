-- ===== src/Locale/En.antt =====
-- The English texts of src/i18n/en.rs, with the escaping of src/i18n/mod.rs. How a size of 1024 bytes
-- or more is written with decimals is Rust's f64: the parameter `format_bytes`.
pub mod Markup
use smsgate.Base.{
  ℕ, ◌/◌, ◌%◌, ltb, ◌==◌, if◌then◌else◌, Bool, true, false, List, [], ◌∷◌, ◌++◌, Option, none, some,
  Text, codes, decimal_text, padded_text,
}
use smsgate.Mms.{MmsExpiry, absolute_unix_seconds, relative_seconds}
use smsgate.Locale.{Locale, StatusFacts}

abbrev pub escaped : ℕ → Text
escaped c =
    if c == 0x26
    then codes "&amp;"
    else if c == 0x3C
    then codes "&lt;"
    else if c == 0x3E
    then codes "&gt;"
    else c ∷ []

unfoldable pub html_escape : Text → Text
html_escape [] = []
html_escape (c ∷ s) = escaped c ++ html_escape s

unfoldable pub sms_received : Text → Text → Text → Text
unfolding html_escape
sms_received sender ts body =
    codes "📱 <code>"
    ++ (html_escape sender
        ++ (codes "</code>\n🕐 " ++ (html_escape ts ++ (codes "\n\n" ++ html_escape body))))

unfoldable pub duration_after : ℕ → Text
unfolding decimal_text
duration_after seconds =
    if seconds % 86_400 == 0
    then decimal_text (seconds / 86_400) ++ codes " d after notification"
    else if seconds % 3_600 == 0
    then decimal_text (seconds / 3_600) ++ codes " h after notification"
    else if seconds % 60 == 0
    then decimal_text (seconds / 60) ++ codes " min after notification"
    else decimal_text seconds ++ codes " s after notification"

unfoldable pub mms_expiry : MmsExpiry → Text
unfolding duration_after decimal_text
mms_expiry (relative_seconds seconds) = duration_after seconds
mms_expiry (absolute_unix_seconds seconds) = codes "Unix timestamp " ++ decimal_text seconds

unfoldable pub expires : Option MmsExpiry → Text
unfolding mms_expiry
expires none = []
expires (some expiry) = codes "\nExpires: " ++ mms_expiry expiry

abbrev pub size_line : (ℕ → Text) → Option ℕ → Text
size_line format_bytes none = []
size_line format_bytes (some size) = codes "\nSize: " ++ format_bytes size

unfoldable pub mms_notification : (ℕ → Text) → Text → Option ℕ → Option MmsExpiry → Text
unfolding expires
mms_notification format_bytes url message_size expiry =
    codes "📎 MMS notification (content not downloaded)\nURL: "
    ++ (url ++ (size_line format_bytes message_size ++ expires expiry))

abbrev pub registration_text : Option Bool → Text
registration_text none = codes "unknown"
registration_text (some true) = codes "registered"
registration_text (some false) = codes "not registered"

abbrev pub wifi_line : Text → Text
wifi_line [] = []
wifi_line (c ∷ s) = codes "📶 WiFi: " ++ ((c ∷ s) ++ codes "\n")

unfoldable pub heap_line : ℕ → ℕ → Text
unfolding decimal_text
heap_line free least =
    if ltb 0 free
    then (if ltb 0 least
        then codes "💾 Heap: "
          ++ (decimal_text free
              ++ (codes " KB free, " ++ (decimal_text least ++ codes " KB minimum\n")))
        else codes "💾 Heap: " ++ (decimal_text free ++ codes " KB free\n"))
    else []

abbrev pub last_line : Option (Text × Text) → Text
last_line none = []
last_line (some (sender, ts)) =
    codes "📩 Last SMS: " ++ (sender ++ (codes " at " ++ (ts ++ codes "\n")))

unfoldable pub format_status : StatusFacts → Text
unfolding heap_line decimal_text padded_text
format_status f =
    codes "📊 smsgate status\n⏱ Uptime: "
    ++ (padded_text f.h
        ++ (codes "h "
            ++ (padded_text f.m
                ++ (codes "m "
                    ++ (padded_text f.s
                        ++ (codes "s\n"
                            ++ (wifi_line f.wifi_info
                                ++ (codes "📶 Signal: "
                                    ++ (f.signal
                                        ++ (codes " — "
                                            ++ (f.operator
                                                ++ (codes "\n🌐 Network: "
                                                    ++ (registration_text f.registered
                                                        ++ (codes "\n"
                                                            ++ (heap_line f.free_heap_kb
                                                            f.min_free_heap_kb
                                                            ++ (codes "📬 Queue: "
                                                            ++ (decimal_text f.queue_n
                                                            ++ (codes " pending\n🚫 Blocked: "
                                                            ++ (decimal_text f.blocked_n
                                                            ++ (codes " number(s)\n📋 Log: "
                                                            ++ (decimal_text f.log_n
                                                            ++ (codes " messages\n🔄 Forwarding: "
                                                            ++ ((if f.fwd_on
                                                            then codes "enabled"
                                                            else codes "PAUSED")
                                                            ++ (codes "\n"
                                                            ++ last_line
                                                            f.last_sms))))))))))))))))))))))))

unfoldable pub send_queued : Text → Text → Bool → ℕ → Text
unfolding decimal_text
send_queued phone preview truncated parts =
    codes "Queued: "
    ++ (phone
        ++ (codes " → \""
            ++ (preview
                ++ ((if truncated then codes "…" else [])
                    ++ (codes "\" (" ++ (decimal_text parts ++ codes " part(s))"))))))

unfoldable pub log_header : ℕ → ℕ → ℕ → ℕ → Text
unfolding decimal_text
log_header page_len total offset page_size =
    codes "Log page: "
    ++ (decimal_text page_len
        ++ (codes " entries, total "
            ++ (decimal_text total ++ (codes ", offset " ++ (decimal_text offset ++ codes ".\n")))))

unfoldable pub english : (ℕ → Text) → Locale
unfolding sms_received mms_notification format_status send_queued log_header decimal_text
english format_bytes = record {
  sms_received = sms_received;
  mms_notification = mms_notification format_bytes;
  incoming_call = λ display. codes "📞 Incoming call from " ++ display;
  send_usage = codes "Usage: /send <number> <message text>";
  send_invalid_number = codes "Invalid phone number";
  send_empty_body = codes "Message body is empty";
  send_too_long = codes "Message too long (> 10 SMS parts)";
  send_queued = send_queued;
  send_rate_limited = codes "Rate limit: at most 5 /send commands per minute.";
  block_usage = codes "Usage: /block <number>";
  block_ok = λ phone. codes "Blocked: " ++ phone;
  blocklist_empty = codes "Block list is empty.";
  blocklist_header = λ n. codes "Blocked numbers (" ++ (decimal_text n ++ codes "):\n");
  unblock_usage = codes "Usage: /unblock <number>";
  unblock_not_found = λ phone. phone ++ codes " is not in the block list.";
  unblock_ok = λ phone. codes "Unblocked: " ++ phone;
  pause_ok = λ mins. codes "Forwarding paused for " ++ (decimal_text mins ++ codes " min.");
  resume_already_active = codes "Forwarding is already active.";
  resume_ok = codes "Forwarding resumed.";
  restart_ok = codes "Rebooting…";
  storage_write_failed = codes "❌ Setting was not saved. Check /log and retry.";
  status_op_unknown = codes "unknown";
  status_sms_only_notice = codes "📩 Registration allows SMS only\n";
  status_build = λ commit. codes "🔖 Build: " ++ commit;
  format_status = format_status;
  log_empty = codes "No SMS history.";
  log_header = log_header;
  log_read_failed = λ error. codes "Log read failed: " ++ error;
  log_button_newer = codes "Newer";
  log_button_older = codes "Older";
}
