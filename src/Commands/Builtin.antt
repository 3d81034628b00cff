-- ===== src/Commands/Builtin.antt =====
-- The commands of src/commands/builtin, but for the log's pages. `config::GIT_COMMIT` is the
-- parameter `commit`. Sorting is by the code points, as by the bytes of UTF-8.
use smsgate.Base.{
  ℕ, ◌-◌, ◌*◌, ◌/◌, ◌%◌, ltb, ◌==◌, not, ◌&&◌, ◌||◌, if◌then◌else◌, Bool, true, false, List, [],
  ◌∷◌, ◌++◌, Option, none, some, Text, codes, length, bytes, all, trim, split_once, is_whitespace,
  is_ascii_digit, decimal_text, parse_uint,
}
use smsgate.Strings.{char_prefix}
use smsgate.Locale.{Locale}
use smsgate.Log.Entry.{LogEntry, sms}
use smsgate.Modem.Status.{csq_unknown, registered, sms_only}
use smsgate.Persist.Interface.{load_bool, fwd_enabled}
use smsgate.Sms.Codec.Phone.{normalize_phone, is_valid_sms_destination}
use smsgate.Sms.Codec.Parts.{count_sms_parts}
use smsgate.Sms.Sender.Queue.{len}
use smsgate.Bridge.Blocklist.{is_blocked, load_blocklist}
use smsgate.Bridge.Forwarder.{Services}
use smsgate.Commands.{
  CommandContext, send_sentinel, block_sentinel, unblock_sentinel, pause_sentinel, resume_sentinel,
  restart_sentinel, encoded_sentinel_body,
}

abbrev pub max_sms_parts : ℕ
max_sms_parts = 10

-- A character of the digits and signs of a phone number.
abbrev pub is_number_byte : ℕ → Bool
is_number_byte b = is_ascii_digit b || b == 0x2B || b == 0x2D || b == 0x28 || b == 0x29 || b == 0x2E

-- `unwrap_or` of the setting, which is on where it is missing.
abbrev pub or_on : Option Bool → Bool
or_on none = true
or_on (some enabled) = enabled

abbrev pub or_hour : Option ℕ → ℕ
or_hour none = 60
or_hour (some mins) = mins

module _ (locale : Locale) where
  -- The reply for a message that may be sent.
  unfoldable pub send_reply : Text → Text → ℕ → Text
  unfolding char_prefix encoded_sentinel_body
  send_reply phone body parts =
      let (preview, truncated) = char_prefix body 50 in
      send_sentinel
      ++ (phone
          ++ (0x7C ∷ encoded_sentinel_body body
              ++ (0x0A ∷ locale.send_queued phone preview truncated parts)))

  unfoldable pub send_counted : Text → Text → ℕ → Text
  unfolding send_reply
  send_counted phone body parts =
      if parts == 0 then locale.send_too_long else send_reply phone body parts

  unfoldable pub send_to : Text → Text → Text
  unfolding all bytes send_counted
  send_to phone_raw body_raw =
      let phone = normalize_phone phone_raw in
      let body = trim body_raw in
      if not (all is_number_byte (bytes phone_raw))
      then locale.send_invalid_number
      else if not (is_valid_sms_destination phone)
      then locale.send_invalid_number
      else if length body == 0
      then locale.send_empty_body
      else send_counted phone body (count_sms_parts body max_sms_parts)

  unfoldable pub send : Text → Text
  unfolding split_once trim is_whitespace send_to
  send args = elim (split_once is_whitespace (trim args)) [
    | none ↦ locale.send_usage
    | some (phone_raw, body) ↦ send_to phone_raw body
  ]

  unfoldable pub block : Text → Text
  unfolding normalize_phone trim
  block args =
      let phone = normalize_phone (trim args) in
      if length phone == 0
      then locale.block_usage
      else block_sentinel ++ (phone ++ (0x0A ∷ locale.block_ok phone))

  unfoldable pub pause : Text → Text
  unfolding trim parse_uint decimal_text
  pause args =
      let mins = or_hour (parse_uint 4_294_967_295 (trim args)) in
      pause_sentinel ++ (decimal_text mins ++ (codes "  \n" ++ locale.pause_ok mins))

  unfoldable pub restart : Text → Text
  restart args = restart_sentinel ++ (codes "  \n" ++ locale.restart_ok)

-- The order of `str`.
unfoldable pub text_le : Text → Text → Bool
text_le [] t = true
text_le (c ∷ s) [] = false
text_le (c ∷ s) (d ∷ t) = ltb c d || (c == d && text_le s t)

unfoldable pub insert_text : Text → List Text → List Text
unfolding text_le
insert_text s [] = s ∷ []
insert_text s (t ∷ ts) = let rest = insert_text s ts in if text_le s t then s ∷ t ∷ ts else t ∷ rest

unfoldable pub sort_texts : List Text → List Text
unfolding insert_text
sort_texts [] = []
sort_texts (s ∷ ss) = insert_text s (sort_texts ss)

unfoldable pub list_items : List Text → Text
list_items [] = []
list_items (phone ∷ rest) = codes "- " ++ (phone ++ (0x0A ∷ list_items rest))

-- `-113 + 2 * csq` in decimals.
unfoldable pub csq_to_dbm : ℕ → Text
unfolding decimal_text
csq_to_dbm csq =
    if ltb (2 * csq) 113 then 0x2D ∷ decimal_text (113 - 2 * csq) else decimal_text (2 * csq - 113)

unfoldable pub signal_text : ℕ → Text
unfolding decimal_text csq_to_dbm
signal_text csq =
    if csq == csq_unknown
    then codes "N/A"
    else decimal_text csq ++ (codes "/31 (" ++ (csq_to_dbm csq ++ codes " dBm)"))

abbrev pub or_unknown : Text → Text → Text
or_unknown unknown [] = unknown
or_unknown unknown (c ∷ s) = c ∷ s

abbrev pub sender_and_time : Option LogEntry → Option (Text × Text)
sender_and_time none = none
sender_and_time (some entry) = some (entry.sender, entry.timestamp)

module _ {ℓ} {M L S : Type ℓ} (services : Services M L S) where
  unfoldable pub blocklist : CommandContext L S → Text
  unfolding load_blocklist sort_texts list_items
  blocklist ctx =
      let list = load_blocklist services.store services.json ctx.store in
      if length list == 0
      then services.locale.blocklist_empty
      else services.locale.blocklist_header (length list) ++ list_items (sort_texts list)

  unfoldable pub unblock : Text → CommandContext L S → Text
  unfolding normalize_phone trim is_blocked
  unblock args ctx =
      let phone = normalize_phone (trim args) in
      if length phone == 0
      then services.locale.unblock_usage
      else if not (is_blocked services.store services.json phone ctx.store)
      then services.locale.unblock_not_found phone
      else unblock_sentinel ++ (phone ++ (0x0A ∷ services.locale.unblock_ok phone))

  unfoldable pub resume : CommandContext L S → Text
  unfolding load_bool
  resume ctx =
      if or_on (load_bool services.store ctx.store fwd_enabled)
      then services.locale.resume_already_active
      else resume_sentinel ++ (codes "  \n" ++ services.locale.resume_ok)

  unfoldable pub status : Text → CommandContext L S → Text
  unfolding signal_text registered sms_only len load_blocklist load_bool
  status commit ctx =
      let uptime_s = ctx.uptime_ms / 1000 in
      let registration = ctx.modem_status.registration in
      services.locale.format_status (record {
        h = uptime_s / 3600;
        m = uptime_s % 3600 / 60;
        s = uptime_s % 60;
        signal = signal_text ctx.modem_status.csq;
        operator = or_unknown services.locale.status_op_unknown ctx.modem_status.operator;
        registered = registered registration;
        free_heap_kb = ctx.free_heap_bytes / 1024;
        min_free_heap_kb = ctx.min_free_heap_bytes / 1024;
        queue_n = len ctx.send_queue;
        blocked_n = length (load_blocklist services.store services.json ctx.store);
        log_n = services.log.len ctx.log_ring;
        fwd_on = or_on (load_bool services.store ctx.store fwd_enabled);
        last_sms = sender_and_time (services.log.latest_of_kind ctx.log_ring sms);
        wifi_info = ctx.wifi_info;
      })
      ++ ((if sms_only registration then services.locale.status_sms_only_notice else [])
          ++ services.locale.status_build commit)
