-- ===== src/Bridge/Forwarder.antt =====
-- The forwarding of a message to the messenger: src/bridge/forwarder.rs. `none` is a panic, which
-- a slice of the sender or of the time stamp can end in.
pub mod Reported
use smsgate.Base.{
  ℕ, ltb, ◌==◌, not, ◌&&◌, ◌||◌, if◌then◌else◌, Bool, true, false, List, [], ◌∷◌, ◌++◌, Option,
  none, some, ◌>>=◌, Text, codes, length,
}
use smsgate.Strings.{char_prefix}
use smsgate.Locale.{Locale}
use smsgate.Im.{
  MessageId, MessageSink, MessengerError, error_text, Delivery, delivered, refused, html,
}
use smsgate.Log.Entry.{LogEntry, LogEvent, Log, at, new, network_event, sms_entry, system}
use smsgate.Persist.Interface.{Store, load_bool, fwd_enabled}
use smsgate.Sms.Pdu.{SmsMessage}
use smsgate.Sms.Codec.Phone.{human_readable_phone}
use smsgate.Sms.Codec.Rfc3339.{push_timestamp_rfc3339, timestamp_to_rfc3339}
use smsgate.Bridge.ReplyRouter.Slots.{ReplyRouter, put}
use smsgate.Bridge.Blocklist.{Json, is_blocked}

abbrev pub sms_log_preview_chars : ℕ
sms_log_preview_chars = 160

-- What the forwarding uses: messenger, log, store, JSON, texts, and the width of a usize.
pub record Services {ℓ} (M L S : Type ℓ) : Type ℓ where
  pub sink : MessageSink M
  pub log : Log L
  pub store : Store S
  pub json : Json
  pub locale : Locale
  pub usize_bits : ℕ

-- What it changes.
pub record World {ℓ} (M L S : Type ℓ) : Type ℓ where
  pub messenger : M
  pub router : ReplyRouter
  pub log : L
  pub store : S

unfoldable pub sms_log_preview : SmsMessage → Option Text
unfolding char_prefix push_timestamp_rfc3339
sms_log_preview sms =
    let body = (char_prefix sms.body sms_log_preview_chars).0 in
    if length sms.timestamp == 0 then some body else (do
      (out, read) ← push_timestamp_rfc3339 (codes "sms_time=") sms.timestamp false 480
      some ((if read then out else out ++ sms.timestamp) ++ (0x20 ∷ body)))

unfoldable pub sms_log_entry : SmsMessage → Text → Bool → Option LogEntry
unfolding sms_log_preview
sms_log_entry sms log_timestamp forwarded = do
  preview ← sms_log_preview sms
  some (sms_entry sms.sender preview log_timestamp forwarded)

-- `load_bool(store, FWD_ENABLED) == Some(false)`.
abbrev pub is_off : Option Bool → Bool
is_off none = false
is_off (some enabled) = not enabled

module _ {ℓ} {M L S : Type ℓ} (services : Services M L S) where
  unfoldable pub sms_forward_text : SmsMessage → Option Text
  unfolding human_readable_phone timestamp_to_rfc3339
  sms_forward_text sms = do
    display ← human_readable_phone sms.sender
    time ← timestamp_to_rfc3339 sms.timestamp false 480
    some (services.locale.sms_received display time sms.body)

  unfoldable pub log_to : World M L S → LogEntry → World M L S
  log_to world entry = record world { log = services.log.push world.log entry }

  unfoldable pub is_paused : S → Bool
  unfolding load_bool
  is_paused s = is_off (load_bool services.store s fwd_enabled)

module _ {ℓ} {M L S : Type ℓ} (services : Services M L S) where
  -- The mapping of the message's id to its sender, and a note if it could not be saved.
  unfoldable pub remember : SmsMessage → MessageId → World M L S → Text → World M L S
  unfolding put log_to at
  remember sms msg_id world log_timestamp =
      let (router, store, saved) =
        put services.store services.usize_bits world.router msg_id sms.sender world.store in
      let world' = record world { router = router; store = store } in
      if saved
      then world'
      else log_to services world' (
          at (new system (codes "reply map") (codes "failed to persist SMS reply mapping") false)
            log_timestamp)

  unfoldable pub record_forward_success :
      SmsMessage → MessageId → World M L S → Text → Option (World M L S)
  unfolding remember sms_log_entry log_to
  record_forward_success sms msg_id world log_timestamp = do
    entry ← sms_log_entry sms log_timestamp true
    some (log_to services (remember sms msg_id world log_timestamp) entry)

  unfoldable pub record_forward_failure :
      SmsMessage → MessengerError → World M L S → Text → Option (World M L S)
  unfolding sms_log_entry log_to at error_text
  record_forward_failure sms error world log_timestamp = do
    entry ← sms_log_entry sms log_timestamp false
    some (
        log_to services (log_to services world entry) (
          at (network_event (codes "telegram") (codes "send failed: " ++ error_text error) false)
            log_timestamp))

  -- A message that is not sent on is logged.
  unfoldable pub drop_sms :
      SmsMessage → World M L S → Text → Option (World M L S × Option MessageId)
  unfolding sms_log_entry log_to
  drop_sms sms world log_timestamp = do
    entry ← sms_log_entry sms log_timestamp false
    some (log_to services world entry, none)

  unfoldable pub after_send :
      SmsMessage → World M L S → Text → Delivery → Option (World M L S × Option MessageId)
  unfolding record_forward_success record_forward_failure
  after_send sms world log_timestamp (delivered msg_id) = do
    world' ← record_forward_success sms msg_id world log_timestamp
    some (world', some msg_id)
  after_send sms world log_timestamp (refused error) = do
    world' ← record_forward_failure sms error world log_timestamp
    some (world', none)

module _ {ℓ} {M L S : Type ℓ} (services : Services M L S) where
  unfoldable pub send_sms :
      SmsMessage → World M L S → Text → Option (World M L S × Option MessageId)
  unfolding sms_forward_text after_send
  send_sms sms world log_timestamp = do
    text ← sms_forward_text services sms
    let (messenger, result) = services.sink.send_message_with_format world.messenger text html
    after_send services sms (record world { messenger = messenger }) log_timestamp result

  unfoldable pub forward_sms :
      SmsMessage → World M L S → Text → Option (World M L S × Option MessageId)
  unfolding is_paused is_blocked drop_sms send_sms
  forward_sms sms world log_timestamp =
      if is_paused services world.store
      then drop_sms services sms world log_timestamp
      else if is_blocked services.store services.json sms.sender world.store
      then drop_sms services sms world log_timestamp
      else send_sms sms world log_timestamp
