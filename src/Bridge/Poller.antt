-- ===== src/Bridge/Poller.antt =====
-- The messages from the messenger: src/bridge/poller.rs.
pub mod Sentinels
pub mod Sent
pub mod Queued
pub mod Cursor
use smsgate.Base.{
  ℕ, ◌+◌, ◌%◌, ◌^◌, ltb, ◌==◌, if◌then◌else◌, Bool, true, false, List, [], ◌∷◌, ◌++◌, Option, none,
  some, ◌>>=◌, Text, codes, text_eq, length, trim, has_prefix, strip_prefix,
}
use smsgate.Im.{
  MessageId, MessageFormat, plain, InboundMessage, InboundCallback, CommandResponder,
  MessengerError, error_text,
}
use smsgate.Log.Entry.{LogEvent, network_event, user_event}
use smsgate.Modem.Status.{ModemStatus}
use smsgate.Persist.Interface.{Store, save_i64, im_cursor}
use smsgate.Sms.Sender.Queue.{SmsSender, enqueue}
use smsgate.Bridge.ReplyRouter.Slots.{ReplyRouter, lookup}
use smsgate.Bridge.Forwarder.{Services}
use smsgate.Commands.{Command, CommandContext, dispatch, name_and_args}
use smsgate.Commands.Page.{LogPage, render_log_page, parse_log_offset, parse_log_callback}
use smsgate.Bridge.Poller.Sentinels.{Applied, apply_sentinels}

-- `next > persisted` of two i64, each given by its bits.
abbrev pub is_after : ℕ → ℕ → Bool
is_after next persisted = ltb ((persisted + 2 ^ 63) % 2 ^ 64) ((next + 2 ^ 63) % 2 ^ 64)

module _ {ℓ} {S : Type ℓ} (store : Store S) where
  -- The store, the cursor that is known to be saved, and whether all went well.
  unfoldable pub checkpoint_cursor : S → ℕ → ℕ → S × (ℕ × Bool)
  unfolding save_i64
  checkpoint_cursor s persisted next =
      let (s', saved) = save_i64 store s im_cursor next in
      if is_after next persisted
      then (s', (if saved then next else persisted, saved))
      else (s, (persisted, true))

unfoldable pub split_command : Text → Option (Text × Text)
unfolding strip_prefix name_and_args
split_command text = do rest ← strip_prefix (0x2F ∷ []) text; some (name_and_args rest)

-- The numbers of a round, which commands may show.
pub record Figures : Type 0 where
  pub modem_status : ModemStatus
  pub uptime_ms : ℕ
  pub free_heap_bytes : ℕ
  pub min_free_heap_bytes : ℕ
  pub wifi_info : Text

-- What a batch of messages changes, with the `DispatchOutcome` so far.
pub record Batch {ℓ} (M S : Type ℓ) : Type ℓ where
  pub messenger : M
  pub sender : SmsSender
  pub store : S
  pub restart_requested : Bool
  pub restart_reply : Option Text
  pub pause_mins : Option ℕ
  pub events : List LogEvent

abbrev pub context {ℓ} : {M L S : Type ℓ} → Figures → L → Batch M S → CommandContext L S
context figures log b = record {
  store = b.store;
  modem_status = figures.modem_status;
  log_ring = log;
  send_queue = b.sender;
  uptime_ms = figures.uptime_ms;
  free_heap_bytes = figures.free_heap_bytes;
  min_free_heap_bytes = figures.min_free_heap_bytes;
  wifi_info = figures.wifi_info;
}

abbrev pub or_else {ℓ} : {A : Type ℓ} → Option A → Option A → Option A
or_else none b = b
or_else (some a) b = some a

module _ {ℓ} {M S : Type ℓ} where
  unfoldable pub add_event : Batch M S → LogEvent → Batch M S
  add_event b event = record b { events = b.events ++ (event ∷ []) }

  -- An error of the messenger is noted.
  unfoldable pub note_error : Text → Batch M S → M × Option MessengerError → Batch M S
  unfolding add_event error_text
  note_error what b (m, none) = record b { messenger = m }
  note_error what b (m, some error) =
      add_event (record b { messenger = m })
        (network_event (codes "telegram") (what ++ error_text error) false)

module _ {ℓ} {M L S : Type ℓ} (services : Services M L S) (responder : CommandResponder M) where
  unfoldable pub on_callback : Figures → L → InboundCallback → ℕ → Batch M S → Batch M S
  unfolding render_log_page note_error
  on_callback figures log callback offset b =
      let page = render_log_page services (context figures log b) offset in
      let edited = note_error (codes "log page edit failed: ") b (
        responder.edit_reply b.messenger callback.message_id page.text page.keyboard page.format) in
      note_error (codes "callback answer failed: ") edited
        (responder.answer_callback edited.messenger callback.id none)

  unfoldable pub on_log : Figures → L → Text → Batch M S → Batch M S
  unfolding render_log_page parse_log_offset note_error
  on_log figures log args b =
      let page =
        render_log_page services (context figures log b)
          (parse_log_offset services.usize_bits args) in
      note_error (codes "log reply enqueue failed: ") b
        (responder.send_reply b.messenger page.text page.keyboard page.format)

  -- The reply of a command, without the lines that ask for effects.
  unfoldable pub show_reply : Bool → Text → Batch M S → Batch M S
  unfolding note_error
  show_reply restart [] b = b
  show_reply true (c ∷ display) b = record b { restart_reply = some (c ∷ display) }
  show_reply false (c ∷ display) b =
      note_error (codes "command reply enqueue failed: ") b
        (responder.send_reply b.messenger (c ∷ display) none plain)

  unfoldable pub on_reply : ℕ → (S → Text) → Text → Batch M S → Batch M S
  unfolding apply_sentinels show_reply trim
  on_reply now store_error reply b =
      let a = apply_sentinels services now store_error reply b.sender b.store in
      show_reply a.restart (trim a.display) (record b {
        sender = a.sender;
        store = a.store;
        restart_requested = if a.restart then true else b.restart_requested;
        pause_mins = or_else a.pause_mins b.pause_mins;
        events = b.events ++ a.events;
      })

  unfoldable pub on_command :
      List (Command L S) → ℕ → (S → Text) → Figures → L → Text → Batch M S → Batch M S
  unfolding dispatch on_reply
  on_command registry now store_error figures log text b =
      elim (dispatch registry text (context figures log b)) [
        | none ↦ b
        | some reply ↦ on_reply now store_error reply b
      ]

module _ {ℓ} {M S : Type ℓ} where
  unfoldable pub queued : Text → Batch M S → SmsSender × Option ℕ → Batch M S
  unfolding add_event
  queued phone b (sender, none) =
      add_event (record b { sender = sender })
        (user_event (codes "/reply") (codes "SMS reply queue full") false)
  queued phone b (sender, some id) =
      add_event (record b { sender = sender })
        (user_event (codes "/reply") (codes "queued SMS reply to " ++ phone) true)

  -- A reply to a message that was forwarded.
  unfoldable pub on_sms_reply :
      ℕ → ℕ → ReplyRouter → Text → Batch M S → Option MessageId → Batch M S
  unfolding lookup queued enqueue
  on_sms_reply bits now router text b none = b
  on_sms_reply bits now router text b (some reply_to_id) = elim (lookup bits router reply_to_id) [
    | none ↦ b
    | some phone ↦ queued phone b (enqueue now b.sender phone text)
  ]

unfoldable pub is_log : Option (Text × Text) → Option Text
unfolding text_eq
is_log none = none
is_log (some (name, args)) = if text_eq name (codes "log") then some args else none

abbrev pub has_document : InboundMessage → Bool
has_document msg = elim msg.document [ none ↦ false | some document ↦ true ]

-- The offset of a callback that asks for a page of the log, with the callback.
unfoldable pub log_callback : ℕ → Option InboundCallback → Option (InboundCallback × ℕ)
unfolding parse_log_callback
log_callback bits none = none
log_callback bits (some callback) = do
  offset ← parse_log_callback bits callback.data_text
  some (callback, offset)

module _ {ℓ} {M L S : Type ℓ} (services : Services M L S) (responder : CommandResponder M)
    (registry : List (Command L S)) (now : ℕ) (store_error : S → Text) (router : ReplyRouter)
    (log : L) (figures : Figures) where
  unfoldable pub on_text : InboundMessage → Text → Batch M S → Batch M S
  unfolding has_prefix split_command is_log on_log on_command on_sms_reply
  on_text msg text b =
      if has_prefix (0x2F ∷ []) text
      then elim (is_log (split_command text)) [
        | some args ↦ on_log services responder figures log args b
        | none ↦ on_command services responder registry now store_error figures log text b
      ]
      else on_sms_reply services.usize_bits now router text b msg.reply_to

  unfoldable pub on_message : Batch M S → InboundMessage → Batch M S
  unfolding trim log_callback on_callback on_text
  on_message b msg =
      if has_document msg then b else elim (log_callback services.usize_bits msg.callback) [
        | some (callback, offset) ↦ on_callback services responder figures log callback offset b
        | none ↦ on_text msg (trim msg.text) b
      ]

  unfoldable pub poll_and_dispatch : List InboundMessage → Batch M S → Batch M S
  unfolding on_message
  poll_and_dispatch [] b = b
  poll_and_dispatch (msg ∷ messages) b = poll_and_dispatch messages (on_message b msg)
