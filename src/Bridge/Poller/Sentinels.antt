-- ===== src/Bridge/Poller/Sentinels.antt =====
-- The effects that a command's reply asks for, line by line: `apply_sentinels` of
-- src/bridge/poller.rs. `store_error` is the text of the error of the store's last call.
use smsgate.Base.{
  ℕ, if◌then◌else◌, Bool, true, false, List, [], ◌∷◌, ◌++◌, Option, none, some, Text, codes, lines,
  has_prefix, strip_prefix, split_once, trim, parse_uint, decimal_text, ◌==◌,
}
use smsgate.Strings.{char_prefix}
use smsgate.Log.Entry.{LogEvent, user_event}
use smsgate.Persist.Interface.{save_bool, fwd_enabled}
use smsgate.Sms.Sender.Queue.{
  SmsSender, CmdSendResult, enqueued, queue_full, rate_limited, enqueue_command_send,
}
use smsgate.Bridge.Blocklist.{add_to_blocklist, remove_from_blocklist}
use smsgate.Bridge.Forwarder.{Services}
use smsgate.Commands.{
  send_sentinel, block_sentinel, unblock_sentinel, pause_sentinel, resume_sentinel,
  restart_sentinel, decode_sentinel_body,
}
use smsgate.Commands.Builtin.{or_hour}

-- The four results, the two things that are changed, and the flag of the loop.
pub record Applied {ℓ} (S : Type ℓ) : Type ℓ where
  pub display : Text
  pub restart : Bool
  pub pause_mins : Option ℕ
  pub events : List LogEvent
  pub suppress_success_line : Bool
  pub sender : SmsSender
  pub store : S

unfoldable pub preview : Text → Text
unfolding char_prefix
preview body = (char_prefix body 50).0

unfoldable pub push_display_line : Text → Text → Text
push_display_line [] line = line
push_display_line (c ∷ display) line = c ∷ display ++ (0x0A ∷ line)

module _ {ℓ} {S : Type ℓ} where
  unfoldable pub event : Applied S → LogEvent → Applied S
  event a e = record a { events = a.events ++ (e ∷ []) }

  unfoldable pub show : Applied S → Text → Applied S
  unfolding push_display_line
  show a line = record a { display = push_display_line a.display line }

  -- What a failed change leaves: a line for the user, an event, and the next line is left out.
  unfoldable pub failed : Applied S → Text → LogEvent → Applied S
  unfolding event show
  failed a line e = record (event (show a line) e) { suppress_success_line = true }

module _ {ℓ} {M L S : Type ℓ} (services : Services M L S) (now : ℕ) (store_error : S → Text) where
  unfoldable pub after_enqueue : Text → Text → Applied S → SmsSender × CmdSendResult → Applied S
  unfolding event show preview
  after_enqueue phone body a (sender, enqueued id) =
      event (record a { sender = sender })
        (user_event (codes "/send")
          (codes "queued SMS to " ++ (phone ++ (codes ": " ++ preview body))) true)
  after_enqueue phone body a (sender, queue_full) =
      event (record a { sender = sender })
        (user_event (codes "/send") (codes "SMS queue full") false)
  after_enqueue phone body a (sender, rate_limited) =
      event (show (record a { sender = sender }) services.locale.send_rate_limited)
        (user_event (codes "/send") (codes "rate limited") false)

  unfoldable pub apply_send : Text → Applied S → Applied S
  unfolding split_once decode_sentinel_body after_enqueue enqueue_command_send
  apply_send rest a = elim (split_once (λ c. c == 0x7C) rest) [
    | none ↦ a
    | some (phone, body_encoded) ↦
        let body = decode_sentinel_body body_encoded in
        after_enqueue phone body a (enqueue_command_send now a.sender phone body)
  ]

  unfoldable pub storage_failed : Applied S → Text → Text → Applied S
  unfolding failed
  storage_failed a subject detail =
      failed a services.locale.storage_write_failed
        (user_event subject (detail ++ store_error a.store) false)

  unfoldable pub apply_block : Text → Applied S → Applied S
  unfolding add_to_blocklist event storage_failed
  apply_block phone a =
      let (store, ok) = add_to_blocklist services.store services.json phone a.store in
      let a' = record a { store = store } in
      if ok
      then event a' (user_event (codes "/block") (codes "blocked " ++ phone) true)
      else storage_failed a' (codes "/block") (codes "block failed: ")

  unfoldable pub after_unblock : Text → Applied S → S × Option Bool → Applied S
  unfolding event failed storage_failed
  after_unblock phone a (store, some true) =
      event (record a { store = store })
        (user_event (codes "/unblock") (codes "unblocked " ++ phone) true)
  after_unblock phone a (store, some false) =
      failed (record a { store = store }) (services.locale.unblock_not_found phone)
        (user_event (codes "/unblock") (codes "unblock target " ++ (phone ++ codes " not found"))
          false)
  after_unblock phone a (store, none) =
      storage_failed (record a { store = store }) (codes "/unblock") (codes "unblock failed: ")

  unfoldable pub apply_unblock : Text → Applied S → Applied S
  unfolding remove_from_blocklist after_unblock
  apply_unblock phone a =
      after_unblock phone a (remove_from_blocklist services.store services.json phone a.store)

  unfoldable pub apply_pause : Text → Applied S → Applied S
  unfolding trim parse_uint save_bool event storage_failed decimal_text
  apply_pause rest a =
      let mins = or_hour (parse_uint 4_294_967_295 (trim rest)) in
      let (store, ok) = save_bool services.store a.store fwd_enabled false in
      let a' = record a { store = store } in
      if ok
      then event (record a' { pause_mins = some mins })
          (user_event (codes "/pause")
            (codes "paused forwarding for " ++ (decimal_text mins ++ codes " min")) true)
      else storage_failed a' (codes "/pause") (codes "pause failed: ")

  unfoldable pub apply_resume : Applied S → Applied S
  unfolding save_bool event storage_failed
  apply_resume a =
      let (store, ok) = save_bool services.store a.store fwd_enabled true in
      let a' = record a { store = store } in
      if ok
      then event a' (user_event (codes "/resume") (codes "resumed forwarding") true)
      else storage_failed a' (codes "/resume") (codes "resume failed: ")

  unfoldable pub apply_restart : Applied S → Applied S
  unfolding event
  apply_restart a =
      event (record a { restart = true })
        (user_event (codes "/restart") (codes "restart requested") true)

module _ {ℓ} {M L S : Type ℓ} (services : Services M L S) (now : ℕ) (store_error : S → Text) where
  -- The lines without an argument, and those that are shown.
  unfoldable pub apply_plain : Text → Applied S → Applied S
  unfolding has_prefix apply_resume apply_restart show
  apply_plain line a =
      if has_prefix resume_sentinel line
      then apply_resume services now store_error a
      else if has_prefix restart_sentinel line
      then apply_restart services now store_error a
      else show a line

  unfoldable pub apply_setting : Text → Applied S → Applied S
  unfolding strip_prefix apply_block apply_unblock apply_pause apply_plain
  apply_setting line a = elim (strip_prefix block_sentinel line) [
    | some phone ↦ apply_block services now store_error phone a
    | none ↦ elim (strip_prefix unblock_sentinel line) [
      | some phone ↦ apply_unblock services now store_error phone a
      | none ↦ elim (strip_prefix pause_sentinel line) [
        | some rest ↦ apply_pause services now store_error rest a
        | none ↦ apply_plain line a
      ]
    ]
  ]

  unfoldable pub apply_line : Applied S → Text → Applied S
  unfolding strip_prefix apply_send apply_setting
  apply_line a line =
      if a.suppress_success_line
      then record a { suppress_success_line = false }
      else elim (strip_prefix send_sentinel line) [
        | some rest ↦ apply_send services now store_error rest a
        | none ↦ apply_setting line a
      ]

  unfoldable pub apply_lines : Applied S → List Text → Applied S
  unfolding apply_line
  apply_lines a [] = a
  apply_lines a (line ∷ rest) = apply_lines (apply_line a line) rest

  abbrev pub unapplied : SmsSender → S → Applied S
  unapplied sender store = record {
    display = [];
    restart = false;
    pause_mins = none;
    events = [];
    suppress_success_line = false;
    sender = sender;
    store = store;
  }

  unfoldable pub apply_sentinels : Text → SmsSender → S → Applied S
  unfolding lines apply_lines
  apply_sentinels reply sender store = apply_lines (unapplied sender store) (lines reply)
