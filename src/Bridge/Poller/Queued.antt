-- ===== src/Bridge/Poller/Queued.antt =====
-- The command /send on one line, up to the outbound queue: src/commands/builtin/send.rs,
-- src/bridge/poller.rs.
mod OneLine
pub use OneLine.*
use smsgate.Base.{
  ℕ, zero, suc, ◌+◌, ◌/◌, ◌%◌, digits_onto, decimal_text, ◌≡◌, ◌≢◌, ◌⊎◌, refl, ◌∙◌, codes, inl, inr,
  ◌==◌, ◌&&◌, if◌then◌else◌, Bool, true, false, Bool-cases, Option-cases, List, [], ◌∷◌, ◌++◌,
  Option, none, some, ◌>>=◌, Text, text_eq, arith, All, All-append, All-map, All-take, split,
  split_once, lines, lines_of, trim, trim_start, trim_end, is_whitespace, has_prefix, strip_prefix,
  ltb, length, take, onto_first,
}
use smsgate.Strings.{char_prefix}
use smsgate.Locale.{Locale}
use smsgate.Locale.En.{english, send_queued}
use smsgate.Sms.Codec.Phone.{normalize_phone}
use smsgate.Sms.Codec.Phone.Laws.{is_phone_char}
use smsgate.Sms.Codec.Parts.{count_sms_parts}
use smsgate.Sms.Sender.Queue.{
  SmsSender, CmdSendResult, enqueued, queue_full, rate_limited, enqueue_command_send,
}
use smsgate.Bridge.Forwarder.{Services}
use smsgate.Commands.{
  send_sentinel, block_sentinel, unblock_sentinel, pause_sentinel, resume_sentinel,
  restart_sentinel,
}
use smsgate.Commands.Builtin.{max_sms_parts, send}
use smsgate.Bridge.Poller.Sentinels.{
  Applied, apply_sentinels, apply_lines, apply_line, apply_setting, apply_plain, show, event,
  after_enqueue, unapplied,
}
use smsgate.Bridge.Poller.Sent.{
  shown, IsRefusal, IsAccepted, queue_and_show, normalize_phone-Passes, apply_sentinels-send,
}

phone_char-InLine : (c : ℕ) → is_phone_char c ≡ true → InLine c
phone_char-InLine c h = ground arith

char_prefix-InLine : (s : Text) (n : ℕ) → All InLine s → All InLine (char_prefix s n).0
unfolding char_prefix
char_prefix-InLine s n h = elim (Bool-cases (ltb n (length s))) [
  | inl e ↦ rw (e, char_prefix) (All-take InLine n s h)
  | inr e ↦ rw (e, char_prefix) h
]

module _ {ℓ} {M L S : Type ℓ} (services : Services M L S) (now : ℕ) (store_error : S → Text)
    (sender : SmsSender) (store : S) where
  -- The queue is `queue`, and nothing else has come of the reply but texts and events.
  pub record IsQueue (queue : SmsSender) (a : Applied S) : Type ℓ where
    pub entries : a.sender ≡ queue
    pub settings : a.store ≡ store
    pub goes_on : a.restart ≡ false
    pub unpaused : a.pause_mins ≡ none
    pub suppressing : a.suppress_success_line ≡ false

  after_enqueue-IsQueue :
      (phone body : Text) (r : SmsSender × CmdSendResult)
      → IsQueue r.0 (
          after_enqueue services now store_error phone body
            (unapplied services now store_error sender store)
            r)
  unfolding after_enqueue event show
  after_enqueue-IsQueue phone body (queue, enqueued id) = record {
    entries = refl;
    settings = refl;
    goes_on = refl;
    unpaused = refl;
    suppressing = refl;
  }
  after_enqueue-IsQueue phone body (queue, queue_full) = record {
    entries = refl;
    settings = refl;
    goes_on = refl;
    unpaused = refl;
    suppressing = refl;
  }
  after_enqueue-IsQueue phone body (queue, rate_limited) = record {
    entries = refl;
    settings = refl;
    goes_on = refl;
    unpaused = refl;
    suppressing = refl;
  }

  show-IsQueue :
      (queue : SmsSender) (a : Applied S) (line : Text)
      → IsQueue queue a
      → IsQueue queue (show a line)
  unfolding show
  show-IsQueue queue a line k = record {
    entries = k.entries;
    settings = k.settings;
    goes_on = k.goes_on;
    unpaused = k.unpaused;
    suppressing = k.suppressing;
  }

  if_false : (b : Bool) (x y : Applied S) → b ≡ false → (if b then x else y) ≡ y
  if_false true x y h = cc
  if_false false x y h = refl

  apply_setting-StartsPlain :
      (line : Text) (a : Applied S)
      → StartsPlain line
      → apply_setting services now store_error line a ≡ show a line
  unfolding apply_setting apply_plain
  apply_setting-StartsPlain line a h =
      let block : strip_prefix block_sentinel line ≡ none =
        strip_prefix-StartsPlain (codes "_BLOCK__:") line h in
      let unblock : strip_prefix unblock_sentinel line ≡ none =
        strip_prefix-StartsPlain (codes "_UNBLOCK__:") line h in
      let pause : strip_prefix pause_sentinel line ≡ none =
        strip_prefix-StartsPlain (codes "_PAUSE__:") line h in
      let resume : has_prefix resume_sentinel line ≡ false =
        has_prefix-StartsPlain (codes "_RESUME__") line h in
      let restart : has_prefix restart_sentinel line ≡ false =
        has_prefix-StartsPlain (codes "_RESTART__") line h in
      rw (block, unblock, pause, resume, restart, apply_setting, apply_plain) refl

  apply_line-StartsPlain :
      (a : Applied S) (line : Text)
      → a.suppress_success_line ≡ false
      → StartsPlain line
      → apply_line services now store_error a line ≡ show a line
  unfolding apply_line
  apply_line-StartsPlain a line q h =
      let mark : strip_prefix send_sentinel line ≡ none =
        strip_prefix-StartsPlain (codes "_SEND__:") line h in
      if_false a.suppress_success_line _ _ q ∙ rw mark (apply_setting-StartsPlain line a h)

  one_line-IsQueue :
      (queue : SmsSender) (a : Applied S) (s : Text)
      → StartsPlain s
      → IsQueue queue a
      → IsQueue queue (apply_lines services now store_error a (one_line s))
  unfolding apply_lines
  one_line-IsQueue queue a [] h k = k
  one_line-IsQueue queue a (c ∷ s) h k =
      rw (apply_line-StartsPlain a (c ∷ s) k.suppressing h) (show-IsQueue queue a (c ∷ s) k)

  queue_and_show-IsQueue :
      (phone body : Text)
      → IsOneLine services.locale
      → All (λ c. is_phone_char c ≡ true) phone
      → All InLine body
      → IsQueue
          (enqueue_command_send now sender phone body).0
          (queue_and_show services now store_error sender store phone body)
  unfolding count_sms_parts char_prefix
  queue_and_show-IsQueue phone body text p b =
      let line = shown services.locale phone body (count_sms_parts body max_sms_parts) in
      let in_line =
        text.in_line phone (char_prefix body 50).0 (char_prefix body 50).1
          (count_sms_parts body max_sms_parts) (All-map phone_char-InLine phone p)
          (char_prefix-InLine body 50 b) in
      rw (lines-InLine line in_line) (
        one_line-IsQueue (enqueue_command_send now sender phone body).0 _ line
          (text.unmarked phone (char_prefix body 50).0 (char_prefix body 50).1
            (count_sms_parts body max_sms_parts))
          (after_enqueue-IsQueue phone body (enqueue_command_send now sender phone body)))

  -- For arguments without a line feed, in a locale whose line about a queued message is one line
  -- without a mark, /send either refuses, or they are a number and a message that is accepted. Then,
  -- after the poller has worked through the whole reply, the queue is the one that a single call of
  -- `enqueue_command_send` leaves, for the number's normal form and the message without white space
  -- around it; the settings are as before, nothing is paused or restarted, and no line is still to be
  -- left out.
  pub apply_sentinels-send_once :
      (args : Text)
      → IsOneLine services.locale
      → All InLine args
      → IsRefusal services.locale (send services.locale args)
        ⊎ ((phone_raw : Text) × (body_raw : Text) × (split_once is_whitespace (trim args)
              ≡ some (phone_raw, body_raw))
            × IsAccepted services.locale (normalize_phone phone_raw) (trim body_raw)
            × IsQueue
                (enqueue_command_send now sender (normalize_phone phone_raw) (trim body_raw)).0
                (apply_sentinels services now store_error (send services.locale args) sender store))
  apply_sentinels-send_once args text h =
      elim (apply_sentinels-send services now store_error sender store args) [
        | inl r ↦ inl r
        | inr (phone_raw, body_raw, e, a, q) ↦ inr (
          phone_raw,
          body_raw,
          e,
          a,
          rw q (
              queue_and_show-IsQueue (normalize_phone phone_raw) (trim body_raw) text
                (normalize_phone-Passes phone_raw)
                (All-trim InLine body_raw (
                  All-split_once InLine is_whitespace (trim args) phone_raw body_raw e
                    (All-trim InLine args h)))),
        )
      ]
