-- ===== src/Bridge/CallHandler.antt =====
-- Incoming calls: src/bridge/call_handler.rs. `Instant::now()` is the argument `now`, in nanoseconds.
-- `none` is the panic of a number that cannot be shown.
pub mod Spacing
use smsgate.Base.{
  ℕ, ◌+◌, ◌*◌, leb, ◌==◌, not, if◌then◌else◌, Bool, true, false, List, [], ◌∷◌, ◌++◌, Option, none,
  some, ◌>>=◌, Text, codes, text_eq, length, has_prefix,
}
use smsgate.Locale.{Locale}
use smsgate.Log.Entry.{LogEvent, new, call}
use smsgate.Modem.{ModemError, error_text}
use smsgate.Sms.Codec.Clip.{parse_clip_line}
use smsgate.Sms.Codec.Phone.{human_readable_phone}

abbrev pub clip_deadline : ℕ
clip_deadline = 1_500_000_000

abbrev pub cooldown : ℕ
cooldown = 6_000_000_000

pub data State : Type 0 where
  idle : State
  ringing : ℕ → Option Text → State
  cooling : ℕ → State

pub record CallNotification : Type 0 where
  pub text : Text
  pub caller_display : Text
  pub detail : Text
  pub hang_up_error : Option Text

unfoldable pub log_event : CallNotification → LogEvent
log_event n = new call n.caller_display n.detail true

-- `hang_up` of the modem, with the error if there is one.
pub record HangUp {ℓ} (M : Type ℓ) : Type ℓ where
  pub hang_up : M → M × Option ModemError

unfoldable pub on_error : Option ModemError → Option Text
unfolding error_text
on_error none = none
on_error (some error) = some (error_text error)

abbrev pub detail_of : Bool → Option Text → Text
detail_of false error = codes "incoming call; ended before caller ID"
detail_of true none = codes "incoming call; hung up"
detail_of true (some error) = codes "incoming call; hang-up failed"

abbrev pub non_empty : Text → Option Text
non_empty [] = none
non_empty (c ∷ s) = some (c ∷ s)

unfoldable pub display_of : Option Text → Option Text
unfolding human_readable_phone
display_of none = some (codes "unknown caller")
display_of (some []) = some (codes "unknown caller")
display_of (some (c ∷ s)) = human_readable_phone (c ∷ s)

-- The handler's state and the modem, and a notification if there is one.
abbrev pub Handled {ℓ} : Type ℓ → Type ℓ
Handled M = Option (State × (M × Option CallNotification))

module _ {ℓ} {M : Type ℓ} (modem : HangUp M) (locale : Locale) (now : ℕ) where
  -- The end of `commit_call`, with the modem's answer.
  unfoldable pub notify : Option Text → Bool → M × Option ModemError → Handled M
  unfolding display_of on_error
  notify number hang_up (m, error) = do
    display ← display_of number
    some (
      cooling (now + cooldown),
      (
        m,
        some (record {
          text = locale.incoming_call display;
          caller_display = display;
          detail = detail_of hang_up (on_error error);
          hang_up_error = on_error error;
        }),
      ),
    )

  unfoldable pub commit_call : Option Text → Bool → M → Handled M
  unfolding notify
  commit_call number hang_up m =
      notify number hang_up (if hang_up then modem.hang_up m else (m, none))

  unfoldable pub on_ring : State → State
  on_ring idle = ringing (now + clip_deadline) none
  on_ring state = state

  unfoldable pub on_clip : State → Text → M → Handled M
  unfolding commit_call
  on_clip (ringing deadline known) number m = commit_call (non_empty number) true m
  on_clip state number m = some (state, (m, none))

  unfoldable pub on_clip_line : State → Option Text → M → Handled M
  unfolding on_clip
  on_clip_line state none m = some (state, (m, none))
  on_clip_line state (some number) m = on_clip state number m

  -- A call that ends before its number came; a new one may begin at once.
  unfoldable pub on_no_carrier : State → M → Handled M
  unfolding commit_call
  on_no_carrier (ringing deadline known) m = do
    (cooling_down, rest) ← commit_call none false m
    some (idle, rest)
  on_no_carrier state m = some (state, (m, none))

  unfoldable pub handle_urc_deferred : State → Text → M → Handled M
  unfolding has_prefix on_ring on_clip_line on_no_carrier text_eq
  handle_urc_deferred state line m =
      if has_prefix (codes "RING") line
      then some (on_ring state, (m, none))
      else if has_prefix (codes "+CLIP:") line
      then on_clip_line state (parse_clip_line line) m
      else if text_eq line (codes "NO CARRIER")
      then on_no_carrier state m
      else some (state, (m, none))

  unfoldable pub tick_deferred : State → M → Handled M
  unfolding commit_call
  tick_deferred (ringing deadline number) m =
      if leb deadline now
      then commit_call number true m
      else some (ringing deadline number, (m, none))
  tick_deferred (cooling until) m = some (if leb until now then idle else cooling until, (m, none))
  tick_deferred idle m = some (idle, (m, none))
