-- ===== src/Sms/Sender/Queue.antt =====
-- The queue of src/sms/sender.rs and the operations that do not reach the modem.
-- `Instant::now()` is the argument `now`, in nanoseconds.
use smsgate.Base.{
  ℕ, ◌+◌, ◌-◌, ◌*◌, ◌/◌, ◌%◌, ◌^◌, max, ◌==◌, leb, not, ◌&&◌, if◌then◌else◌, Bool, true, false,
  List, [], ◌∷◌, ◌++◌, map, Option, none, some, Text, text_eq, length, take, retain, position,
  remove, any,
}

abbrev pub secs : ℕ → ℕ
secs n = n * 1_000_000_000

abbrev pub queue_depth : ℕ
queue_depth = 8

abbrev pub retry_delays : List ℕ
retry_delays = secs 2 ∷ secs 8 ∷ secs 30 ∷ []

abbrev pub max_attempts : ℕ
max_attempts = 4

abbrev pub cmd_send_limit : ℕ
cmd_send_limit = 5

abbrev pub cmd_send_window_secs : ℕ
cmd_send_window_secs = 60

pub record QueueEntry : Type 0 where
  pub id : ℕ
  pub phone : Text
  pub body : Text
  pub attempts : ℕ
  pub next_attempt : Option ℕ
  pub enqueued_at : ℕ

unfoldable pub is_ready : ℕ → QueueEntry → Bool
is_ready now e = elim e.next_attempt [ none ↦ true | some t ↦ leb t now ]

pub record QueueSnapshot : Type 0 where
  pub id : ℕ
  pub phone : Text
  pub body_preview : Text
  pub attempts : ℕ
  pub age_secs : ℕ

pub data CmdSendResult : Type 0 where
  enqueued : ℕ → CmdSendResult
  queue_full : CmdSendResult
  rate_limited : CmdSendResult

pub record SmsSender : Type 0 where
  pub entries : List QueueEntry
  pub next_id : ℕ
  pub cmd_window_start : Option ℕ
  pub cmd_window_count : ℕ

unfoldable pub new : SmsSender
new = record { entries = []; next_id = 1; cmd_window_start = none; cmd_window_count = 0 }

abbrev pub same_message : Text → Text → QueueEntry → Bool
same_message phone body e = text_eq e.phone phone && text_eq e.body body

abbrev pub fresh_entry : ℕ → ℕ → Text → Text → QueueEntry
fresh_entry now id phone body = record {
  id = id;
  phone = phone;
  body = body;
  attempts = 0;
  next_attempt = none;
  enqueued_at = now;
}

-- `wrapping_add(1).max(1)` on u32.
unfoldable pub following_id : ℕ → ℕ
following_id id = max ((id + 1) % 2 ^ 32) 1

unfoldable pub enqueue : ℕ → SmsSender → Text → Text → SmsSender × Option ℕ
unfolding any following_id
enqueue now s phone body =
    if leb queue_depth (length s.entries)
    then (s, none)
    else if any (same_message phone body) s.entries
    then (s, none)
    else (
      record s {
        entries = s.entries ++ (fresh_entry now s.next_id phone body ∷ []);
        next_id = following_id s.next_id;
      },
      some s.next_id,
    )

-- The window has run out, or none was begun.
unfoldable pub window_expired : ℕ → Option ℕ → Bool
window_expired now none = true
window_expired now (some start) = leb (secs cmd_send_window_secs) (now - start)

-- A new window where the old one has run out.
unfoldable pub roll_window : ℕ → SmsSender → SmsSender
unfolding window_expired
roll_window now s =
    if window_expired now s.cmd_window_start
    then record s { cmd_window_start = some now; cmd_window_count = 0 }
    else s

-- The count is at most 5 here, so the addition on u8 does not overflow.
unfoldable pub counted : SmsSender × Option ℕ → SmsSender × CmdSendResult
counted (s, some id) = (record s { cmd_window_count = s.cmd_window_count + 1 }, enqueued id)
counted (s, none) = (s, queue_full)

unfoldable pub enqueue_command_send : ℕ → SmsSender → Text → Text → SmsSender × CmdSendResult
unfolding roll_window enqueue counted
enqueue_command_send now s phone body =
    let s' = roll_window now s in
    if leb cmd_send_limit s'.cmd_window_count
    then (s', rate_limited)
    else counted (enqueue now s' phone body)

unfoldable pub cancel_for_phone : SmsSender → Text → SmsSender × ℕ
unfolding retain
cancel_for_phone s phone =
    let kept = retain (λ e. not (text_eq e.phone phone)) s.entries in
    (record s { entries = kept }, length s.entries - length kept)

unfoldable pub cancel_by_id : SmsSender → ℕ → SmsSender × Bool
unfolding position remove
cancel_by_id s id = elim (position (λ e. e.id == id) s.entries) [
  | some pos ↦ (record s { entries = remove pos s.entries }, true)
  | none ↦ (s, false)
]

unfoldable pub snapshot_entry : ℕ → QueueEntry → QueueSnapshot
snapshot_entry now e = record {
  id = e.id;
  phone = e.phone;
  body_preview = take 30 e.body;
  attempts = e.attempts;
  age_secs = (now - e.enqueued_at) / 1_000_000_000;
}

unfoldable pub snapshot : ℕ → SmsSender → List QueueSnapshot
unfolding snapshot_entry
snapshot now s = map (snapshot_entry now) s.entries

unfoldable pub len : SmsSender → ℕ
len s = length s.entries
