-- ===== src/Sms/Sender/RateLimit.antt =====
-- The rate limit of the /send command, of src/sms/sender.rs.
use smsgate.Base.{
  ℕ, ◌+◌, ◌≤◌, ◌<◌, ◌≡◌, refl, ap, true, List, [], ◌∷◌, Option, none, some, Text, arith, All,
}
use smsgate.Sms.Sender.Queue.{
  SmsSender, enqueue, window_expired, roll_window, counted, enqueue_command_send, CmdSendResult,
  enqueued, queue_full, rate_limited, cmd_send_limit, secs, cmd_send_window_secs,
}
use smsgate.Sms.Sender.Invariant.{enqueue-window}

pub record Command : Type 0 where
  pub at : ℕ
  pub phone : Text
  pub body : Text

abbrev pub accepted : CmdSendResult → ℕ
accepted (enqueued id) = 1
accepted queue_full = 0
accepted rate_limited = 0

-- How many of the commands, one after the other, are enqueued.
unfoldable pub accepted_count : SmsSender → List Command → ℕ
unfolding enqueue_command_send
accepted_count s [] = 0
accepted_count s (c ∷ cs) =
    let (s', result) = enqueue_command_send c.at s c.phone c.body in
    accepted result + accepted_count s' cs

-- Within the window that begins at `start`.
abbrev pub InWindow : ℕ → Command → Type 0
InWindow start c = c.at < start + secs cmd_send_window_secs

counted-window :
    (p : SmsSender × Option ℕ)
    → ((counted p).0.cmd_window_start ≡ p.0.cmd_window_start)
      × ((counted p).0.cmd_window_count ≡ p.0.cmd_window_count + accepted (counted p).1)
unfolding counted
counted-window (s, some id) = (refl, refl)
counted-window (s, none) = (refl, omega arith)

-- Inside its window a command adds itself to the count if it is enqueued, and the window stays.
enqueue_command_send-window :
    (start : ℕ) (s : SmsSender) (c : Command)
    → s.cmd_window_start ≡ some start
    → InWindow start c
    → s.cmd_window_count ≤ cmd_send_limit
    → let (s', result) = enqueue_command_send c.at s c.phone c.body in
      (s'.cmd_window_start ≡ some start)
      × (s'.cmd_window_count ≡ s.cmd_window_count + accepted result)
      × (s'.cmd_window_count ≤ cmd_send_limit)
unfolding enqueue_command_send roll_window window_expired
enqueue_command_send-window start s c w inside h = ground (
  arith,
  counted-window (enqueue c.at s c.phone c.body),
  enqueue-window c.at s c.phone c.body,
  accepted-le (counted (enqueue c.at s c.phone c.body)).1,
)
  where
    accepted-le : (r : CmdSendResult) → accepted r ≤ 1
    accepted-le (enqueued id) = omega arith
    accepted-le queue_full = omega arith
    accepted-le rate_limited = omega arith

accepted_count-window :
    (start : ℕ) (s : SmsSender) (cs : List Command)
    → s.cmd_window_start ≡ some start
    → s.cmd_window_count ≤ cmd_send_limit
    → All (InWindow start) cs
    → s.cmd_window_count + accepted_count s cs ≤ cmd_send_limit
unfolding accepted_count
accepted_count-window start s [] w h i = omega arith
accepted_count-window start s (c ∷ cs) w h (i, is) =
    let (w', added, h') = enqueue_command_send-window start s c w i h in
    omega (
      arith,
      accepted_count-window start (enqueue_command_send c.at s c.phone c.body).0 cs w' h' is,
    )

-- A command after the window's end begins a new one.
enqueue_command_send-expired :
    (s : SmsSender) (c : Command)
    → window_expired c.at s.cmd_window_start ≡ true
    → enqueue_command_send c.at s c.phone c.body
      ≡ enqueue_command_send c.at
          (record s { cmd_window_start = some c.at; cmd_window_count = 0 })
          c.phone
          c.body
unfolding enqueue_command_send roll_window window_expired
enqueue_command_send-expired s c expired = ground arith

-- From a command that begins a window on, at most five of the commands of the next 60 seconds,
-- itself included, are enqueued.
pub accepted_count-le :
    (s : SmsSender) (c : Command) (cs : List Command)
    → window_expired c.at s.cmd_window_start ≡ true
    → All (InWindow c.at) cs
    → accepted_count s (c ∷ cs) ≤ cmd_send_limit
unfolding accepted_count
accepted_count-le s c cs expired i =
    let fresh = record s { cmd_window_start = some c.at; cmd_window_count = 0 } in
    omega (
      arith,
      ap (λ p. accepted p.1 + accepted_count p.0 cs) (enqueue_command_send-expired s c expired),
      accepted_count-window c.at fresh (c ∷ cs) refl (omega arith) (omega arith, i),
    )
