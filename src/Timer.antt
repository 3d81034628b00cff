-- ===== src/Timer.antt =====
-- src/timer.rs: timers on a u32 of milliseconds that wraps around.
use smsgate.Base.{ℕ, ◌+◌, ◌-◌, ◌%◌, ◌^◌, ◌/◌, ◌<◌, ◌≡◌, ltb, Bool, ap, arith}

-- `now.wrapping_sub(snapshot)`.
unfoldable pub elapsed_since : ℕ → ℕ → ℕ
elapsed_since snapshot now = (now + 2 ^ 32 - snapshot) % 2 ^ 32

unfoldable pub is_past : ℕ → ℕ → Bool
is_past target now = ltb ((now + 2 ^ 32 - target) % 2 ^ 32) ((2 ^ 32 - 1) / 2)

-- For a true time `at` and a delay, each read from a clock of 32 bits: the elapsed time is the delay
-- if that is below 2 ^ 32, and a timer set for a target is past just if the delay is below half.
pub elapsed_since-is_past :
    (at delay : ℕ)
    → delay < 2 ^ 32
    → (elapsed_since (at % 2 ^ 32) ((at + delay) % 2 ^ 32) ≡ delay)
      × (is_past (at % 2 ^ 32) ((at + delay) % 2 ^ 32) ≡ ltb delay (2 ^ 31 - 1))
unfolding elapsed_since is_past
elapsed_since-is_past at delay h =
    let same : ((at + delay) % 2 ^ 32 + 2 ^ 32 - at % 2 ^ 32) % 2 ^ 32 ≡ delay = omega arith in
    (same, ap (λ d. ltb d (2 ^ 31 - 1)) same)
