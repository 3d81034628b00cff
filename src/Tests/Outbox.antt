-- ===== src/Tests/Outbox.antt =====
-- The outbound queue with a modem that refuses everything.
use smsgate.Base.{
  ℕ, ◌+◌, ◌≤◌, ◌<◌, ◌≡◌, refl, ap, true, false, [], ◌∷◌, none, codes, encode_utf8, arith,
}
use smsgate.Sms.Codec.Submit.{Refs, build_sms_submit_pdus}
use smsgate.Sms.Codec.Gsm7.Tables.{encode_gsm7_char}
use smsgate.Sms.Sender.Queue.{SmsSender, QueueEntry, new, window_expired, cmd_send_limit}
use smsgate.Sms.Sender.Drain.{ModemPort, sent, retrying, attempted, drain_once}
use smsgate.Sms.Sender.Invariant.{IsValid, enqueues, drains, run, run-new-IsValid}
use smsgate.Sms.Sender.Delivery.{Drains, tries_left, drain_once-Drains, drain_once-progress}
use smsgate.Sms.Sender.Accepted.{IsSent, drain_once-IsSent}
use smsgate.Sms.Sender.RateLimit.{Command, accepted_count, accepted_count-le}

-- The state counts the calls.
abbrev deaf : ModemPort ℕ
deaf = record { send_pdu_sms = λ m hex len. (m + 1, false) }

abbrev refs : Refs
refs = record { gsm7_ref = 0; ucs2_ref = 0 }

abbrev one_entry : SmsSender
one_entry = record {
  entries =
      record {
        id = 1;
        phone = codes "+4915";
        body = codes "hi";
        attempts = 0;
        next_attempt = none;
        enqueued_at = 3;
      }
      ∷ [];
  next_id = 2;
  cmd_window_start = none;
  cmd_window_count = 0;
}

one_entry-IsValid : IsValid one_entry
one_entry-IsValid = record {
  short = omega arith;
  tries = (omega arith, tt);
  distinct = (tt, tt);
  id_pos = omega arith;
  id_u32 = omega arith;
  limited = omega arith;
}

first_failure : (drain_once deaf 5 6 one_entry (refs, 0)).2 ≡ retrying
unfolding drain_once build_sms_submit_pdus encode_utf8 encode_gsm7_char
first_failure = refl

run-new-IsValid_example :
    IsValid
      (run deaf (new, (refs, 0)) (enqueues 3 (codes "+4915") (codes "hi") ∷ drains 5 6 ∷ [])).0
run-new-IsValid_example =
    run-new-IsValid deaf (refs, 0) (enqueues 3 (codes "+4915") (codes "hi") ∷ drains 5 6 ∷ [])

drain_once-Drains_example :
    Drains 5 6 one_entry
      (drain_once deaf 5 6 one_entry (refs, 0)).2
      (drain_once deaf 5 6 one_entry (refs, 0)).0
drain_once-Drains_example = drain_once-Drains deaf 5 6 one_entry (refs, 0)

drain_once-progress_example :
    (tries_left (drain_once deaf 5 6 one_entry (refs, 0)).0.entries < 4) × (4 ≤ 32)
unfolding attempted
drain_once-progress_example =
    drain_once-progress deaf 5 6 one_entry (refs, 0) one_entry-IsValid (ap attempted first_failure)

-- The modem accepts everything.
abbrev keen : ModemPort ℕ
keen = record { send_pdu_sms = λ m hex len. (m + 1, true) }

accepted_at_once : (drain_once keen 5 6 one_entry (refs, 0)).2 ≡ sent (codes "+4915")
unfolding drain_once build_sms_submit_pdus encode_utf8 encode_gsm7_char
accepted_at_once = refl

drain_once-IsSent_example :
    (e : QueueEntry) × (codes "+4915" ≡ e.phone)
    × IsSent keen 5 one_entry (refs, 0) (drain_once keen 5 6 one_entry (refs, 0)).1 e
drain_once-IsSent_example =
    drain_once-IsSent keen 5 6 one_entry (refs, 0) (codes "+4915") accepted_at_once

abbrev command : ℕ → Command
command at = record { at = at; phone = codes "+4915"; body = codes "hi" }

accepted_count-le_example : accepted_count new (command 1 ∷ command 2 ∷ []) ≤ cmd_send_limit
unfolding new window_expired
accepted_count-le_example =
    accepted_count-le new (command 1) (command 2 ∷ []) refl (omega arith, tt)
