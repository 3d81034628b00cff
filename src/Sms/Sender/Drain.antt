-- ===== src/Sms/Sender/Drain.antt =====
-- `SmsSender::drain_once` of src/sms/sender.rs: one attempt at the first entry that is ready.
-- The modem is a machine `Modem` whose `send_pdu_sms` says whether the PDU was accepted and what
-- becomes of the modem. The PDUs of an entry are those of the codec, whose counters are `Refs`.
use smsgate.Base.{
  ℕ, ◌+◌, ◌-◌, leb, if◌then◌else◌, Bool, true, false, List, [], ◌∷◌, none, some, Text, get_elem?,
  get_or, set, position, remove,
}
use smsgate.Sms.Pdu.{SmsSubmitPdu}
use smsgate.Sms.Codec.Submit.{Refs, max_sms_parts, build_sms_submit_pdus}
use smsgate.Sms.Sender.Queue.{SmsSender, QueueEntry, is_ready, max_attempts, retry_delays, secs}

pub data DrainOutcome : Type 0 where
  idle : DrainOutcome
  sent : Text → DrainOutcome
  retrying : DrainOutcome
  dropped : Text → DrainOutcome
  bad_pdu : DrainOutcome

unfoldable pub attempted : DrainOutcome → Bool
attempted idle = false
attempted _ = true

-- `ModemPort::send_pdu_sms`, which the drivers of src/modem implement: `false` is an error.
pub record ModemPort {ℓ} (M : Type ℓ) : Type ℓ where
  pub send_pdu_sms : M → Text → ℕ → M × Bool

-- What becomes of the entry at `idx` after the attempt, which ended at the time `later`.
unfoldable pub settle : ℕ → SmsSender → ℕ → QueueEntry → Bool → SmsSender × DrainOutcome
unfolding remove
settle later s idx entry success =
    if success
    then (record s { entries = remove idx s.entries }, sent entry.phone)
    else if leb max_attempts entry.attempts
    then (record s { entries = remove idx s.entries }, dropped entry.phone)
    else let delay = get_or retry_delays (entry.attempts - 1) (secs 30) in
      (
        record s {
          entries = set s.entries idx (record entry { next_attempt = some (later + delay) });
        },
        retrying,
      )

module _ {ℓ} {M : Type ℓ} (port : ModemPort M) where
  -- The PDUs in order, up to the first that the modem refuses.
  unfoldable pub send_all : M → List SmsSubmitPdu → M × Bool
  send_all m [] = (m, true)
  send_all m (pdu ∷ pdus) =
      let (m', accepted) = port.send_pdu_sms m pdu.hex pdu.tpdu_len in
      let rest = send_all m' pdus in if accepted then rest else (m', false)

module _ {ℓ} {M : Type ℓ} (port : ModemPort M) where
  unfoldable pub try_entry :
      ℕ → SmsSender → Refs × M → ℕ → QueueEntry → SmsSender × (Refs × M) × DrainOutcome
  unfolding send_all settle
  try_entry later s (refs, m) idx old =
      let entry = record old { attempts = old.attempts + 1 } in
      let (refs', pdus) = build_sms_submit_pdus refs entry.phone entry.body max_sms_parts false in
      let (m', success) = send_all port m pdus in
      let (s', outcome) = settle later s idx entry success in
      elim pdus [
        | [] ↦ (record s { entries = remove idx s.entries }, (refs', m), bad_pdu)
        | pdu ∷ rest ↦ (s', (refs', m'), outcome)
      ]

  -- `position` gives an index in range, so the case `none` of the inner match does not occur.
  unfoldable pub drain_once : ℕ → ℕ → SmsSender → Refs × M → SmsSender × (Refs × M) × DrainOutcome
  unfolding position is_ready try_entry
  drain_once now later s m = elim (position (is_ready now) s.entries) [
    | none ↦ (s, m, idle)
    | some idx ↦ elim (get_elem? s.entries idx) [
      | none ↦ (s, m, idle)
      | some entry ↦ try_entry later s m idx entry
    ]
  ]
