-- ===== src/Sms/Sender/Accepted.antt =====
-- The attempt of src/sms/sender.rs at the modem's port.
use smsgate.Base.{
  ℕ, ◌+◌, leb, ◌≡◌, refl, inl, inr, Bool-cases, Option-cases, List-cases, Bool, true, false, List,
  [], ◌∷◌, some, Text, get_elem?, position, position-get_elem?,
}
use mathlib.Core.Path.{subst}
use smsgate.Sms.Pdu.{SmsSubmitPdu}
use smsgate.Sms.Codec.Submit.{Refs, max_sms_parts, build_sms_submit_pdus}
use smsgate.Sms.Sender.Queue.{QueueEntry, SmsSender, is_ready, max_attempts}
use smsgate.Sms.Sender.Drain.{
  ModemPort, idle, sent, retrying, dropped, bad_pdu, send_all, settle, try_entry, drain_once,
}

module _ {ℓ} {M : Type ℓ} (port : ModemPort M) where
  -- The modem accepts the PDUs one after the other, which takes it from `m` to `m'`.
  abbrev pub Accepts : M → List SmsSubmitPdu → M → Type ℓ
  Accepts m [] m' = m' ≡ m
  Accepts m (pdu ∷ pdus) m' =
      let (next, accepted) = port.send_pdu_sms m pdu.hex pdu.tpdu_len in
      (accepted ≡ true) × Accepts next pdus m'

  -- The entry `e` was ready, had PDUs, and the modem accepted them all.
  pub record IsSent (now : ℕ) (s : SmsSender) (w w' : Refs × M) (e : QueueEntry) : Type ℓ where
    pub ready : is_ready now e ≡ true
    pub queued : (i : ℕ) × (get_elem? s.entries i ≡ some e)
    pub first : SmsSubmitPdu
    pub others : List SmsSubmitPdu
    pub built : (build_sms_submit_pdus w.0 e.phone e.body max_sms_parts false).1 ≡ first ∷ others
    pub accepted : Accepts w.1 (first ∷ others) w'.1

  send_all-Accepts :
      (m : M) (pdus : List SmsSubmitPdu)
      → (send_all port m pdus).1 ≡ true
      → Accepts m pdus (send_all port m pdus).0
  unfolding send_all
  send_all-Accepts m [] h = refl
  send_all-Accepts m (pdu ∷ pdus) h =
      let (next, accepted) = port.send_pdu_sms m pdu.hex pdu.tpdu_len in
      elim (Bool-cases accepted) [
        | inl e ↦ rw e (refl, send_all-Accepts next pdus (rw e at h))
        | inr e ↦ let refused : false ≡ true = rw e at h in cc
      ]

settle-sent :
    (later : ℕ) (s : SmsSender) (idx : ℕ) (entry : QueueEntry) (success : Bool) (phone : Text)
    → (settle later s idx entry success).1 ≡ sent phone
    → (success ≡ true) × (phone ≡ entry.phone)
unfolding settle
settle-sent later s idx entry true phone h =
    (refl, let same : sent entry.phone ≡ sent phone = h in cc)
settle-sent later s idx entry false phone h = elim (Bool-cases (leb max_attempts entry.attempts)) [
  | inl e ↦ let other : dropped entry.phone ≡ sent phone = rw e at h in cc
  | inr e ↦ let other : retrying ≡ sent phone = rw e at h in cc
]

module _ {ℓ} {M : Type ℓ} (port : ModemPort M) where
  try_entry-sent :
      (later : ℕ) (s : SmsSender) (w : Refs × M) (idx : ℕ) (e : QueueEntry) (phone : Text)
      → (try_entry port later s w idx e).2 ≡ sent phone
      → (phone ≡ e.phone)
        × ((first : SmsSubmitPdu) × (others : List SmsSubmitPdu) × ((build_sms_submit_pdus w.0
                e.phone e.body max_sms_parts false).1
              ≡ first ∷ others)
            × Accepts port w.1 (first ∷ others) (try_entry port later s w idx e).1.1)
  unfolding try_entry
  try_entry-sent later s w idx e phone h =
      elim (List-cases (build_sms_submit_pdus w.0 e.phone e.body max_sms_parts false).1) [
        | inl p ↦ let other : bad_pdu ≡ sent phone = rw (p, try_entry) at h in cc
        | inr (q, qs, p) ↦
            let pdus = (build_sms_submit_pdus w.0 e.phone e.body max_sms_parts false).1 in
            let k =
              settle-sent later s idx (record e { attempts = e.attempts + 1 })
                (send_all port w.1 pdus).1 phone (rw (p, try_entry) at h) in
            rw (p, try_entry)
              (
                k.1,
                (
                  q,
                  qs,
                  refl,
                  subst (λ ps. Accepts port w.1 ps (send_all port w.1 pdus).0) p
                      (send_all-Accepts port w.1 pdus k.0),
                ),
              )
      ]

  -- An entry counts as sent, and is taken off the queue for it, only if it was ready, has PDUs, and
  -- the modem has accepted each of them in order.
  pub drain_once-IsSent :
      (now later : ℕ) (s : SmsSender) (w : Refs × M) (phone : Text)
      → (drain_once port now later s w).2 ≡ sent phone
      → (e : QueueEntry) × (phone ≡ e.phone)
        × IsSent port now s w (drain_once port now later s w).1 e
  unfolding drain_once
  drain_once-IsSent now later s w phone h =
      elim (Option-cases (position (is_ready now) s.entries)) [
        | inl p ↦ let other : idle ≡ sent phone = rw (p, drain_once) at h in cc
        | inr (i, p) ↦
            let (e, at, ready) = position-get_elem? (is_ready now) s.entries i p in
            let (to, (first, others, built, accepted)) =
              try_entry-sent later s w i e phone (rw (p, at, drain_once) at h) in
            (
              e,
              to,
              rw (p, at, drain_once)
                  (record {
                    ready = ready;
                    queued = (i, at);
                    first = first;
                    others = others;
                    built = built;
                    accepted = accepted;
                  }),
            )
      ]
