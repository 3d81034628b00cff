-- ===== src/Sms/Sender/Delivery.antt =====
-- One call of `drain_once` of src/sms/sender.rs, and the attempts that are left.
use smsgate.Base.{
  ℕ, ◌+◌, ◌-◌, ◌*◌, ◌≤◌, ◌<◌, ◌≡◌, ◌⊎◌, refl, ◌∙◌, ap, inl, inr, leb, Bool-cases, Option-cases,
  List-cases, Bool, true, false, List, [], ◌∷◌, ◌++◌, some, length, get_elem?, get_or, set, remove,
  position, any, arith, All, position-none, position-splits, get_elem?-middle, remove-middle,
  set-middle,
}
use mathlib.Core.Path.{subst}
use smsgate.Sms.Codec.Submit.{Refs, max_sms_parts, build_sms_submit_pdus}
use smsgate.Sms.Sender.Queue.{QueueEntry, SmsSender, is_ready, max_attempts, retry_delays, secs}
use smsgate.Sms.Sender.Drain.{
  ModemPort, settle, try_entry, drain_once, DrainOutcome, idle, sent, retrying, dropped, bad_pdu,
  attempted,
}
use smsgate.Sms.Sender.Invariant.{IsValid, HasTriesLeft}

-- The entry after an attempt that failed at the time `later`, to be tried again.
abbrev pub postponed : ℕ → QueueEntry → QueueEntry
postponed later e = record e {
  attempts = e.attempts + 1;
  next_attempt = some (later + get_or retry_delays e.attempts (secs 30));
}

-- What an attempt at `e`, which stands between `before` and `after`, makes of the entries.
abbrev pub Settles :
    ℕ → List QueueEntry → QueueEntry → List QueueEntry → DrainOutcome → List QueueEntry → Type 0
Settles later before e after idle es = ⊥
Settles later before e after (sent phone) es = (phone ≡ e.phone) × (es ≡ before ++ after)
Settles later before e after retrying es =
    (e.attempts + 1 < max_attempts) × (es ≡ before ++ (postponed later e ∷ after))
Settles later before e after (dropped phone) es =
    (phone ≡ e.phone) × (max_attempts ≤ e.attempts + 1) × (es ≡ before ++ after)
Settles later before e after bad_pdu es = es ≡ before ++ after

-- The attempt is made at the first entry that is ready; with none ready nothing changes.
abbrev pub Drains : ℕ → ℕ → SmsSender → DrainOutcome → SmsSender → Type 0
Drains now later s outcome s' =
    ((outcome ≡ idle) × (s' ≡ s) × (any (is_ready now) s.entries ≡ false))
    ⊎ ((before : List QueueEntry) × (e : QueueEntry) × (after : List QueueEntry) × (s.entries
          ≡ before ++ (e ∷ after))
        × (any (is_ready now) before ≡ false)
        × (is_ready now e ≡ true)
        × Settles later before e after outcome s'.entries)

module _ (before : List QueueEntry) (e : QueueEntry) (after : List QueueEntry) where
  settle-Settles :
      (later : ℕ) (s : SmsSender) (success : Bool)
      → s.entries ≡ before ++ (e ∷ after)
      → let (s', outcome) =
          settle later s (length before) (record e { attempts = e.attempts + 1 }) success in
        Settles later before e after outcome s'.entries
  unfolding settle
  settle-Settles later s true at =
      (refl, ap (remove (length before)) at ∙ remove-middle before e after)
  settle-Settles later s false at = elim (Bool-cases (leb max_attempts (e.attempts + 1))) [
    | inl h ↦
        rw h (refl, ground arith, ap (remove (length before)) at ∙ remove-middle before e after)
    | inr h ↦ rw h (
      ground arith,
      ap (λ es. set es (length before) (retried (e.attempts + 1 - 1))) at
          ∙ set-middle before e (retried (e.attempts + 1 - 1)) after
          ∙ ap (λ d. before ++ (retried d ∷ after)) (omega arith),
    )
  ]
    where
      retried : ℕ → QueueEntry
      retried d = record e {
        attempts = e.attempts + 1;
        next_attempt = some (later + get_or retry_delays d (secs 30));
      }

module _ {ℓ} {M : Type ℓ} (port : ModemPort M) where
  try_entry-Settles :
      (later : ℕ) (s : SmsSender) (w : Refs × M) (before : List QueueEntry) (e : QueueEntry)
      (after : List QueueEntry)
      → s.entries ≡ before ++ (e ∷ after)
      → let (s', m', outcome) = try_entry port later s w (length before) e in
        Settles later before e after outcome s'.entries
  unfolding try_entry
  try_entry-Settles later s w before e after at =
      elim (List-cases (build_sms_submit_pdus w.0 e.phone e.body max_sms_parts false).1) [
        | inl p ↦ rw (p, try_entry) (ap (remove (length before)) at ∙ remove-middle before e after)
        | inr (q, qs, p) ↦ rw (p, try_entry) (settle-Settles before e after later s _ at)
      ]

  -- One call of `drain_once` leaves the queue alone and is idle if no entry is ready. Otherwise it
  -- tries the first ready entry: a sent or a dropped entry leaves the queue, and so does one
  -- without PDUs; one to be retried stays in its place with one attempt more and its next attempt
  -- after the delay of that number. An entry is dropped at its fourth attempt and retried before.
  pub drain_once-Drains :
      (now later : ℕ) (s : SmsSender) (w : Refs × M)
      → let (s', m', outcome) = drain_once port now later s w in Drains now later s outcome s'
  unfolding drain_once
  drain_once-Drains now later s w = elim (Option-cases (position (is_ready now) s.entries)) [
    | inl e ↦ rw (e, drain_once) (inl (refl, refl, position-none (is_ready now) s.entries e))
    | inr (i, p) ↦
        let (before, e, after, at, here, unready, ready) =
          position-splits (is_ready now) s.entries i p in
        let found : get_elem? s.entries i ≡ some e =
          ap (λ es. get_elem? es i) at
          ∙ ap (get_elem? (before ++ (e ∷ after))) here
          ∙ get_elem?-middle before e after in
        rw (p, found, drain_once)
          (inr (
            before,
            e,
            after,
            at,
            unready,
            ready,
            rw here (try_entry-Settles later s w before e after at),
          ))
  ]

-- How many attempts the entries have left between them.
abbrev pub tries_left : List QueueEntry → ℕ
tries_left [] = 0
tries_left (e ∷ es) = (max_attempts - e.attempts) + tries_left es

tries_left-append :
    (es fs : List QueueEntry) → tries_left (es ++ fs) ≡ tries_left es + tries_left fs
tries_left-append [] fs = omega arith
tries_left-append (e ∷ es) fs = omega (arith, tries_left-append es fs)

tries_left-le : (es : List QueueEntry) → tries_left es ≤ max_attempts * length es
tries_left-le [] = omega arith
tries_left-le (e ∷ es) = omega (arith, tries_left-le es)

tries_left-Settles :
    (later : ℕ) (before : List QueueEntry) (e : QueueEntry) (after es : List QueueEntry)
    (o : DrainOutcome)
    → e.attempts < max_attempts
    → Settles later before e after o es
    → tries_left es < tries_left (before ++ (e ∷ after))
tries_left-Settles later before e after es idle h t = absurd t
tries_left-Settles later before e after es (sent phone) h t =
    omega (
      arith,
      ap tries_left t.1,
      tries_left-append before after,
      tries_left-append before (e ∷ after),
    )
tries_left-Settles later before e after es retrying h t = omega (
  arith,
  ap tries_left t.1,
  tries_left-append before (postponed later e ∷ after),
  tries_left-append before (e ∷ after),
)
tries_left-Settles later before e after es (dropped phone) h t =
    omega (
      arith,
      ap tries_left t.2,
      tries_left-append before after,
      tries_left-append before (e ∷ after),
    )
tries_left-Settles later before e after es bad_pdu h t =
    omega
      (arith, ap tries_left t, tries_left-append before after, tries_left-append before (e ∷ after))

All-middle :
    (before : List QueueEntry) (e : QueueEntry) (after : List QueueEntry)
    → All HasTriesLeft (before ++ (e ∷ after))
    → e.attempts < max_attempts
All-middle [] e after h = h.0
All-middle (x ∷ before) e after h = All-middle before e after h.1

module _ {ℓ} {M : Type ℓ} (port : ModemPort M) where
  -- Every attempt uses up one of at most 32 attempts that a valid queue has left, so without new
  -- entries the queue makes at most 32, whatever the modem answers.
  pub drain_once-progress :
      (now later : ℕ) (s : SmsSender) (w : Refs × M)
      → IsValid s
      → attempted (drain_once port now later s w).2 ≡ true
      → (tries_left (drain_once port now later s w).0.entries < tries_left s.entries)
        × (tries_left s.entries ≤ 32)
  unfolding attempted
  drain_once-progress now later s w v tried =
      let (s', m', outcome) = drain_once port now later s w in
      elim (drain_once-Drains port now later s w) [
        | inl (e, same, unready) ↦ cc
        | inr (before, e, after, at, unready, ready, t) ↦ (
          rw (ap tries_left at) (
              tries_left-Settles later before e after s'.entries outcome
                (All-middle before e after (subst (All HasTriesLeft) at v.tries)) t),
          omega (arith, tries_left-le s.entries, v.short),
        )
      ]
