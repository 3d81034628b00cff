-- ===== src/Sms/Sender/Invariant.antt =====
-- The invariant of the queue of src/sms/sender.rs.
use smsgate.Base.{
  ℕ, ◌+◌, ◌^◌, ◌≤◌, ◌<◌, ◌==◌, ◌≡◌, inl, inr, not, leb, Bool-cases, Option-cases, Bool, true, false,
  List, [], ◌∷◌, Option, none, some, Text, text_eq, eq→text_eq, length, get_elem?, retain, remove,
  position, any, arith, All, Pairs, All-append, All-retain, All-remove, All-set, Pairs-retain,
  Pairs-remove, Pairs-snoc, Pairs-set, not_any-All, length-append, length-set, length-retain,
  length-remove, get_elem?-lt, List-cases, position-lt, position-get_elem?,
}
use smsgate.Sms.Codec.Submit.{Refs, max_sms_parts, build_sms_submit_pdus}
use smsgate.Sms.Sender.Queue.{
  QueueEntry, SmsSender, new, same_message, fresh_entry, following_id, enqueue, roll_window,
  counted, enqueue_command_send, cancel_for_phone, cancel_by_id, queue_depth, max_attempts,
  cmd_send_limit, is_ready,
}
use smsgate.Sms.Sender.Drain.{ModemPort, settle, try_entry, drain_once}

abbrev pub HasTriesLeft : QueueEntry → Type 0
HasTriesLeft e = e.attempts < max_attempts

abbrev pub OtherMessage : QueueEntry → QueueEntry → Type 0
OtherMessage e f = ¬ ((e.phone ≡ f.phone) × (e.body ≡ f.body))

-- At most eight entries, no two for the same text to the same number, each with an attempt left;
-- the next id is a nonzero u32, and the count of the window is within the limit.
pub record IsValid (s : SmsSender) : Type 0 where
  pub short : length s.entries ≤ queue_depth
  pub tries : All HasTriesLeft s.entries
  pub distinct : Pairs OtherMessage s.entries
  pub id_pos : 0 < s.next_id
  pub id_u32 : s.next_id < 2 ^ 32
  pub limited : s.cmd_window_count ≤ cmd_send_limit

pub new-IsValid : IsValid new
unfolding new
new-IsValid = record {
  short = omega arith;
  tries = tt;
  distinct = tt;
  id_pos = omega arith;
  id_u32 = omega arith;
  limited = omega arith;
}

following_id_bounds : (id : ℕ) → (0 < following_id id) × (following_id id < 2 ^ 32)
unfolding following_id
following_id_bounds id = omega arith

not_same-Other :
    (now id : ℕ) (phone body : Text) (e : QueueEntry)
    → same_message phone body e ≡ false
    → OtherMessage e (fresh_entry now id phone body)
not_same-Other now id phone body e h (p, b) =
    ground (arith, eq→text_eq e.phone phone p, eq→text_eq e.body body b)

pub enqueue-IsValid :
    (now : ℕ) (s : SmsSender) (phone body : Text) → IsValid s → IsValid (enqueue now s phone body).0
unfolding enqueue
enqueue-IsValid now s phone body v = elim (Bool-cases (leb queue_depth (length s.entries))) [
  | inl e ↦ rw (e, enqueue) v
  | inr e ↦ elim (Bool-cases (any (same_message phone body) s.entries)) [
    | inl d ↦ rw (e, d, enqueue) v
    | inr d ↦
        rw (e, d, enqueue)
          (record {
            short = ground (arith, length-append s.entries (new_entry ∷ []), v.short);
            tries = All-append HasTriesLeft s.entries (new_entry ∷ []) v.tries (omega arith, tt);
            distinct = Pairs-snoc OtherMessage s.entries new_entry v.distinct (
                not_any-All (λ x. OtherMessage x new_entry) (same_message phone body) s.entries
                  (not_same-Other now s.next_id phone body) d);
            id_pos = (following_id_bounds s.next_id).0;
            id_u32 = (following_id_bounds s.next_id).1;
            limited = v.limited;
          })
  ]
]
  where
    new_entry : QueueEntry
    new_entry = fresh_entry now s.next_id phone body

roll_window-IsValid : (now : ℕ) (s : SmsSender) → IsValid s → IsValid (roll_window now s)
unfolding roll_window
roll_window-IsValid now s v = ground arith

pub enqueue-window :
    (now : ℕ) (s : SmsSender) (phone body : Text)
    → ((enqueue now s phone body).0.cmd_window_count ≡ s.cmd_window_count)
      × ((enqueue now s phone body).0.cmd_window_start ≡ s.cmd_window_start)
unfolding enqueue
enqueue-window now s phone body = ground arith

counted-IsValid :
    (p : SmsSender × Option ℕ)
    → IsValid p.0
    → p.0.cmd_window_count < cmd_send_limit
    → IsValid (counted p).0
unfolding counted
counted-IsValid (s, some id) v h = record {
  short = v.short;
  tries = v.tries;
  distinct = v.distinct;
  id_pos = v.id_pos;
  id_u32 = v.id_u32;
  limited = omega arith;
}
counted-IsValid (s, none) v h = v

pub enqueue_command_send-IsValid :
    (now : ℕ) (s : SmsSender) (phone body : Text)
    → IsValid s
    → IsValid (enqueue_command_send now s phone body).0
unfolding enqueue_command_send
enqueue_command_send-IsValid now s phone body v =
    let s' = roll_window now s in
    let v' = roll_window-IsValid now s v in
    elim (Bool-cases (leb cmd_send_limit s'.cmd_window_count)) [
      | inl e ↦ rw e v'
      | inr e ↦ rw e (
          counted-IsValid (enqueue now s' phone body) (enqueue-IsValid now s' phone body v')
            (ground (arith, enqueue-window now s' phone body)))
    ]

-- Fewer entries, the rest as it was.
with_entries :
    (s : SmsSender) (es : List QueueEntry)
    → IsValid s
    → length es ≤ length s.entries
    → All HasTriesLeft es
    → Pairs OtherMessage es
    → IsValid (record s { entries = es })
with_entries s es v h t d = record {
  short = omega (arith, v.short);
  tries = t;
  distinct = d;
  id_pos = v.id_pos;
  id_u32 = v.id_u32;
  limited = v.limited;
}

remove-IsValid :
    (s : SmsSender) (i : ℕ)
    → i < length s.entries
    → IsValid s
    → IsValid (record s { entries = remove i s.entries })
remove-IsValid s i h v =
    with_entries s (remove i s.entries) v (omega (arith, length-remove i s.entries h))
      (All-remove HasTriesLeft i s.entries v.tries)
      (Pairs-remove OtherMessage i s.entries v.distinct)

pub cancel_for_phone-IsValid :
    (s : SmsSender) (phone : Text) → IsValid s → IsValid (cancel_for_phone s phone).0
unfolding cancel_for_phone
cancel_for_phone-IsValid s phone v =
    with_entries s (retain kept s.entries) v (length-retain kept s.entries)
      (All-retain HasTriesLeft kept s.entries v.tries)
      (Pairs-retain OtherMessage kept s.entries v.distinct)
  where
    kept : QueueEntry → Bool
    kept e = not (text_eq e.phone phone)

pub cancel_by_id-IsValid : (s : SmsSender) (id : ℕ) → IsValid s → IsValid (cancel_by_id s id).0
unfolding cancel_by_id
cancel_by_id-IsValid s id v = elim (Option-cases (position (λ e. e.id == id) s.entries)) [
  | inl e ↦ rw (e, cancel_by_id) v
  | inr (i, e) ↦
      rw (e, cancel_by_id) (remove-IsValid s i (position-lt (λ x. x.id == id) s.entries i e) v)
]

-- After an attempt, whether it succeeded or not.
settle-IsValid :
    (later : ℕ) (s : SmsSender) (idx : ℕ) (old : QueueEntry) (success : Bool)
    → get_elem? s.entries idx ≡ some old
    → IsValid s
    → IsValid (settle later s idx (record old { attempts = old.attempts + 1 }) success).0
unfolding settle
settle-IsValid later s idx old true at v =
    remove-IsValid s idx (get_elem?-lt s.entries idx old at) v
settle-IsValid later s idx old false at v =
    elim (Bool-cases (leb max_attempts (old.attempts + 1))) [
      | inl e ↦ rw e (remove-IsValid s idx (get_elem?-lt s.entries idx old at) v)
      | inr e ↦ rw e (
          with_entries s _ v (omega (arith, length-set s.entries idx _))
            (All-set HasTriesLeft s.entries idx _ (ground arith) v.tries)
            (Pairs-set OtherMessage s.entries idx old _ at (λ y o. o) (λ y o. o) v.distinct))
    ]

module _ {ℓ} {M : Type ℓ} (port : ModemPort M) where
  try_entry-IsValid :
      (later : ℕ) (s : SmsSender) (w : Refs × M) (idx : ℕ) (old : QueueEntry)
      → get_elem? s.entries idx ≡ some old
      → IsValid s
      → IsValid (try_entry port later s w idx old).0
  unfolding try_entry
  try_entry-IsValid later s w idx old at v =
      elim (List-cases (build_sms_submit_pdus w.0 old.phone old.body max_sms_parts false).1) [
        | inl e ↦ rw (e, try_entry) (remove-IsValid s idx (get_elem?-lt s.entries idx old at) v)
        | inr (p, ps, e) ↦ rw (e, try_entry) (settle-IsValid later s idx old _ at v)
      ]

  pub drain_once-IsValid :
      (now later : ℕ) (s : SmsSender) (w : Refs × M)
      → IsValid s
      → IsValid (drain_once port now later s w).0
  unfolding drain_once
  drain_once-IsValid now later s w v = elim (Option-cases (position (is_ready now) s.entries)) [
    | inl e ↦ rw (e, drain_once) v
    | inr (i, e) ↦
        let (old, at, ready) = position-get_elem? (is_ready now) s.entries i e in
        rw (e, at, drain_once) (try_entry-IsValid later s w i old at v)
  ]

-- What the rest of the program does with the queue.
pub data Op : Type 0 where
  enqueues : ℕ → Text → Text → Op
  commands : ℕ → Text → Text → Op
  drains : ℕ → ℕ → Op
  cancels_phone : Text → Op
  cancels_id : ℕ → Op

module _ {ℓ} {M : Type ℓ} (port : ModemPort M) where
  abbrev pub step : SmsSender × (Refs × M) → Op → SmsSender × (Refs × M)
  step (s, w) (enqueues now phone body) = ((enqueue now s phone body).0, w)
  step (s, w) (commands now phone body) = ((enqueue_command_send now s phone body).0, w)
  step (s, w) (drains now later) = let (s', w', outcome) = drain_once port now later s w in (s', w')
  step (s, w) (cancels_phone phone) = ((cancel_for_phone s phone).0, w)
  step (s, w) (cancels_id id) = ((cancel_by_id s id).0, w)

  abbrev pub run : SmsSender × (Refs × M) → List Op → SmsSender × (Refs × M)
  run p [] = p
  run p (op ∷ ops) = run (step p op) ops

  step-IsValid : (p : SmsSender × (Refs × M)) (op : Op) → IsValid p.0 → IsValid (step p op).0
  step-IsValid (s, w) (enqueues now phone body) v = enqueue-IsValid now s phone body v
  step-IsValid (s, w) (commands now phone body) v = enqueue_command_send-IsValid now s phone body v
  step-IsValid (s, w) (drains now later) v = drain_once-IsValid port now later s w v
  step-IsValid (s, w) (cancels_phone phone) v = cancel_for_phone-IsValid s phone v
  step-IsValid (s, w) (cancels_id id) v = cancel_by_id-IsValid s id v

  run-IsValid : (p : SmsSender × (Refs × M)) (ops : List Op) → IsValid p.0 → IsValid (run p ops).0
  run-IsValid p [] v = v
  run-IsValid p (op ∷ ops) v = run-IsValid (step p op) ops (step-IsValid p op v)

  -- Whatever the modem answers, and in whatever order the operations come, from the new queue on
  -- there are at most eight entries, no two for one text to one number, each with fewer than four
  -- attempts made, the next id is a nonzero u32 and the window's count is at most five.
  pub run-new-IsValid : (w : Refs × M) (ops : List Op) → IsValid (run (new, w) ops).0
  run-new-IsValid w ops = run-IsValid (new, w) ops new-IsValid
