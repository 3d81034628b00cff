-- ===== src/Log/Payload/Bounds.antt =====
-- The size of a payload of src/log_ring.rs.
use smsgate.Base.{
  ℕ, ◌+◌, ◌-◌, ◌≤◌, ◌≡◌, refl, sym, ◌∙◌, ap, ltb, leb, inl, inr, true, false, Bool-cases, List, [],
  ◌∷◌, ◌++◌, none, some, Text, length, length-append, bytes, bytes-append, encode_utf8, arith,
}
use smsgate.Log.Entry.{LogEntry, as_str}
use smsgate.Log.Payload.{
  flash_log_payload_size, escaped_len, escaped_field_len, escaped_char, escaped_field, flag,
  base_len, budgets, payload_text, encode_payload, decode_payload,
}
use smsgate.Log.Payload.RoundTrip.{
  fitting, escaped_field-fitting, kept, IsText, decode_payload-encode_payload,
}

length-escaped_char : (c : ℕ) → length (bytes (escaped_char c)) ≡ escaped_len c
unfolding bytes escaped_len encode_utf8
length-escaped_char c = ground (arith, length-append (encode_utf8 c) [])

length-escaped_field : (s : Text) → length (bytes (escaped_field s)) ≡ escaped_field_len s
unfolding escaped_field escaped_field_len bytes
length-escaped_field [] = refl
length-escaped_field (c ∷ s) =
    rw
      (
        bytes-append (escaped_char c) (escaped_field s),
        length-append (bytes (escaped_char c)) (bytes (escaped_field s)),
        length-escaped_char c,
        length-escaped_field s,
      )
      refl

fitting-le :
    (used budget : ℕ) (s : Text)
    → used ≤ budget
    → used + escaped_field_len (fitting used budget s) ≤ budget
unfolding fitting escaped_field_len
fitting-le used budget [] h = omega arith
fitting-le used budget (c ∷ s) h = elim (Bool-cases (ltb budget (used + escaped_len c))) [
  | inl e ↦ rw (e, fitting) (omega arith)
  | inr e ↦
      let inside : used + escaped_len c ≤ budget = ground arith in
      rw (e, fitting) (omega (arith, fitting-le (used + escaped_len c) budget s inside))
]

fitting_whole :
    (used budget : ℕ) (s : Text) → used + escaped_field_len s ≤ budget → fitting used budget s ≡ s
unfolding fitting escaped_field_len
fitting_whole used budget [] h = refl
fitting_whole used budget (c ∷ s) h =
    let inside : ltb budget (used + escaped_len c) ≡ false = ground arith in
    rw (inside, fitting) (ap (◌∷◌ c) (fitting_whole (used + escaped_len c) budget s (omega arith)))

budgets-le :
    (available : ℕ) (sender : Text)
    → (budgets available sender).0 + (budgets available sender).1 ≤ available
unfolding budgets
budgets-le available sender = ground arith

length-tabbed :
    (s t : Text) → length (bytes (s ++ (0x09 ∷ t))) ≡ length (bytes s) + (1 + length (bytes t))
unfolding bytes encode_utf8
length-tabbed s t =
    rw (bytes-append s (0x09 ∷ t), length-append (bytes s) (bytes (0x09 ∷ t))) (omega arith)

length-payload_text :
    (e : LogEntry) (b : ℕ × ℕ)
    → length (bytes (payload_text e b))
      ≡ base_len e
        + escaped_field_len (fitting 0 b.0 e.sender)
        + escaped_field_len (fitting 0 b.1 e.body_preview)
unfolding payload_text base_len bytes encode_utf8
length-payload_text e (sender_budget, body_budget) =
    let sender = fitting 0 sender_budget e.sender in
    let body = fitting 0 body_budget e.body_preview in
    rw
      (
        escaped_field-fitting 0 sender_budget e.sender,
        escaped_field-fitting 0 body_budget e.body_preview,
        length-tabbed (as_str e.kind) (
            flag e.forwarded
            ++ (0x09 ∷ escaped_field e.timestamp
                ++ (0x09 ∷ escaped_field sender ++ (0x09 ∷ escaped_field body)))),
        length-tabbed (flag e.forwarded) (
            escaped_field e.timestamp
            ++ (0x09 ∷ escaped_field sender ++ (0x09 ∷ escaped_field body))),
        length-tabbed (escaped_field e.timestamp)
            (escaped_field sender ++ (0x09 ∷ escaped_field body)),
        length-tabbed (escaped_field sender) (escaped_field body),
        length-escaped_field e.timestamp,
        length-escaped_field sender,
        length-escaped_field body,
      )
      (omega arith)

-- An entry is kept in at most 240 bytes.
pub encode_payload-le :
    (e : LogEntry) (bs : List ℕ) → encode_payload e ≡ some bs → length bs ≤ flash_log_payload_size
unfolding encode_payload
encode_payload-le e bs h = elim (Bool-cases (ltb flash_log_payload_size (base_len e))) [
  | inl f ↦ let wrong : none ≡ some bs = rw (f, encode_payload) at h in cc
  | inr f ↦
      let b = budgets (flash_log_payload_size - base_len e) e.sender in
      let written : some (bytes (payload_text e b)) ≡ some bs = rw (f, encode_payload) at h in
      let same : bytes (payload_text e b) ≡ bs = cc in
      let within : base_len e ≤ flash_log_payload_size = ground arith in
      rw (sym same, length-payload_text e b)
        (omega (
          arith,
          within,
          budgets-le (flash_log_payload_size - base_len e) e.sender,
          fitting-le 0 b.0 e.sender (omega arith),
          fitting-le 0 b.1 e.body_preview (omega arith),
        ))
]

kept_whole :
    (e : LogEntry)
    → base_len e + escaped_field_len e.sender + escaped_field_len e.body_preview
      ≤ flash_log_payload_size
    → kept e ≡ e
unfolding budgets
kept_whole e h =
    let fits : leb (escaped_field_len e.sender) (flash_log_payload_size - base_len e) ≡ true =
      ground arith in
    rw
      (
        fits,
        budgets,
        fitting_whole 0 (escaped_field_len e.sender) e.sender (omega arith),
        fitting_whole 0 (flash_log_payload_size - base_len e - escaped_field_len e.sender)
            e.body_preview (omega arith),
      )
      refl

-- An entry of Unicode's characters whose fields need no more than 240 bytes when they are escaped is
-- read back from what is written of it as it was.
pub decode_payload-encode_payload_whole :
    (e : LogEntry) (bs : List ℕ)
    → IsText e
    → base_len e + escaped_field_len e.sender + escaped_field_len e.body_preview
      ≤ flash_log_payload_size
    → encode_payload e ≡ some bs
    → decode_payload bs ≡ some e
decode_payload-encode_payload_whole e bs text h written =
    decode_payload-encode_payload e bs text written ∙ ap some (kept_whole e h)
