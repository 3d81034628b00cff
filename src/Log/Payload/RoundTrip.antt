-- ===== src/Log/Payload/RoundTrip.antt =====
-- `encode_payload` and `decode_payload` of src/log_ring.rs.
use smsgate.Base.{
  ℕ, ◌+◌, ◌-◌, ◌≡◌, ◌≢◌, refl, sym, ltb, ◌==◌, if◌then◌else◌, inl, inr, Bool, true, false,
  Bool-cases, List, [], ◌∷◌, ◌++◌, none, some, Text, codes, text_eq, bytes, from_utf8-bytes,
  IsScalar, All, All-append, split, split-append, split_whole, arith,
}
use smsgate.Log.Entry.{LogEntry, LogKind, sms, call, system, network, user, ota, as_str, parse}
use smsgate.Log.Payload.{
  flash_log_payload_size, escaped_len, escaped_char, escaped_field, escaped_field_truncated,
  unescape_field, flag, base_len, budgets, payload_text, encode_payload, decode_fields,
  decode_payload,
}

unescape-plain :
    (c : ℕ) (s : Text) → c == 0x5C ≡ false → unescape_field (c ∷ s) ≡ c ∷ unescape_field s
unfolding unescape_field
unescape-plain c [] h = refl
unescape-plain c (d ∷ s) h = rw (h, unescape_field) refl

pub unescape_field-escaped_field : (input : Text) → unescape_field (escaped_field input) ≡ input
unfolding unescape_field escaped_field
unescape_field-escaped_field [] = refl
unescape_field-escaped_field (c ∷ input) =
    let ih = unescape_field-escaped_field input in
    elim (Bool-cases (c == 0x5C)) [
      | inl e ↦ rw (e, ih) (ground arith)
      | inr e ↦ elim (Bool-cases (c == 0x09)) [
        | inl f ↦ rw (e, f, ih) (ground arith)
        | inr f ↦ elim (Bool-cases (c == 0x0A)) [
          | inl g ↦ rw (e, f, g, ih) (ground arith)
          | inr g ↦ elim (Bool-cases (c == 0x0D)) [
            | inl k ↦ rw (e, f, g, k, ih) (ground arith)
            | inr k ↦ rw (e, f, g, k, unescape-plain c (escaped_field input) e, ih) refl
          ]
        ]
      ]
    ]

-- The first characters, as many as fit into the budget when they are escaped.
unfoldable pub fitting : ℕ → ℕ → Text → Text
unfolding escaped_len
fitting used budget [] = []
fitting used budget (c ∷ input) =
    let rest = fitting (used + escaped_len c) budget input in
    if ltb budget (used + escaped_len c) then [] else c ∷ rest

pub escaped_field-fitting :
    (used budget : ℕ) (input : Text)
    → escaped_field_truncated used budget input ≡ escaped_field (fitting used budget input)
unfolding escaped_field_truncated escaped_field fitting
escaped_field-fitting used budget [] = refl
escaped_field-fitting used budget (c ∷ input) =
    let ih = escaped_field-fitting (used + escaped_len c) budget input in
    elim (Bool-cases (ltb budget (used + escaped_len c))) [
      | inl e ↦ rw (e, escaped_field_truncated) refl
      | inr e ↦ rw (e, escaped_field_truncated, ih) refl
    ]

-- No tab, which would end the field.
abbrev NoTab : ℕ → Type 0
NoTab c = c ≢ 0x09

escaped_char-NoTab : (c : ℕ) → All NoTab (escaped_char c)
escaped_char-NoTab c = ground arith

escaped_field-NoTab : (input : Text) → All NoTab (escaped_field input)
unfolding escaped_field
escaped_field-NoTab [] = tt
escaped_field-NoTab (c ∷ input) =
    All-append NoTab (escaped_char c) (escaped_field input) (escaped_char-NoTab c)
      (escaped_field-NoTab input)

escaped_char-IsScalar : (c : ℕ) → IsScalar c → All IsScalar (escaped_char c)
escaped_char-IsScalar c h = ground arith

escaped_field-IsScalar : (input : Text) → All IsScalar input → All IsScalar (escaped_field input)
unfolding escaped_field
escaped_field-IsScalar [] h = tt
escaped_field-IsScalar (c ∷ input) (p, h) =
    All-append IsScalar (escaped_char c) (escaped_field input) (escaped_char-IsScalar c p)
      (escaped_field-IsScalar input h)

fitting-IsScalar :
    (used budget : ℕ) (input : Text) → All IsScalar input → All IsScalar (fitting used budget input)
unfolding fitting
fitting-IsScalar used budget [] h = tt
fitting-IsScalar used budget (c ∷ input) (p, h) =
    elim (Bool-cases (ltb budget (used + escaped_len c))) [
      | inl e ↦ rw (e, fitting) tt
      | inr e ↦ rw (e, fitting) (p, fitting-IsScalar (used + escaped_len c) budget input h)
    ]

parse-as_str : (kind : LogKind) → parse (as_str kind) ≡ some kind
unfolding parse text_eq
parse-as_str sms = refl
parse-as_str call = refl
parse-as_str system = refl
parse-as_str network = refl
parse-as_str user = refl
parse-as_str ota = refl

as_str-NoTab : (kind : LogKind) → All NoTab (as_str kind)
as_str-NoTab sms = ground arith
as_str-NoTab call = ground arith
as_str-NoTab system = ground arith
as_str-NoTab network = ground arith
as_str-NoTab user = ground arith
as_str-NoTab ota = ground arith

as_str-IsScalar : (kind : LogKind) → All IsScalar (as_str kind)
as_str-IsScalar sms = ground arith
as_str-IsScalar call = ground arith
as_str-IsScalar system = ground arith
as_str-IsScalar network = ground arith
as_str-IsScalar user = ground arith
as_str-IsScalar ota = ground arith

flag-NoTab : (b : Bool) → All NoTab (flag b)
flag-NoTab true = ground arith
flag-NoTab false = ground arith

flag-IsScalar : (b : Bool) → All IsScalar (flag b)
flag-IsScalar true = ground arith
flag-IsScalar false = ground arith

text_eq-flag : (b : Bool) → text_eq (flag b) (codes "1") ≡ b
unfolding text_eq
text_eq-flag true = refl
text_eq-flag false = refl

module _ (e : LogEntry) where
  -- The entry with as much of the sender and of the text as the budgets allow.
  abbrev cut : ℕ × ℕ → LogEntry
  cut (sender_budget, body_budget) = record e {
    sender = fitting 0 sender_budget e.sender;
    body_preview = fitting 0 body_budget e.body_preview;
  }

  -- What is kept of the entry.
  abbrev pub kept : LogEntry
  kept = cut (budgets (flash_log_payload_size - base_len e) e.sender)

  abbrev pub IsText : Type 0
  IsText = All IsScalar e.timestamp × All IsScalar e.sender × All IsScalar e.body_preview

  split-payload_text :
      (b : ℕ × ℕ)
      → split 0x09 (payload_text e b)
        ≡ codes "1"
          ∷ as_str e.kind
          ∷ flag e.forwarded
          ∷ escaped_field e.timestamp
          ∷ escaped_field (fitting 0 b.0 e.sender)
          ∷ escaped_field (fitting 0 b.1 e.body_preview)
          ∷ []
  unfolding payload_text
  split-payload_text (sender_budget, body_budget) =
      let sender = fitting 0 sender_budget e.sender in
      let body = fitting 0 body_budget e.body_preview in
      rw
        (
          escaped_field-fitting 0 sender_budget e.sender,
          escaped_field-fitting 0 body_budget e.body_preview,
          split-append 0x09 (codes "1")
              (as_str e.kind
                ++ (0x09 ∷ flag e.forwarded
                    ++ (0x09 ∷ escaped_field e.timestamp
                        ++ (0x09 ∷ escaped_field sender ++ (0x09 ∷ escaped_field body)))))
              (ground arith),
          split-append 0x09 (as_str e.kind)
              (flag e.forwarded
                ++ (0x09 ∷ escaped_field e.timestamp
                    ++ (0x09 ∷ escaped_field sender ++ (0x09 ∷ escaped_field body))))
              (as_str-NoTab e.kind),
          split-append 0x09 (flag e.forwarded)
              (escaped_field e.timestamp
                ++ (0x09 ∷ escaped_field sender ++ (0x09 ∷ escaped_field body)))
              (flag-NoTab e.forwarded),
          split-append 0x09 (escaped_field e.timestamp)
              (escaped_field sender ++ (0x09 ∷ escaped_field body))
              (escaped_field-NoTab e.timestamp),
          split-append 0x09 (escaped_field sender) (escaped_field body)
              (escaped_field-NoTab sender),
          split_whole 0x09 (escaped_field body) (escaped_field-NoTab body),
        )
        refl

  decode_fields-split : (b : ℕ × ℕ) → decode_fields (split 0x09 (payload_text e b)) ≡ some (cut b)
  unfolding decode_fields
  decode_fields-split (sender_budget, body_budget) =
      rw
        (
          split-payload_text (sender_budget, body_budget),
          parse-as_str e.kind,
          unescape_field-escaped_field e.timestamp,
          unescape_field-escaped_field (fitting 0 sender_budget e.sender),
          unescape_field-escaped_field (fitting 0 body_budget e.body_preview),
          text_eq-flag e.forwarded,
        )
        refl

  payload_text-IsScalar : (b : ℕ × ℕ) → IsText → All IsScalar (payload_text e b)
  unfolding payload_text
  payload_text-IsScalar (sender_budget, body_budget) (time, sender, body) =
      rw
        (
          escaped_field-fitting 0 sender_budget e.sender,
          escaped_field-fitting 0 body_budget e.body_preview,
        )
        (
          refl,
          (
            refl,
            All-append IsScalar (as_str e.kind) _ (as_str-IsScalar e.kind) (
              refl,
              All-append IsScalar (flag e.forwarded) _ (flag-IsScalar e.forwarded) (
                refl,
                All-append IsScalar (escaped_field e.timestamp) _
                    (escaped_field-IsScalar e.timestamp time)
                    (
                      refl,
                      All-append IsScalar (escaped_field (fitting 0 sender_budget e.sender)) _
                          (escaped_field-IsScalar _
                            (fitting-IsScalar 0 sender_budget e.sender sender))
                          (
                            refl,
                            escaped_field-IsScalar _
                                (fitting-IsScalar 0 body_budget e.body_preview body),
                          ),
                    ),
              ),
            ),
          ),
        )

  -- What is written of an entry is read as the entry with its sender and its text cut to what
  -- fits, if its texts are of Unicode's characters.
  pub decode_payload-encode_payload :
      (bs : List ℕ) → IsText → encode_payload e ≡ some bs → decode_payload bs ≡ some kept
  unfolding encode_payload decode_payload
  decode_payload-encode_payload bs text h =
      elim (Bool-cases (ltb flash_log_payload_size (base_len e))) [
        | inl f ↦ let wrong : none ≡ some bs = rw (f, encode_payload) at h in cc
        | inr f ↦
            let b = budgets (flash_log_payload_size - base_len e) e.sender in
            let written : some (bytes (payload_text e b)) ≡ some bs = rw (f, encode_payload) at h in
            let same : bytes (payload_text e b) ≡ bs = cc in
            rw (sym same) (
              rw (from_utf8-bytes (payload_text e b) (payload_text-IsScalar b text))
                (decode_fields-split b))
      ]
