-- ===== src/Bridge/Poller/Sent.antt =====
-- From the command /send to the outbound queue: src/commands/builtin/send.rs and
-- src/bridge/poller.rs.
use smsgate.Base.{
  ℕ, ◌≡◌, ◌⊎◌, refl, sym, ◌∙◌, ap, inl, inr, ◌==◌, not, Bool, true, false, Bool-cases, Option-cases,
  List, [], ◌∷◌, ◌++◌, append_assoc, some, Text, codes, length, bytes, all, arith, All, All-append,
  All-drop, All-map, split-append, retain, retain-Passes, split, split_once, lines, lines_of,
  strip_cr, onto_first, trim, is_whitespace,
}
use smsgate.Strings.{char_prefix}
use smsgate.Locale.{Locale}
use smsgate.Sms.Codec.Phone.{normalize_phone, is_valid_sms_destination, starts_with}
use smsgate.Sms.Codec.Phone.Laws.{is_phone_char}
use smsgate.Sms.Codec.Parts.{count_sms_parts}
use smsgate.Sms.Sender.Queue.{SmsSender, enqueue_command_send}
use smsgate.Bridge.Forwarder.{Services}
use smsgate.Commands.{send_sentinel, encoded_sentinel_body}
use smsgate.Commands.Encoded.{
  IsInline, encoded_sentinel_body-IsInline, decode_sentinel_body-encoded_sentinel_body,
}
use smsgate.Commands.Builtin.{
  max_sms_parts, is_number_byte, send, send_to, send_counted, send_reply,
}
use smsgate.Bridge.Poller.Sentinels.{
  Applied, apply_sentinels, apply_lines, apply_line, apply_send, after_enqueue, unapplied,
}

strip_cr-inline : (line : Text) → All IsInline line → strip_cr line ≡ line
strip_cr-inline [] h = refl
strip_cr-inline (c ∷ []) ((n, r), h) = ground arith
strip_cr-inline (c ∷ d ∷ line) (p, h) = ap (◌∷◌ c) (strip_cr-inline (d ∷ line) h)

onto_first-cons :
    (c : ℕ) (pieces : List Text) → (p : Text) × (ps : List Text) × (onto_first c pieces ≡ p ∷ ps)
onto_first-cons c [] = (c ∷ [], [], refl)
onto_first-cons c (piece ∷ pieces) = (c ∷ piece, pieces, refl)

split-cons : (sep : ℕ) (s : Text) → (p : Text) × (ps : List Text) × (split sep s ≡ p ∷ ps)
unfolding split
split-cons sep [] = ([], [], refl)
split-cons sep (c ∷ s) = elim (Bool-cases (c == sep)) [
  | inl e ↦ ([], split sep s, rw e refl)
  | inr e ↦ let (p, ps, q) = onto_first-cons c (split sep s) in (p, ps, rw e q)
]

-- A line that a line feed ends is the first of the lines.
pub lines-append :
    (line rest : Text) → All IsInline line → lines (line ++ (0x0A ∷ rest)) ≡ line ∷ lines rest
unfolding lines lines_of
lines-append line rest h =
    let (p, ps, e) = split-cons 0x0A rest in
    rw (split-append 0x0A line rest (All-map (λ c p. p.0) line h), e, strip_cr-inline line h) refl

split_once-append :
    (test : ℕ → Bool) (before : Text) (sep : ℕ) (after : Text)
    → All (λ c. test c ≡ false) before
    → test sep ≡ true
    → split_once test (before ++ (sep ∷ after)) ≡ some (before, after)
unfolding split_once
split_once-append test [] sep after h k = rw k refl
split_once-append test (c ∷ before) sep after (p, h) k =
    rw (p, split_once-append test before sep after h k) refl

-- What the normal form of a number is made of.
pub normalize_phone-Passes : (raw : Text) → All (λ c. is_phone_char c ≡ true) (normalize_phone raw)
unfolding normalize_phone
normalize_phone-Passes raw =
    let passes = retain-Passes is_phone_char raw in
    elim (Bool-cases (starts_with (codes "00") (retain is_phone_char raw))) [
      | inl e ↦
          rw (e, normalize_phone)
            (refl, All-drop (λ c. is_phone_char c ≡ true) 2 (retain is_phone_char raw) passes)
      | inr e ↦ rw (e, normalize_phone) passes
    ]

phone_char-IsInline : (c : ℕ) → is_phone_char c ≡ true → IsInline c
phone_char-IsInline c h = ground arith

phone_char-bar : (c : ℕ) → is_phone_char c ≡ true → c == 0x7C ≡ false
phone_char-bar c h = ground arith

sentinel-IsInline : All IsInline send_sentinel
sentinel-IsInline = ground arith

module _ (locale : Locale) where
  abbrev pub shown : Text → Text → ℕ → Text
  unfolding char_prefix
  shown phone body parts =
      locale.send_queued phone (char_prefix body 50).0 (char_prefix body 50).1 parts

  send_reply-lines :
      (phone body : Text) (parts : ℕ)
      → All (λ c. is_phone_char c ≡ true) phone
      → lines (send_reply locale phone body parts)
        ≡ (send_sentinel ++ (phone ++ (0x7C ∷ encoded_sentinel_body body)))
          ∷ lines (shown phone body parts)
  unfolding send_reply
  send_reply-lines phone body parts h =
      let tail = 0x0A ∷ shown phone body parts in
      let encoded = 0x7C ∷ encoded_sentinel_body body in
      let inline : All IsInline (phone ++ encoded) =
        All-append IsInline phone encoded (All-map phone_char-IsInline phone h)
          ((omega arith, omega arith), encoded_sentinel_body-IsInline body) in
      let split_up : send_reply locale phone body parts
          ≡ (send_sentinel ++ (phone ++ encoded)) ++ tail =
        ap (λ s. send_sentinel ++ s) (sym (append_assoc phone encoded tail)) in
      rw split_up (
        lines-append (send_sentinel ++ (phone ++ encoded)) (shown phone body parts)
          (All-append IsInline send_sentinel (phone ++ encoded) sentinel-IsInline inline))

  -- A reply of /send that asks for no effect.
  abbrev pub IsRefusal : Text → Type 0
  IsRefusal reply =
      (reply ≡ locale.send_usage)
      ⊎ ((reply ≡ locale.send_invalid_number)
          ⊎ ((reply ≡ locale.send_empty_body) ⊎ (reply ≡ locale.send_too_long)))

  -- What /send accepts.
  abbrev pub IsAccepted : Text → Text → Type 0
  IsAccepted phone body =
      (is_valid_sms_destination phone ≡ true)
      × (length body == 0 ≡ false)
      × (count_sms_parts body max_sms_parts == 0 ≡ false)

  send_to-cases :
      (phone_raw body_raw : Text)
      → IsRefusal (send_to locale phone_raw body_raw)
        ⊎ (IsAccepted (normalize_phone phone_raw) (trim body_raw)
            × (send_to locale phone_raw body_raw
                ≡ send_reply locale
                    (normalize_phone phone_raw)
                    (trim body_raw)
                    (count_sms_parts (trim body_raw) max_sms_parts)))
  unfolding send_to send_counted
  send_to-cases phone_raw body_raw =
      elim (Bool-cases (not (all is_number_byte (bytes phone_raw)))) [
        | inl e ↦ rw (e, send_to) (inl (inr (inl refl)))
        | inr e ↦ elim (Bool-cases (is_valid_sms_destination (normalize_phone phone_raw))) [
          | inr f ↦ rw (e, f, send_to) (inl (inr (inl refl)))
          | inl f ↦ elim (Bool-cases (length (trim body_raw) == 0)) [
            | inl g ↦ rw (e, f, g, send_to) (inl (inr (inr (inl refl))))
            | inr g ↦ elim (Bool-cases (count_sms_parts (trim body_raw) max_sms_parts == 0)) [
              | inl k ↦ rw (e, f, g, k, send_to) (inl (inr (inr (inr refl))))
              | inr k ↦ rw (e, f, g, k, send_to) (inr ((refl, refl, refl), refl))
            ]
          ]
        ]
      ]

module _ {ℓ} {M L S : Type ℓ} (services : Services M L S) (now : ℕ) (store_error : S → Text)
    (sender : SmsSender) (store : S) where
  -- `enqueue_command_send` is called, and then the lines for the user are worked through.
  abbrev pub queue_and_show : Text → Text → Applied S
  queue_and_show phone body =
      apply_lines services now store_error
        (after_enqueue services now store_error phone body
          (unapplied services now store_error sender store)
          (enqueue_command_send now sender phone body))
        (lines (shown services.locale phone body (count_sms_parts body max_sms_parts)))

  apply_send-send :
      (phone body : Text)
      → All (λ c. is_phone_char c ≡ true) phone
      → apply_send services now store_error
          (phone ++ (0x7C ∷ encoded_sentinel_body body))
          (unapplied services now store_error sender store)
        ≡ after_enqueue services now store_error phone body
            (unapplied services now store_error sender store)
            (enqueue_command_send now sender phone body)
  unfolding apply_send
  apply_send-send phone body h =
      rw
        (
          apply_send,
          split_once-append (λ c. c == 0x7C) phone 0x7C (encoded_sentinel_body body)
              (All-map phone_char-bar phone h) refl,
          decode_sentinel_body-encoded_sentinel_body body,
        )
        refl

  apply_line-send :
      (phone body : Text)
      → All (λ c. is_phone_char c ≡ true) phone
      → apply_line services now store_error
          (unapplied services now store_error sender store)
          (send_sentinel ++ (phone ++ (0x7C ∷ encoded_sentinel_body body)))
        ≡ after_enqueue services now store_error phone body
            (unapplied services now store_error sender store)
            (enqueue_command_send now sender phone body)
  unfolding apply_line
  apply_line-send phone body h = after_prefix ∙ apply_send-send phone body h
    where
      after_prefix :
          apply_line services now store_error
            (unapplied services now store_error sender store)
            (send_sentinel ++ (phone ++ (0x7C ∷ encoded_sentinel_body body)))
          ≡ apply_send services now store_error
              (phone ++ (0x7C ∷ encoded_sentinel_body body))
              (unapplied services now store_error sender store)
      after_prefix = refl

  apply_sentinels-send_reply :
      (phone body : Text)
      → All (λ c. is_phone_char c ≡ true) phone
      → apply_sentinels services now store_error
          (send_reply services.locale phone body (count_sms_parts body max_sms_parts))
          sender
          store
        ≡ queue_and_show phone body
  unfolding apply_sentinels apply_lines
  apply_sentinels-send_reply phone body h =
      ap (apply_lines services now store_error (unapplied services now store_error sender store))
        (send_reply-lines services.locale phone body (count_sms_parts body max_sms_parts) h)
      ∙ ap
          (λ a.
            apply_lines services now store_error a
              (lines (shown services.locale phone body (count_sms_parts body max_sms_parts))))
          (apply_line-send phone body h)

  -- For any arguments, /send either refuses, or they are a number and a message that is accepted, and
  -- then the first line of the reply makes the poller call `enqueue_command_send` with the number's
  -- normal form and the message, and the lines for the user are worked through after it.
  pub apply_sentinels-send :
      (args : Text)
      → IsRefusal services.locale (send services.locale args)
        ⊎ ((phone_raw : Text) × (body_raw : Text) × (split_once is_whitespace (trim args)
              ≡ some (phone_raw, body_raw))
            × IsAccepted services.locale (normalize_phone phone_raw) (trim body_raw)
            × (apply_sentinels services now store_error (send services.locale args) sender store
                ≡ queue_and_show (normalize_phone phone_raw) (trim body_raw)))
  unfolding send
  apply_sentinels-send args = elim (Option-cases (split_once is_whitespace (trim args))) [
    | inl e ↦ rw (e, send) (inl (inl refl))
    | inr ((phone_raw, body_raw), e) ↦ elim (send_to-cases services.locale phone_raw body_raw) [
      | inl r ↦ rw (e, send) (inl r)
      | inr (a, q) ↦ inr (
        phone_raw,
        body_raw,
        e,
        a,
        rw (e, q, send)
            (apply_sentinels-send_reply (normalize_phone phone_raw) (trim body_raw)
              (normalize_phone-Passes phone_raw)),
      )
    ]
  ]
