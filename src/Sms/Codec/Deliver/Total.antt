-- ===== src/Sms/Codec/Deliver/Total.antt =====
-- The reads and slices of `parse_sms_pdu` of src/sms/codec.rs.
use smsgate.Base.{
  ℕ, zero, suc, ◌+◌, ◌-◌, ◌*◌, ◌/◌, ◌%◌, ◌≤◌, ◌≡◌, ◌≢◌, inl, inr, ltb, leb, ◌==◌, ◌&&◌, not,
  if◌then◌else◌, Bool-cases, Option-cases, Bool, true, false, List, Text, length, arith,
}
use smsgate.Sms.Codec.Result.{panic}
use smsgate.Sms.Codec.Safe.{
  Safe, safe_ok, Safe-bind, Any, Safe-ne-panic, after_guard, after_read, after_slice, slice-Safe,
}
use smsgate.Sms.Codec.Scts.{decode_scts}
use smsgate.Sms.Codec.Septets.{div_ceil}
use smsgate.Sms.Codec.Hex.{hex_to_bytes}
use smsgate.Sms.Codec.Deliver.{
  Alpha, is_gsm7, alpha_of, no_elements, gsm7, eight, ucs2, Elements, read_element, read_ports8,
  read_ports16, read_concat8, read_concat16, element_step, read_elements, read_header, read_content,
  read_user_data, read_body, read_tpdu, parse_bytes, parse_sms_pdu,
}

read_element-Safe :
    (buf : List ℕ) (ie iei iedl : ℕ) (e : Elements)
    → ie + iedl ≤ length buf
    → Safe Any (read_element buf ie iei iedl e)
unfolding read_element read_ports8 read_ports16 read_concat8 read_concat16
read_element-Safe buf ie iei iedl e h = elim (Bool-cases (iei == 0x04 && iedl == 2)) [
  | inl a ↦ rw a (
      after_read Any buf ie _ (ground arith)
        λ d. after_read Any buf (ie + 1) _ (ground arith) λ s. safe_ok _ tt)
  | inr a ↦ elim (Bool-cases (iei == 0x05 && iedl == 4)) [
    | inl b ↦
        rw (a, b)
          (after_read Any buf ie _ (ground arith) λ d1.
            after_read Any buf (ie + 1) _ (ground arith) λ d0.
              after_read Any buf (ie + 2) _ (ground arith)
                λ s1. after_read Any buf (ie + 3) _ (ground arith) λ s0. safe_ok _ tt)
    | inr b ↦ elim (Bool-cases (iei == 0x00 && iedl == 3)) [
      | inl c ↦
          rw (a, b, c)
            (after_read Any buf ie _ (ground arith) λ r.
              after_read Any buf (ie + 1) _ (ground arith)
                λ t. after_read Any buf (ie + 2) _ (ground arith) λ n. safe_ok _ tt)
      | inr c ↦ elim (Bool-cases (iei == 0x08 && iedl == 4)) [
        | inl d ↦
            rw (a, b, c, d)
              (after_read Any buf ie _ (ground arith) λ r1.
                after_read Any buf (ie + 1) _ (ground arith) λ r0.
                  after_read Any buf (ie + 2) _ (ground arith)
                    λ t. after_read Any buf (ie + 3) _ (ground arith) λ n. safe_ok _ tt)
        | inr d ↦ rw (a, b, c, d) (safe_ok e tt)
      ]
    ]
  ]
]

read_elements-Safe :
    (fuel : ℕ) (buf : List ℕ) (ie ie_end : ℕ) (e : Elements)
    → ie_end ≤ length buf
    → Safe Any (read_elements fuel buf ie ie_end e)
unfolding read_elements element_step
read_elements-Safe zero buf ie ie_end e h = safe_ok e tt
read_elements-Safe (suc fuel) buf ie ie_end e h = elim (Bool-cases (ltb (ie + 1) ie_end)) [
  | inr a ↦ rw a (safe_ok e tt)
  | inl a ↦ rw a (
      after_read Any buf ie _ (ground arith) λ iei.
        after_read Any buf (ie + 1) _ (ground arith) λ iedl.
          elim (Bool-cases (ltb ie_end (ie + 2 + iedl))) [
            | inl b ↦ rw b (safe_ok e tt)
            | inr b ↦ rw b (
                Safe-bind Any Any (read_element buf (ie + 2) iei iedl e) _
                  (read_element-Safe buf (ie + 2) iei iedl e (ground arith))
                  (λ e' _. read_elements-Safe fuel buf (ie + 2 + iedl) ie_end e' h))
          ])
]

-- The header lies within the user data.
read_header-Safe :
    (buf : List ℕ) (p ud_bytes : ℕ) (udhi : Bool)
    → p + ud_bytes ≤ length buf
    → Safe (λ r. r.0 ≤ ud_bytes) (read_header buf p ud_bytes udhi)
unfolding read_header
read_header-Safe buf p ud_bytes false h = safe_ok _ (omega arith)
read_header-Safe buf p ud_bytes true h = after_guard Within (ltb ud_bytes 1) _ _ λ a.
    after_read Within buf p _ (ground arith) λ udhl.
      after_guard Within (ltb ud_bytes (udhl + 1)) _ _ λ b.
        Safe-bind Any Within
          (read_elements (p + (udhl + 1)) buf (p + 1) (p + (udhl + 1)) no_elements) _
          (read_elements-Safe (p + (udhl + 1)) buf (p + 1) (p + (udhl + 1)) no_elements
            (ground arith))
          (λ e _. safe_ok _ (ground arith))
  where
    Within : ℕ × Elements → Type 0
    Within r = r.0 ≤ ud_bytes

read_content-Safe :
    (alpha : Alpha) (buf : List ℕ) (p ud_bytes udl udh_total : ℕ) (udhi : Bool)
    → p + ud_bytes ≤ length buf
    → udh_total ≤ ud_bytes
    → Safe Any (read_content alpha buf p ud_bytes udl udh_total udhi)
unfolding read_content
read_content-Safe gsm7 buf p ud_bytes udl udh_total true h k =
    after_guard Any (ltb udl ((udh_total * 8 + (7 - udh_total * 8 % 7) % 7) / 7))
      "UDH header septets > UDL" _
      λ a. after_slice Any buf p (p + ud_bytes) _ (omega arith) h λ ud. safe_ok _ tt
read_content-Safe gsm7 buf p ud_bytes udl udh_total false h k =
    after_slice Any buf p (p + ud_bytes) _ (omega arith) h λ ud. safe_ok _ tt
read_content-Safe ucs2 buf p ud_bytes udl udh_total udhi h k =
    after_guard Any (ltb ud_bytes udh_total) "UDH > UCS2 body" _
      λ a. after_slice Any buf (p + udh_total) (p + ud_bytes) _ (omega arith) h λ body. safe_ok _ tt
read_content-Safe eight buf p ud_bytes udl udh_total udhi h k =
    after_guard Any (ltb ud_bytes udh_total) "UDH > 8bit body" _
      λ a. slice-Safe buf (p + udh_total) (p + ud_bytes) (omega arith) h

user_data_fits :
    (buf : List ℕ) (p udl : ℕ) (alpha : Alpha)
    → p ≤ length buf
    → (not (is_gsm7 alpha) && ltb (length buf - p) udl) ≡ false
    → p + (if is_gsm7 alpha then length buf - p else udl) ≤ length buf
user_data_fits buf p udl gsm7 h k = omega arith
user_data_fits buf p udl eight h k = ground arith
user_data_fits buf p udl ucs2 h k = ground arith

read_user_data-Safe :
    (buf : List ℕ) (p : ℕ) (udhi : Bool) (sender timestamp : Text) (dcs udl : ℕ)
    → p ≤ length buf
    → Safe Any (read_user_data buf p udhi sender timestamp dcs udl)
unfolding read_user_data
read_user_data-Safe buf p udhi sender timestamp dcs udl h =
    after_guard Any (not (is_gsm7 alpha) && ltb (length buf - p) udl) _ _ λ a.
      let fits = user_data_fits buf p udl alpha h a in
      Safe-bind (λ r. r.0 ≤ ud_bytes) Any (read_header buf p ud_bytes udhi) _
        (read_header-Safe buf p ud_bytes udhi fits)
        λ r k. after_slice Any buf p (p + r.0) _ (omega arith) (omega arith) λ header.
          after_guard Any (ltb ud_bytes r.0) _ _ λ b.
            after_slice Any buf (p + r.0) (p + ud_bytes) _ (omega arith) fits λ payload.
              Safe-bind Any Any (read_content alpha buf p ud_bytes udl r.0 udhi) _
                (read_content-Safe alpha buf p ud_bytes udl r.0 udhi fits k)
                (λ content _. safe_ok _ tt)
  where
    alpha : Alpha
    alpha = alpha_of dcs

    ud_bytes : ℕ
    ud_bytes = if is_gsm7 alpha then length buf - p else udl

read_body-Safe :
    (buf : List ℕ) (p : ℕ) (udhi : Bool) (sender : Text) → Safe Any (read_body buf p udhi sender)
unfolding read_body
read_body-Safe buf p udhi sender = after_guard Any (leb (length buf) p) _ _ λ a.
    after_guard Any (leb (length buf) (p + 1)) _ _ λ b.
      after_read Any buf (p + 1) _ (ground arith) λ dcs.
        after_guard Any (ltb (length buf) (p + 2 + 7)) _ _ λ c.
          after_slice Any buf (p + 2) (p + 2 + 7) _ (omega arith) (ground arith) λ scts.
            after_guard Any (leb (length buf) (p + 9)) _ _ λ d.
              after_read Any buf (p + 9) _ (ground arith) λ udl.
                read_user_data-Safe buf (p + 10) udhi sender (decode_scts scts) dcs udl
                  (ground arith)

read_tpdu-Safe : (buf : List ℕ) (p : ℕ) → Safe Any (read_tpdu buf p)
unfolding read_tpdu
read_tpdu-Safe buf p = after_guard Any (leb (length buf) p) _ _ λ a.
    after_read Any buf p _ (ground arith) λ first_octet.
      after_guard Any (leb (length buf) (p + 1)) _ _ λ b.
        after_read Any buf (p + 1) _ (ground arith) λ oa_digits.
          after_guard Any (leb (length buf) (p + 2)) _ _ λ c.
            after_read Any buf (p + 2) _ (ground arith) λ oa_toa.
              after_guard Any (ltb (length buf) (p + 3 + div_ceil oa_digits 2)) _ _ λ d.
                after_slice Any buf (p + 3) (p + 3 + div_ceil oa_digits 2) _ (omega arith)
                  (ground arith) λ address. read_body-Safe buf (p + 3 + div_ceil oa_digits 2) _ _

parse_bytes-Safe : (buf : List ℕ) → Safe Any (parse_bytes buf)
unfolding parse_bytes
parse_bytes-Safe buf = after_guard Any (leb (length buf) 0) _ _ λ a.
    after_read Any buf 0 _ (ground arith) λ sca_len.
      after_guard Any (ltb (length buf) (1 + sca_len)) _ _ λ b. read_tpdu-Safe buf (1 + sca_len)

-- Whatever text arrives from the modem, the parser gives a message or an error: no read and no
-- slice of it is out of range.
pub parse_sms_pdu-ne-panic : (hex_pdu : Text) → parse_sms_pdu hex_pdu ≢ panic
unfolding parse_sms_pdu
parse_sms_pdu-ne-panic hex_pdu = elim (Option-cases (hex_to_bytes hex_pdu)) [
  | inl e ↦ rw e (λ q. cc)
  | inr (buf, e) ↦ rw e (Safe-ne-panic Any (parse_bytes buf) (parse_bytes-Safe buf))
]
