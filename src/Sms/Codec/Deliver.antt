-- ===== src/Sms/Codec/Deliver.antt =====
-- `parse_sms_pdu` of src/sms/codec.rs: an SMS-DELIVER PDU from hex. The parser's parts follow each
-- other as in the function; `p` is the position in the buffer.
pub mod Total
use smsgate.Base.{
  ℕ, zero, suc, ◌+◌, ◌-◌, ◌*◌, ◌/◌, ◌%◌, bit_or, bit_and, ltb, leb, ◌==◌, not, ◌&&◌, if◌then◌else◌,
  Bool, true, false, List, [], ◌∷◌, ◌++◌, Option, none, some, Text, length, take, drop,
}
use smsgate.Sms.Pdu.{SmsPdu}
use smsgate.Sms.Codec.Result.{
  Result, ok, err, panic, ◌>>=◌, ◌>>◌, fail_if, or_malformed, byte_at, slice,
}
use smsgate.Sms.Codec.Hex.{hex_to_bytes}
use smsgate.Sms.Codec.Septets.{unpack_septets, div_ceil}
use smsgate.Sms.Codec.Gsm7.{gsm7_septets_to_utf8}
use smsgate.Sms.Codec.Ucs2.{ucs2_bytes_to_utf8}
use smsgate.Sms.Codec.Phone.{decode_bcd_address}
use smsgate.Sms.Codec.Scts.{decode_scts}

pub data Alpha : Type 0 where
  gsm7 eight ucs2 : Alpha

abbrev pub is_gsm7 : Alpha → Bool
is_gsm7 gsm7 = true
is_gsm7 eight = false
is_gsm7 ucs2 = false

-- `(dcs >> 2) & 0x03` in the general group.
abbrev pub general_alpha : ℕ → Alpha
general_alpha bits = if bits == 1 then eight else if bits == 2 then ucs2 else gsm7

unfoldable pub alpha_of : ℕ → Alpha
alpha_of dcs =
    if bit_and dcs 0xC0 == 0
    then general_alpha (bit_and (dcs / 4) 0x03)
    else if bit_and dcs 0xF0 == 0xF0
    then (if not (bit_and dcs 0x04 == 0) then eight else gsm7)
    else if bit_and dcs 0xF0 == 0xE0
    then ucs2
    else gsm7

-- The sender of `oa_bytes` bytes and `oa_digits` digits.
unfoldable pub sender_of : List ℕ → ℕ → ℕ → Text
sender_of address oa_digits oa_toa =
    if bit_and oa_toa 0x70 == 0x50
    then gsm7_septets_to_utf8 (unpack_septets address (length address * 8 / 7) 0)
    else let digits = decode_bcd_address address (length address) oa_digits in
      if bit_and oa_toa 0x70 == 0x10 then 0x2B ∷ digits else digits

-- What the information elements of a header set.
pub record Elements : Type 0 where
  pub destination_port : Option ℕ
  pub source_port : Option ℕ
  pub is_concatenated : Bool
  pub concat_ref : ℕ
  pub concat_total : ℕ
  pub concat_part : ℕ

abbrev pub no_elements : Elements
no_elements = record {
  destination_port = none;
  source_port = none;
  is_concatenated = false;
  concat_ref = 0;
  concat_total = 0;
  concat_part = 0;
}

abbrev pub u16 : ℕ → ℕ → ℕ
u16 hi lo = bit_or (hi * 256) lo

unfoldable pub read_ports8 : List ℕ → ℕ → Elements → Result Elements
read_ports8 buf ie e = do
  d ← byte_at buf ie
  s ← byte_at buf (ie + 1)
  ok (record e { destination_port = some d; source_port = some s })

unfoldable pub read_ports16 : List ℕ → ℕ → Elements → Result Elements
read_ports16 buf ie e = do
  d1 ← byte_at buf ie
  d0 ← byte_at buf (ie + 1)
  s1 ← byte_at buf (ie + 2)
  s0 ← byte_at buf (ie + 3)
  ok (record e { destination_port = some (u16 d1 d0); source_port = some (u16 s1 s0) })

unfoldable pub read_concat8 : List ℕ → ℕ → Elements → Result Elements
read_concat8 buf ie e = do
  r ← byte_at buf ie
  t ← byte_at buf (ie + 1)
  n ← byte_at buf (ie + 2)
  ok (record e { is_concatenated = true; concat_ref = r; concat_total = t; concat_part = n })

unfoldable pub read_concat16 : List ℕ → ℕ → Elements → Result Elements
read_concat16 buf ie e = do
  r1 ← byte_at buf ie
  r0 ← byte_at buf (ie + 1)
  t ← byte_at buf (ie + 2)
  n ← byte_at buf (ie + 3)
  ok (record e {
    is_concatenated = true;
    concat_ref = u16 r1 r0;
    concat_total = t;
    concat_part = n;
  })

-- One element, whose content starts at `ie`.
unfoldable pub read_element : List ℕ → ℕ → ℕ → ℕ → Elements → Result Elements
read_element buf ie iei iedl e =
    if iei == 0x04 && iedl == 2
    then read_ports8 buf ie e
    else if iei == 0x05 && iedl == 4
    then read_ports16 buf ie e
    else if iei == 0x00 && iedl == 3
    then read_concat8 buf ie e
    else if iei == 0x08 && iedl == 4
    then read_concat16 buf ie e
    else ok e

-- The element at `ie` if it ends before `ie_end`, and then `next` behind it.
unfoldable pub element_step :
    (ℕ → Elements → Result Elements) → List ℕ → ℕ → ℕ → Elements → Result Elements
element_step next buf ie ie_end e = do
  iei ← byte_at buf ie
  iedl ← byte_at buf (ie + 1)
  if ltb ie_end (ie + 2 + iedl)
      then ok e
      else read_element buf (ie + 2) iei iedl e >>= next (ie + 2 + iedl)

-- The `while` over the elements; each takes two bytes at least, so `ie_end` rounds are enough.
unfoldable pub read_elements : ℕ → List ℕ → ℕ → ℕ → Elements → Result Elements
read_elements zero buf ie ie_end e = ok e
read_elements (suc fuel) buf ie ie_end e =
    if ltb (ie + 1) ie_end
    then element_step (λ ie' e'. read_elements fuel buf ie' ie_end e') buf ie ie_end e
    else ok e

-- The header's bytes with its length byte, and its elements.
unfoldable pub read_header : List ℕ → ℕ → ℕ → Bool → Result (ℕ × Elements)
read_header buf p ud_bytes false = ok (0, no_elements)
read_header buf p ud_bytes true = do
  fail_if (ltb ud_bytes 1) "UDH missing UDHL"
  udhl ← byte_at buf p
  let udh_total = udhl + 1
  fail_if (ltb ud_bytes udh_total) "UDH too long"
  e ← read_elements (p + udh_total) buf (p + 1) (p + udh_total) no_elements
  ok (udh_total, e)

-- The text of the body, of `udl` septets or bytes with the header.
unfoldable pub read_content : Alpha → List ℕ → ℕ → ℕ → ℕ → ℕ → Bool → Result Text
read_content gsm7 buf p ud_bytes udl udh_total true = do
  let udh_bits = udh_total * 8
  let fill = (7 - udh_bits % 7) % 7
  let header_septets = (udh_bits + fill) / 7
  fail_if (ltb udl header_septets) "UDH header septets > UDL"
  ud ← slice buf p (p + ud_bytes)
  ok (gsm7_septets_to_utf8 (unpack_septets ud (udl - header_septets) (udh_bits + fill)))
read_content gsm7 buf p ud_bytes udl udh_total false = do
  ud ← slice buf p (p + ud_bytes)
  ok (gsm7_septets_to_utf8 (unpack_septets ud udl 0))
read_content ucs2 buf p ud_bytes udl udh_total udhi = do
  fail_if (ltb ud_bytes udh_total) "UDH > UCS2 body"
  body ← slice buf (p + udh_total) (p + ud_bytes)
  ok (ucs2_bytes_to_utf8 body)
read_content eight buf p ud_bytes udl udh_total udhi = do
  fail_if (ltb ud_bytes udh_total) "UDH > 8bit body"
  slice buf (p + udh_total) (p + ud_bytes)

-- From the user data on, at `p`.
unfoldable pub read_user_data : List ℕ → ℕ → Bool → Text → Text → ℕ → ℕ → Result SmsPdu
read_user_data buf p udhi sender timestamp dcs udl = do
  let alpha = alpha_of dcs
  let ud_remaining = length buf - p
  fail_if (not (is_gsm7 alpha) && ltb ud_remaining udl) "UDL > remaining"
  let ud_bytes = if is_gsm7 alpha then ud_remaining else udl
  (udh_total, e) ← read_header buf p ud_bytes udhi
  header ← slice buf p (p + udh_total)
  fail_if (ltb ud_bytes udh_total) "UDH > body"
  payload ← slice buf (p + udh_total) (p + ud_bytes)
  content ← read_content alpha buf p ud_bytes udl udh_total udhi
  ok (record {
    sender = sender;
    timestamp = timestamp;
    content = content;
    dcs = dcs;
    user_data_header = header;
    user_data_payload = payload;
    destination_port = e.destination_port;
    source_port = e.source_port;
    is_concatenated = e.is_concatenated;
    concat_ref = e.concat_ref;
    concat_total = e.concat_total;
    concat_part = e.concat_part;
  })

-- From TP-PID on, at `p`.
unfoldable pub read_body : List ℕ → ℕ → Bool → Text → Result SmsPdu
read_body buf p udhi sender = do
  let n = length buf
  fail_if (leb n p) "truncated before PID"
  fail_if (leb n (p + 1)) "truncated before DCS"
  dcs ← byte_at buf (p + 1)
  fail_if (ltb n (p + 2 + 7)) "truncated before SCTS"
  scts ← slice buf (p + 2) (p + 2 + 7)
  fail_if (leb n (p + 9)) "truncated before UDL"
  udl ← byte_at buf (p + 9)
  read_user_data buf (p + 10) udhi sender (decode_scts scts) dcs udl

-- From the first octet on, at `p`.
unfoldable pub read_tpdu : List ℕ → ℕ → Result SmsPdu
read_tpdu buf p = do
  let n = length buf
  fail_if (leb n p) "truncated before first octet"
  first_octet ← byte_at buf p
  fail_if (leb n (p + 1)) "truncated before OA"
  oa_digits ← byte_at buf (p + 1)
  fail_if (leb n (p + 2)) "truncated before OA TOA"
  oa_toa ← byte_at buf (p + 2)
  let oa_bytes = div_ceil oa_digits 2
  fail_if (ltb n (p + 3 + oa_bytes)) "OA bytes truncated"
  address ← slice buf (p + 3) (p + 3 + oa_bytes)
  read_body buf (p + 3 + oa_bytes) (not (bit_and first_octet 0x40 == 0))
      (sender_of address oa_digits oa_toa)

unfoldable pub parse_bytes : List ℕ → Result SmsPdu
parse_bytes buf = do
  fail_if (leb (length buf) 0) "truncated before SCA"
  sca_len ← byte_at buf 0
  fail_if (ltb (length buf) (1 + sca_len)) "SCA too long"
  read_tpdu buf (1 + sca_len)

unfoldable pub parse_sms_pdu : Text → Result SmsPdu
parse_sms_pdu hex_pdu = do buf ← or_malformed (hex_to_bytes hex_pdu) "invalid hex"; parse_bytes buf
