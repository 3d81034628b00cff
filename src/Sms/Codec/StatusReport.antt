-- ===== src/Sms/Codec/StatusReport.antt =====
-- Delivery reports: `parse_status_report` of src/sms/codec.rs and its texts.
pub mod Total
use smsgate.Base.{
  ℕ, ◌+◌, ◌/◌, ◌%◌, bit_and, ltb, leb, ◌==◌, in_range, not, if◌then◌else◌, Bool, List, [], ◌∷◌,
  ◌++◌, Text, codes, length,
}
use Prim.Native.Nat.{◌-◌}
use smsgate.Sms.Codec.Result.{Result, ok, ◌>>=◌, ◌>>◌, fail_if, or_malformed, byte_at, slice}
use smsgate.Sms.Codec.Hex.{hex_to_bytes}
use smsgate.Sms.Codec.Septets.{div_ceil}
use smsgate.Sms.Codec.Scts.{decode_scts}

pub record StatusReport : Type 0 where
  pub message_ref : ℕ
  pub recipient : Text
  pub sc_timestamp : Text
  pub discharge_time : Text
  pub status : ℕ
  pub delivered : Bool
  pub status_text : Text

abbrev lower_digit : ℕ → ℕ
lower_digit n = if ltb n 10 then 0x30 + n else 0x57 + n

-- `{:#04x}` of a byte.
unfoldable pub hex_code : ℕ → Text
hex_code st = 0x30 ∷ 0x78 ∷ lower_digit (st / 16) ∷ lower_digit (st % 16) ∷ []

unfoldable pub with_code : Text → ℕ → Text
unfolding hex_code
with_code text st = text ++ (codes " (" ++ (hex_code st ++ codes ")"))

unfoldable pub sr_status_text : ℕ → Text
unfolding with_code hex_code
sr_status_text st =
    if st == 0x00
    then codes "delivered"
    else if st == 0x01
    then codes "forwarded, unconfirmed"
    else if st == 0x02
    then codes "replaced"
    else if st == 0x20
    then codes "temporary failure, still trying (congestion)"
    else if st == 0x21
    then codes "temporary failure, still trying (SME busy)"
    else if in_range 0x20 0x2F st
    then with_code (codes "temporary failure, still trying") st
    else if st == 0x40
    then codes "permanent failure (remote procedure error)"
    else if st == 0x41
    then codes "permanent failure (incompatible destination)"
    else if in_range 0x40 0x4F st
    then with_code (codes "permanent failure") st
    else if st == 0x60
    then codes "temporary failure, stopped trying (congestion)"
    else if in_range 0x60 0x6F st
    then with_code (codes "temporary failure, stopped trying") st
    else codes "unknown status " ++ hex_code st

-- The digits of the bytes, `left` of them; a half above 9 gives the character behind the digits.
unfoldable pub recipient_digits : List ℕ → ℕ → Text
recipient_digits [] left = []
recipient_digits (b ∷ bs) left =
    let rest = recipient_digits bs (left - 2) in
    (0x30 + bit_and b 0x0F) ∷ (if ltb 1 left then (0x30 + bit_and (b / 16) 0x0F) ∷ rest else rest)

-- From the two time stamps on, at `p`.
unfoldable pub read_discharge : List ℕ → ℕ → ℕ → Text → Result StatusReport
read_discharge raw p message_ref recipient = do
  fail_if (ltb (length raw) (p + 14)) "SR timestamps truncated"
  sc ← slice raw p (p + 7)
  discharge ← slice raw (p + 7) (p + 14)
  fail_if (leb (length raw) (p + 14)) "SR status byte missing"
  status ← byte_at raw (p + 14)
  ok (record {
    message_ref = message_ref;
    recipient = recipient;
    sc_timestamp = decode_scts sc;
    discharge_time = decode_scts discharge;
    status = status;
    delivered = status == 0x00;
    status_text = sr_status_text status;
  })

-- From the first octet on, at `p`.
unfoldable pub read_report : List ℕ → ℕ → Result StatusReport
read_report raw p = do
  let n = length raw
  fail_if (leb n p) "truncated SR first octet"
  first ← byte_at raw p
  fail_if (not (bit_and first 0x03 == 0x02)) "not a STATUS-REPORT"
  fail_if (leb n (p + 1)) "truncated SR MR"
  message_ref ← byte_at raw (p + 1)
  fail_if (leb n (p + 2 + 1)) "truncated SR RA"
  ra_digits ← byte_at raw (p + 2)
  ra_toa ← byte_at raw (p + 3)
  let ra_bytes = div_ceil ra_digits 2
  fail_if (ltb n (p + 4 + ra_bytes)) "SR RA bytes truncated"
  address ← slice raw (p + 4) (p + 4 + ra_bytes)
  let digits = recipient_digits address ra_digits
  read_discharge raw (p + 4 + ra_bytes) message_ref
      (if bit_and ra_toa 0x70 == 0x10 then 0x2B ∷ digits else digits)

unfoldable pub report_of : List ℕ → Result StatusReport
report_of raw = do
  fail_if (leb (length raw) 0) "empty status report"
  sca_len ← byte_at raw 0
  read_report raw (1 + sca_len)

unfoldable pub parse_status_report : Text → Result StatusReport
parse_status_report hex_pdu = do
  raw ← or_malformed (hex_to_bytes hex_pdu) "invalid hex in status report"
  report_of raw
