-- ===== src/Sms/Codec/StatusReport/Total.antt =====
-- The reads and slices of `parse_status_report` of src/sms/codec.rs.
use smsgate.Base.{
  ℕ, ◌+◌, ◌≢◌, inl, inr, ltb, leb, ◌==◌, not, Option-cases, List, Text, length, bit_and, arith,
}
use smsgate.Sms.Codec.Result.{panic}
use smsgate.Sms.Codec.Safe.{Safe, safe_ok, Any, Safe-ne-panic, after_guard, after_read, after_slice}
use smsgate.Sms.Codec.Hex.{hex_to_bytes}
use smsgate.Sms.Codec.Septets.{div_ceil}
use smsgate.Sms.Codec.StatusReport.{read_discharge, read_report, report_of, parse_status_report}

read_discharge-Safe :
    (raw : List ℕ) (p message_ref : ℕ) (recipient : Text)
    → Safe Any (read_discharge raw p message_ref recipient)
unfolding read_discharge
read_discharge-Safe raw p message_ref recipient =
    after_guard Any (ltb (length raw) (p + 14)) _ _ λ a.
      after_slice Any raw p (p + 7) _ (omega arith) (ground arith) λ sc.
        after_slice Any raw (p + 7) (p + 14) _ (omega arith) (ground arith) λ discharge.
          after_guard Any (leb (length raw) (p + 14)) _ _
            λ b. after_read Any raw (p + 14) _ (ground arith) λ status. safe_ok _ tt

read_report-Safe : (raw : List ℕ) (p : ℕ) → Safe Any (read_report raw p)
unfolding read_report
read_report-Safe raw p = after_guard Any (leb (length raw) p) _ _ λ a.
    after_read Any raw p _ (ground arith) λ first.
      after_guard Any (not (bit_and first 0x03 == 0x02)) _ _ λ b.
        after_guard Any (leb (length raw) (p + 1)) _ _ λ c.
          after_read Any raw (p + 1) _ (ground arith) λ message_ref.
            after_guard Any (leb (length raw) (p + 2 + 1)) _ _ λ d.
              after_read Any raw (p + 2) _ (ground arith) λ ra_digits.
                after_read Any raw (p + 3) _ (ground arith) λ ra_toa.
                  after_guard Any (ltb (length raw) (p + 4 + div_ceil ra_digits 2)) _ _ λ e.
                    after_slice Any raw (p + 4) (p + 4 + div_ceil ra_digits 2) _ (omega arith)
                      (ground arith) λ address. read_discharge-Safe raw _ message_ref _

report_of-Safe : (raw : List ℕ) → Safe Any (report_of raw)
unfolding report_of
report_of-Safe raw =
    after_guard Any (leb (length raw) 0) _ _
      λ a. after_read Any raw 0 _ (ground arith) λ sca_len. read_report-Safe raw (1 + sca_len)

-- Whatever text arrives, the parser of delivery reports gives a report or an error: no read and no
-- slice of it is out of range.
pub parse_status_report-ne-panic : (hex_pdu : Text) → parse_status_report hex_pdu ≢ panic
unfolding parse_status_report
parse_status_report-ne-panic hex_pdu = elim (Option-cases (hex_to_bytes hex_pdu)) [
  | inl e ↦ rw e (λ q. cc)
  | inr (raw, e) ↦ rw e (Safe-ne-panic Any (report_of raw) (report_of-Safe raw))
]
