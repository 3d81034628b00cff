-- ===== src/Tests/Reports.antt =====
-- Delivery reports, call notices, time stamps and part counts at concrete inputs.
use smsgate.Base.{
  ◌≡◌, ◌≢◌, ◌+◌, refl, ◌∷◌, ◌++◌, some, Text, codes, bytes, length, encode_utf8, replicate, any,
  false, arith,
}
use smsgate.Sms.Codec.Result.{panic}
use smsgate.Sms.Codec.Gsm7.Tables.{encode_gsm7_char}
use smsgate.Sms.Codec.Submit.{build_sms_submit_pdus}
use smsgate.Sms.Codec.Parts.{count_sms_parts}
use smsgate.Sms.Codec.Clip.{parse_clip_line}
use smsgate.Sms.Codec.StatusReport.{parse_status_report}
use smsgate.Sms.Codec.StatusReport.Total.{parse_status_report-ne-panic}
use smsgate.Sms.Codec.Unix.{max_day, days, pdu_timestamp_to_unix}
use smsgate.Sms.Codec.Unix.Zone.{pdu_timestamp_to_unix-bare}
use smsgate.Sms.Codec.Unix.Calendar.{Date, IsDate, next_day, days-next_day}

parse_status_report-ne-panic_example : parse_status_report (codes "0006") ≢ panic
parse_status_report-ne-panic_example = parse_status_report-ne-panic (codes "0006")

clip_number : parse_clip_line (codes "+CLIP: \"555\",145") ≡ some (codes "555")
unfolding parse_clip_line smsgate.Base.text_eq
clip_number = refl

-- The last day of a year.
abbrev new_years_eve : Date
new_years_eve = record { year = 2024; month = 12; day = 31 }

new_years_eve-IsDate : IsDate new_years_eve
unfolding max_day
new_years_eve-IsDate = record {
  from_1970 = omega arith;
  month_pos = omega arith;
  month_le = omega arith;
  day_pos = omega arith;
  day_le = omega arith;
}

days-next_day_example : days 2025 1 1 ≡ days 2024 12 31 + 1
unfolding next_day max_day
days-next_day_example = days-next_day new_years_eve new_years_eve-IsDate

-- The time stamps of the crate's own tests.
unix_2000 : pdu_timestamp_to_unix (codes "00/01/01,00:00:00+00") ≡ 946684800
unfolding pdu_timestamp_to_unix encode_utf8
unix_2000 = refl

unix_zone : pdu_timestamp_to_unix (codes "24/01/01,08:00:00+32") ≡ 1704067200
unfolding pdu_timestamp_to_unix encode_utf8
unix_zone = refl

-- A body whose escape pair stands across the end of a part.
abbrev straddling : Text
straddling = replicate 151 0x61 ++ (0x5B ∷ replicate 153 0x61)

counted_parts : count_sms_parts straddling 10 ≡ 2
unfolding count_sms_parts encode_gsm7_char
counted_parts = refl

built_parts :
    length
      (build_sms_submit_pdus
        (record { gsm7_ref = 0; ucs2_ref = 0 })
        (codes "+4915")
        straddling
        10
        false).1
    ≡ 3
unfolding build_sms_submit_pdus encode_gsm7_char encode_utf8
built_parts = refl

pdu_timestamp_to_unix-bare_example : pdu_timestamp_to_unix (codes "24/01/01,00:00:00") ≡ 0
unfolding bytes encode_utf8
pdu_timestamp_to_unix-bare_example = pdu_timestamp_to_unix-bare (codes "24/01/01,00:00:00") refl
