-- ===== src/Tests/Codec.antt =====
-- The codec at concrete inputs.
use smsgate.Base.{
  ◌≡◌, ◌≢◌, refl, [], ◌∷◌, ◌++◌, none, some, Text, codes, bytes, encode_utf8, concat, length, All,
  arith, ◌<◌, ◌≤◌,
}
use smsgate.Sms.Codec.Result.{panic}
use smsgate.Sms.Codec.Hex.{hex_to_bytes, bytes_to_hex}
use smsgate.Sms.Codec.Hex.RoundTrip.{hex_to_bytes-bytes_to_hex}
use smsgate.Sms.Codec.Gsm7.{gsm7_septets_to_utf8, encode_gsm7_body}
use smsgate.Sms.Codec.Gsm7.RoundTrip.{gsm7_septets_to_utf8-encode_gsm7_body}
use smsgate.Sms.Codec.Ucs2.{encode_ucs2_body, ucs2_bytes_to_utf8}
use smsgate.Sms.Codec.Ucs2.RoundTrip.{ucs2_bytes_to_utf8-encode_ucs2_body}
use smsgate.Sms.Codec.Deliver.{parse_sms_pdu}
use smsgate.Sms.Codec.Deliver.Total.{parse_sms_pdu-ne-panic}
use smsgate.Sms.Codec.Submit.{gsm7_chunks, ucs2_chunks}
use smsgate.Sms.Codec.Submit.Chunks.{gsm7_chunks-concat, ucs2_chunks-concat}
use smsgate.Sms.Codec.Phone.{human_readable_phone, normalize_phone}
use smsgate.Sms.Codec.Phone.Laws.{
  human_readable_phone-ascii, human_readable_phone_panics, normalize_phone_idem,
}

hex_to_bytes-bytes_to_hex_example :
    hex_to_bytes (bytes_to_hex (0xAB ∷ 0x07 ∷ [])) ≡ some (0xAB ∷ 0x07 ∷ [])
hex_to_bytes-bytes_to_hex_example = hex_to_bytes-bytes_to_hex (0xAB ∷ 0x07 ∷ []) (omega arith)

gsm7_round_trip_example : gsm7_septets_to_utf8 (0x68 ∷ 0x1B ∷ 0x65 ∷ []) ≡ codes "h€"
unfolding encode_gsm7_body smsgate.Sms.Codec.Gsm7.Tables.encode_gsm7_char
gsm7_round_trip_example =
    gsm7_septets_to_utf8-encode_gsm7_body (codes "h€") (0x68 ∷ 0x1B ∷ 0x65 ∷ []) refl

parse_sms_pdu-ne-panic_example : parse_sms_pdu (codes "0791") ≢ panic
parse_sms_pdu-ne-panic_example = parse_sms_pdu-ne-panic (codes "0791")

gsm7_chunks-concat_example :
    (concat (gsm7_chunks (1 ∷ 2 ∷ [])) ≡ 1 ∷ 2 ∷ [])
    × All (λ chunk. (0 < length chunk) × (length chunk ≤ 153)) (gsm7_chunks (1 ∷ 2 ∷ []))
gsm7_chunks-concat_example = gsm7_chunks-concat (1 ∷ 2 ∷ [])

ucs2_chunks-concat_example :
    (concat (ucs2_chunks (1 ∷ 2 ∷ [])) ≡ 1 ∷ 2 ∷ [])
    × All (λ chunk. (0 < length chunk) × (length chunk ≤ 134)) (ucs2_chunks (1 ∷ 2 ∷ []))
ucs2_chunks-concat_example = ucs2_chunks-concat (1 ∷ 2 ∷ [])

human_readable_phone-ascii_example :
    (shown : Text) × (human_readable_phone (codes "13800138000") ≡ some shown)
human_readable_phone-ascii_example = human_readable_phone-ascii (codes "13800138000") (omega arith)

-- The sender "+86ééééé" and one letter more.
human_readable_phone_panics_example :
    human_readable_phone (codes "+86" ++ (0xE9 ∷ 0xE9 ∷ 0xE9 ∷ 0xE9 ∷ 0xE9 ∷ 0x61 ∷ [])) ≡ none
unfolding bytes encode_utf8
human_readable_phone_panics_example =
    human_readable_phone_panics 0xE9 0xE9 (0xE9 ∷ 0xE9 ∷ 0xE9 ∷ 0x61 ∷ []) (omega arith)
      (omega arith) (omega arith) (omega arith) refl

normalize_phone_idem_example :
    normalize_phone (normalize_phone (codes "0049 15")) ≡ normalize_phone (codes "0049 15")
normalize_phone_idem_example = normalize_phone_idem (codes "0049 15")

-- A letter and a character that takes a pair.
ucs2_round_trip_example :
    ucs2_bytes_to_utf8 (encode_ucs2_body (0x68 ∷ 0x1F600 ∷ [])) ≡ 0x68 ∷ 0x1F600 ∷ []
ucs2_round_trip_example =
    ucs2_bytes_to_utf8-encode_ucs2_body (0x68 ∷ 0x1F600 ∷ []) (refl, (refl, tt))
