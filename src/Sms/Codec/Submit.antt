-- ===== src/Sms/Codec/Submit.antt =====
-- The SMS-SUBMIT encoder of src/sms/codec.rs. The two static counters of concatenation references
-- are the record `Refs`, handed in and out.
pub mod Chunks
use smsgate.Base.{
  ℕ, zero, suc, ◌+◌, ◌-◌, ◌*◌, ◌/◌, ◌%◌, ◌^◌, min, bit_or, ltb, leb, ◌==◌, not, ◌&&◌, ◌||◌,
  in_range, if◌then◌else◌, Bool, true, false, List, [], ◌∷◌, ◌++◌, Option, none, some, Text, length,
  take, drop, get_or, set,
}
use smsgate.Sms.Pdu.{SmsSubmitPdu}
use smsgate.Sms.Codec.Hex.{bytes_to_hex}
use smsgate.Sms.Codec.Septets.{pack_septets}
use smsgate.Sms.Codec.Gsm7.{encode_gsm7_body}
use smsgate.Sms.Codec.Ucs2.{encode_ucs2_body}
use smsgate.Sms.Codec.Phone.{encode_bcd_phone, is_valid_sms_destination}

pub record Refs : Type 0 where
  pub gsm7_ref : ℕ
  pub ucs2_ref : ℕ

-- `fetch_add(1)` on an AtomicU8.
abbrev pub next_ref : ℕ → ℕ
next_ref r = (r + 1) % 256

abbrev pub max_sms_parts : ℕ
max_sms_parts = 10

-- SCA, first octet, reference, destination, PID, DCS, length and user data.
unfoldable pub tpdu : ℕ → Text → ℕ → ℕ → List ℕ → List ℕ
unfolding encode_bcd_phone
tpdu first_octet phone dcs udl ud =
    (0x00 ∷ first_octet ∷ 0x00 ∷ encode_bcd_phone phone) ++ (0x00 ∷ dcs ∷ (udl % 256) ∷ ud)

unfoldable pub submit : List ℕ → SmsSubmitPdu
unfolding bytes_to_hex
submit pdu = record { hex = bytes_to_hex pdu; tpdu_len = (length pdu - 1) % 256 }

-- How many of the septets that are left go into the next part of a long message.
unfoldable pub gsm7_chunk : List ℕ → ℕ
gsm7_chunk septets =
    let remaining = length septets in
    let chunk = min remaining 153 in
    if chunk == 153 && ltb 153 remaining
    then (if get_or septets 152 0 == 0x1B
        then 152
        else if get_or septets 151 0 == 0x1B
        then 151
        else chunk)
    else chunk

-- How many of the bytes that are left.
unfoldable pub ucs2_chunk : List ℕ → ℕ
ucs2_chunk bs =
    let remaining = length bs in
    let chunk = min remaining 134 in
    if chunk == 134 && ltb 134 remaining
    then (if in_range 0xD800 0xDBFF (bit_or (get_or bs 132 0 * 256) (get_or bs 133 0))
        then 132
        else chunk)
    else chunk

-- The slices of the `while` loop; a slice is never empty, so as many rounds as there are elements
-- are enough.
unfoldable pub chunks : (List ℕ → ℕ) → ℕ → List ℕ → List (List ℕ)
chunks size fuel [] = []
chunks size zero (x ∷ xs) = []
chunks size (suc fuel) (x ∷ xs) =
    let n = size (x ∷ xs) in take n (x ∷ xs) ∷ chunks size fuel (drop n (x ∷ xs))

unfoldable pub gsm7_chunks : List ℕ → List (List ℕ)
unfolding chunks gsm7_chunk
gsm7_chunks septets = chunks gsm7_chunk (length septets) septets

unfoldable pub ucs2_chunks : List ℕ → List (List ℕ)
unfolding chunks ucs2_chunk
ucs2_chunks bs = chunks ucs2_chunk (length bs) bs

-- The user data header of part `part_num` of `total`.
abbrev pub udh : ℕ → ℕ → ℕ → List ℕ
udh concat_ref total part_num =
    0x05 ∷ 0x00 ∷ 0x03 ∷ concat_ref ∷ (total % 256) ∷ (part_num % 256) ∷ []

-- The septets from bit 49 on, and the header written over the first six bytes.
unfoldable pub gsm7_user_data : ℕ → ℕ → ℕ → List ℕ → List ℕ
unfolding pack_septets
gsm7_user_data concat_ref total part_num chunk =
    udh concat_ref total part_num ++ drop 6 (pack_septets chunk 49)

unfoldable pub gsm7_parts : Text → Bool → ℕ → ℕ → ℕ → List (List ℕ) → List SmsSubmitPdu
unfolding tpdu submit gsm7_user_data
gsm7_parts phone srr concat_ref total part_num [] = []
gsm7_parts phone srr concat_ref total part_num (chunk ∷ rest) =
    submit (
      tpdu (if srr then 0x61 else 0x41) phone 0x00 (7 + length chunk)
        (gsm7_user_data concat_ref total part_num chunk))
    ∷ gsm7_parts phone srr concat_ref total (suc part_num) rest

unfoldable pub ucs2_parts : Text → Bool → ℕ → ℕ → ℕ → List (List ℕ) → List SmsSubmitPdu
unfolding tpdu submit
ucs2_parts phone srr concat_ref total part_num [] = []
ucs2_parts phone srr concat_ref total part_num (chunk ∷ rest) =
    submit (
      tpdu (if srr then 0x61 else 0x41) phone 0x08 (6 + length chunk)
        (udh concat_ref total part_num ++ chunk))
    ∷ ucs2_parts phone srr concat_ref total (suc part_num) rest

abbrev pub too_many : ℕ → ℕ → Bool
too_many total max_parts = ltb max_parts total || ltb 255 total

unfoldable pub build_gsm7_pdus : Refs → Text → List ℕ → ℕ → Bool → Refs × List SmsSubmitPdu
unfolding tpdu submit gsm7_chunks gsm7_parts pack_septets
build_gsm7_pdus refs phone septets max_parts srr =
    let slices = gsm7_chunks septets in
    let total = length slices in
    if leb (length septets) 160
    then (
      refs,
      submit
            (tpdu (if srr then 0x21 else 0x01) phone 0x00 (length septets) (pack_septets septets 0))
          ∷ [],
    )
    else if too_many total max_parts
    then (refs, [])
    else (
      record refs { gsm7_ref = next_ref refs.gsm7_ref },
      gsm7_parts phone srr refs.gsm7_ref total 1 slices,
    )

unfoldable pub build_ucs2_pdus : Refs → Text → List ℕ → ℕ → Bool → Refs × List SmsSubmitPdu
unfolding tpdu submit ucs2_chunks ucs2_parts
build_ucs2_pdus refs phone bs max_parts srr =
    let slices = ucs2_chunks bs in
    let total = length slices in
    if leb (length bs) 140
    then (refs, submit (tpdu (if srr then 0x21 else 0x01) phone 0x08 (length bs) bs) ∷ [])
    else if too_many total max_parts
    then (refs, [])
    else (
      record refs { ucs2_ref = next_ref refs.ucs2_ref },
      ucs2_parts phone srr refs.ucs2_ref total 1 slices,
    )

unfoldable pub build_sms_submit_pdus : Refs → Text → Text → ℕ → Bool → Refs × List SmsSubmitPdu
unfolding is_valid_sms_destination encode_gsm7_body encode_ucs2_body build_gsm7_pdus build_ucs2_pdus
build_sms_submit_pdus refs phone body max_parts srr =
    if not (is_valid_sms_destination phone) || length body == 0 || max_parts == 0
    then (refs, [])
    else (elim (encode_gsm7_body body) [
      | some septets ↦ build_gsm7_pdus refs phone septets max_parts srr
      | none ↦ build_ucs2_pdus refs phone (encode_ucs2_body body) max_parts srr
    ])
