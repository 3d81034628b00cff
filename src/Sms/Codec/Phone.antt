-- ===== src/Sms/Codec/Phone.antt =====
-- Phone numbers of src/sms/codec.rs: their text forms and their BCD digits in a PDU.
pub mod Laws
use smsgate.Base.{
  ℕ, zero, suc, ◌+◌, ◌-◌, ◌*◌, ◌/◌, ◌%◌, bit_or, bit_and, ltb, leb, ◌==◌, in_range, ◌&&◌, ◌||◌,
  if◌then◌else◌, Bool, true, false, List, [], ◌∷◌, ◌++◌, Option, none, some, Text, codes, bytes,
  text_eq, length, take, drop, get_or, retain, encode_utf8, ◌>>=◌, all, any, is_ascii_digit,
}
use mathlib.Core.Option
use smsgate.Sms.Codec.Septets.{div_ceil}

unfoldable pub starts_with : Text → Text → Bool
starts_with prefix s = text_eq (take (length prefix) s) prefix

-- The text split after its first `n` bytes: `none`, a panic in a slice, if a character stands there.
unfoldable pub split_bytes : ℕ → Text → Option (Text × Text)
split_bytes zero s = some ([], s)
split_bytes (suc n) [] = none
split_bytes (suc n) (c ∷ s) =
    if leb (length (encode_utf8 c)) (suc n)
    then Option.map (λ p. (c ∷ p.0, p.1)) (split_bytes (suc n - length (encode_utf8 c)) s)
    else none

-- Three, four and the other characters behind the country code, with a dash between them.
unfoldable pub grouped : Text → Option Text
grouped s = do
  (a, rest) ← split_bytes 3 s
  (b, c) ← split_bytes 4 rest
  some (codes "+86 " ++ (a ++ (0x2D ∷ b ++ (0x2D ∷ c))))

unfoldable pub after_country_code : Text → Option Text
after_country_code s = do (cc, rest) ← split_bytes 3 s; some rest

-- `none` is a panic, in a slice that does not end between two characters.
unfoldable pub human_readable_phone : Text → Option Text
human_readable_phone number =
    if length (bytes number) == 11 && all is_ascii_digit number
    then grouped number
    else if length (bytes number) == 14 && starts_with (codes "+86") number
    then after_country_code number >>= grouped
    else some number

unfoldable pub normalize_phone : Text → Text
normalize_phone raw =
    let out = retain (λ c. c == 0x2B || is_ascii_digit c) raw in
    if starts_with (codes "00") out then 0x2B ∷ drop 2 out else out

abbrev pub strip_plus : Text → Text
strip_plus [] = []
strip_plus (c ∷ s) = if c == 0x2B then s else c ∷ s

unfoldable pub is_valid_sms_destination : Text → Bool
unfolding all bytes
is_valid_sms_destination phone =
    let digits = bytes (strip_plus phone) in
    in_range 1 20 (length digits) && all is_ascii_digit digits

-- The digits in pairs, the first in the low half; a last one alone has 0xF above it.
unfoldable pub bcd_pairs : Option ℕ → List ℕ → List ℕ
bcd_pairs none [] = []
bcd_pairs (some lo) [] = bit_or 0xF0 lo ∷ []
bcd_pairs none (c ∷ cs) = bcd_pairs (some (c - b'0')) cs
bcd_pairs (some lo) (c ∷ cs) = bit_or ((c - b'0') * 16 % 256) lo ∷ bcd_pairs none cs

-- What `encode_bcd_phone` appends: the digit count, the type of number and the digits.
unfoldable pub encode_bcd_phone : Text → List ℕ
unfolding any retain bcd_pairs bytes
encode_bcd_phone phone =
    let digits = retain is_ascii_digit (bytes phone) in
    (length digits % 256)
    ∷ (if any (λ b. b == 0x2B) (bytes phone) then 0x91 else 0x81)
    ∷ bcd_pairs none digits

unfoldable pub bcd_phone_field_len : Text → ℕ
unfolding retain bytes
bcd_phone_field_len phone = 2 + div_ceil (length (retain is_ascii_digit (bytes phone))) 2

-- One round of the loop for each of the first `byte_len` bytes, with `left` digits still to come.
unfoldable pub decode_bcd_address : List ℕ → ℕ → ℕ → Text
decode_bcd_address [] byte_len left = []
decode_bcd_address (b ∷ bs) zero left = []
decode_bcd_address (b ∷ bs) (suc byte_len) zero = []
decode_bcd_address (b ∷ bs) (suc byte_len) (suc zero) =
    let lo = bit_and b 0x0F in if leb lo 9 then (b'0' + lo) ∷ [] else []
decode_bcd_address (b ∷ bs) (suc byte_len) (suc (suc left)) =
    let lo = bit_and b 0x0F in
    let hi = bit_and (b / 16) 0x0F in
    let rest = decode_bcd_address bs byte_len left in
    if leb lo 9 then (b'0' + lo) ∷ (if leb hi 9 then (b'0' + hi) ∷ rest else []) else []
