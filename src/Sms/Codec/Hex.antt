-- ===== src/Sms/Codec/Hex.antt =====
-- Bytes as text in hex: `hex_nibble`, `hex_to_bytes` and `bytes_to_hex` of src/sms/codec.rs.
pub mod RoundTrip
use smsgate.Base.{
  ℕ, zero, suc, ◌+◌, ◌-◌, ◌*◌, ◌/◌, ◌%◌, ◌≤◌, ◌<◌, bit_or, bit_and, ◌≡◌, refl, ap, ltb, ◌==◌, not,
  ◌||◌, ◌&&◌, in_range, if◌then◌else◌, Bool, true, false, List, [], ◌∷◌, ◌++◌, Option, none, some,
  ◌>>=◌, Text, bytes, encode_utf8, retain, length, All, IsByte, arith, Bool-cases, inl, inr,
}

unfoldable pub hex_nibble : ℕ → Option ℕ
hex_nibble c =
    if in_range b'0' b'9' c
    then some (c - b'0')
    else if in_range b'A' b'F' c
    then some (c - b'A' + 10)
    else if in_range b'a' b'f' c
    then some (c - b'a' + 10)
    else none

-- The bytes of two digits each.
unfoldable pub pair_bytes : List ℕ → Option (List ℕ)
pair_bytes [] = some []
pair_bytes (c ∷ []) = some []
pair_bytes (c ∷ d ∷ rest) = do
  hi ← hex_nibble c
  lo ← hex_nibble d
  out ← pair_bytes rest
  some (bit_or (hi * 16 % 256) lo ∷ out)

abbrev pub is_space : ℕ → Bool
is_space b = b == 0x20 || b == 0x0D || b == 0x0A || b == 0x09

unfoldable pub hex_to_bytes : Text → Option (List ℕ)
hex_to_bytes hex =
    let clean = retain (λ b. not (is_space b)) (bytes hex) in
    if length clean % 2 == 0 then pair_bytes clean else none

-- `char::from_digit(n, 16)`, in upper case.
unfoldable pub hex_digit : ℕ → ℕ
hex_digit n = if ltb n 10 then b'0' + n else b'A' + (n - 10)

unfoldable pub bytes_to_hex : List ℕ → Text
bytes_to_hex [] = []
bytes_to_hex (b ∷ bs) = hex_digit (b / 16) ∷ hex_digit (bit_and b 0xF) ∷ bytes_to_hex bs
