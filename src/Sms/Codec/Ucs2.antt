-- ===== src/Sms/Codec/Ucs2.antt =====
-- UCS-2 and UTF-16 texts: `encode_ucs2_body` and `ucs2_bytes_to_utf8` of src/sms/codec.rs.
pub mod RoundTrip
use smsgate.Base.{
  ℕ, ◌+◌, ◌-◌, ◌*◌, ◌/◌, ◌%◌, bit_or, ltb, in_range, ◌&&◌, if◌then◌else◌, Bool, true, false, List,
  [], ◌∷◌, ◌++◌, Text, is_scalar,
}

-- `char::encode_utf16`.
unfoldable pub encode_utf16 : ℕ → List ℕ
encode_utf16 c =
    if ltb c 0x10000
    then c ∷ []
    else (0xD800 + (c - 0x10000) / 1024) ∷ (0xDC00 + (c - 0x10000) % 1024) ∷ []

-- Each unit is two bytes, the high one first.
unfoldable pub unit_bytes : List ℕ → List ℕ
unit_bytes [] = []
unit_bytes (u ∷ us) = (u / 256) ∷ (u % 256) ∷ unit_bytes us

unfoldable pub encode_ucs2_body : Text → List ℕ
unfolding encode_utf16 unit_bytes
encode_ucs2_body [] = []
encode_ucs2_body (c ∷ s) = unit_bytes (encode_utf16 c) ++ encode_ucs2_body s

-- The units of the bytes; an odd byte at the end is left out.
unfoldable pub units : List ℕ → List ℕ
units [] = []
units (b ∷ []) = []
units (b ∷ d ∷ bs) = bit_or (b * 256) d ∷ units bs

abbrev pub is_high : ℕ → Bool
is_high u = in_range 0xD800 0xDBFF u

abbrev pub is_low : ℕ → Bool
is_low u = in_range 0xDC00 0xDFFF u

-- The character of a unit, unless it is half of a pair.
abbrev pub single : ℕ → Text
single u = if is_scalar u then u ∷ [] else []

unfoldable pub decode_units : List ℕ → Text
decode_units [] = []
decode_units (u ∷ []) = single u
decode_units (u ∷ v ∷ us) = elim (is_high u && is_low v) [
  | true ↦ single ((u - 0xD800) * 1024 + (v - 0xDC00) + 0x10000) ++ decode_units us
  | false ↦ single u ++ decode_units (v ∷ us)
]

unfoldable pub ucs2_bytes_to_utf8 : List ℕ → Text
unfolding units decode_units
ucs2_bytes_to_utf8 bs = decode_units (units bs)
