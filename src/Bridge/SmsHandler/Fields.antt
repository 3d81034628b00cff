-- ===== src/Bridge/SmsHandler/Fields.antt =====
-- The texts of the modem's answers: the CSV fields, hex lines and UCS-2 texts of
-- src/bridge/sms_handler.rs.
use smsgate.Base.{
  ℕ, suc, ◌+◌, ◌*◌, ◌-◌, ◌%◌, ltb, ◌==◌, in_range, not, ◌&&◌, ◌||◌, if◌then◌else◌, Bool, true,
  false, List, [], ◌∷◌, Option, none, some, ◌>>=◌, Text, length, retain, map, trim, strip_prefix,
  strip_last, is_whitespace, onto_first, is_scalar,
}
use smsgate.Sms.Codec.Hex.{hex_nibble}

-- The pieces between the commas that stand outside of quotes.
unfoldable pub csv_split : Bool → Text → List Text
csv_split in_quotes [] = [] ∷ []
csv_split in_quotes (c ∷ s) =
    let rest = csv_split (if c == 0x22 then not in_quotes else in_quotes) s in
    if c == 0x2C && not in_quotes then [] ∷ rest else onto_first c rest

-- A field without the quotes around it.
unfoldable pub trim_at_csv_field : Text → Text
unfolding trim strip_prefix strip_last
trim_at_csv_field field =
    let trimmed = trim field in
    elim (strip_prefix (0x22 ∷ []) trimmed) [
      | none ↦ trimmed
      | some rest ↦ elim (strip_last 0x22 rest) [ none ↦ trimmed | some inner ↦ inner ]
    ]

-- What `AtCsvFields` gives, one after the other.
unfoldable pub csv_fields : Text → List Text
unfolding csv_split trim_at_csv_field
csv_fields s = map trim_at_csv_field (csv_split false s)

abbrev pub is_ascii_whitespace : ℕ → Bool
is_ascii_whitespace c = c == 0x20 || c == 0x09 || c == 0x0A || c == 0x0C || c == 0x0D

abbrev pub is_ascii_hexdigit : ℕ → Bool
is_ascii_hexdigit c = in_range 0x30 0x39 c || in_range 0x41 0x46 c || in_range 0x61 0x66 c

-- How many hex digits, if there is nothing else but white space.
unfoldable pub hex_digit_count : Text → Option ℕ
hex_digit_count [] = some 0
hex_digit_count (c ∷ s) = do
  count ← hex_digit_count s
  if is_ascii_whitespace c
      then some count
      else if is_ascii_hexdigit c
      then some (suc count)
      else none

unfoldable pub is_pdu_hex_line : Text → Bool
unfolding hex_digit_count
is_pdu_hex_line line = elim (hex_digit_count line) [
  | none ↦ false
  | some count ↦ ltb 0 count && count % 2 == 0
]

-- The code units of four hex digits each.
unfoldable pub hex_units : Text → Option (List ℕ)
unfolding hex_nibble
hex_units [] = some []
hex_units (a ∷ b ∷ c ∷ d ∷ s) = do
  ha ← hex_nibble a
  hb ← hex_nibble b
  hc ← hex_nibble c
  hd ← hex_nibble d
  rest ← hex_units s
  some ((((ha * 16 + hb) * 16 + hc) * 16 + hd) ∷ rest)
hex_units _ = none

unfoldable pub is_text_code_unit : ℕ → Bool
is_text_code_unit unit =
    unit == 0x09
    || unit == 0x0A
    || unit == 0x0D
    || in_range 0x20 0x7E unit
    || in_range 0xA0 0xFF unit
    || in_range 0x2000 0x206F unit
    || in_range 0x3000 0x303F unit
    || in_range 0x3400 0x9FFF unit
    || in_range 0xFF00 0xFFEF unit

-- `char::decode_utf16` into a text; half of a pair is an error.
unfoldable pub decode_utf16 : List ℕ → Option Text
decode_utf16 [] = some []
decode_utf16 (u ∷ []) = if is_scalar u then some (u ∷ []) else none
decode_utf16 (u ∷ v ∷ us) = elim (in_range 0xD800 0xDBFF u && in_range 0xDC00 0xDFFF v) [
  | true ↦ do rest ← decode_utf16 us; some (((u - 0xD800) * 1024 + (v - 0xDC00) + 0x10000) ∷ rest)
  | false ↦ do rest ← decode_utf16 (v ∷ us); if is_scalar u then some (u ∷ rest) else none
]

-- Text that at least half of the units speak for.
unfoldable pub decode_ucs2_hex : Text → Option Text
unfolding retain is_whitespace hex_units is_text_code_unit decode_utf16
decode_ucs2_hex text =
    let hex = retain (λ c. not (is_whitespace c)) text in
    if ltb (length hex) 4 then none else (do
      units ← hex_units hex
      if ltb (length (retain is_text_code_unit units) * 2) (length units)
          then none
          else decode_utf16 units)

unfoldable pub decode_modem_text : Text → Text
unfolding decode_ucs2_hex
decode_modem_text text = elim (decode_ucs2_hex text) [ none ↦ text | some decoded ↦ decoded ]
