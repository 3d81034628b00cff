-- ===== src/Sms/Codec/Hex/RoundTrip.antt =====
-- Bytes to hex and back, of src/sms/codec.rs.
use smsgate.Base.{
  ℕ, ◌*◌, ◌/◌, ◌%◌, ◌<◌, bit_or, bit_and, ◌≡◌, refl, ltb, ◌==◌, not, ◌&&◌, holds_below,
  holds_below-lt, Bool, true, false, List, [], ◌∷◌, none, some, Text, bytes, encode_utf8, retain,
  length, All, IsByte, arith,
}
use smsgate.Sms.Codec.Hex.{hex_nibble, hex_digit, pair_bytes, is_space, hex_to_bytes, bytes_to_hex}

-- A digit is read as its value, and is neither a space nor outside ASCII.
is_digit_of : ℕ → Bool
is_digit_of n =
    (elim (hex_nibble (hex_digit n)) [ some m ↦ m == n | none ↦ false ])
    && not (is_space (hex_digit n))
    && ltb (hex_digit n) 0x80

digit_table : holds_below 16 is_digit_of ≡ true
unfolding holds_below is_digit_of hex_digit hex_nibble
digit_table = refl

abbrev joins : ℕ → Bool
joins b = bit_or (b / 16 * 16 % 256) (bit_and b 0xF) == b && ltb (bit_and b 0xF) 16

joins_table : holds_below 256 joins ≡ true
unfolding holds_below
joins_table = refl

hex_nibble-hex_digit :
    (n : ℕ)
    → n < 16
    → (hex_nibble (hex_digit n) ≡ some n)
      × (not (is_space (hex_digit n)) ≡ true)
      × (ltb (hex_digit n) 0x80 ≡ true)
unfolding is_digit_of
hex_nibble-hex_digit n h = ground (arith, holds_below-lt 16 n h is_digit_of digit_table)

pair_bytes-bytes_to_hex : (bs : List ℕ) → All IsByte bs → pair_bytes (bytes_to_hex bs) ≡ some bs
unfolding bytes_to_hex pair_bytes
pair_bytes-bytes_to_hex [] h = refl
pair_bytes-bytes_to_hex (b ∷ bs) (hb, h) =
    let j : joins b ≡ true = holds_below-lt 256 b hb joins joins_table in
    let same : bit_or (b / 16 * 16 % 256) (bit_and b 0xF) ≡ b = ground arith in
    let hi = hex_nibble-hex_digit (b / 16) (omega arith) in
    let lo = hex_nibble-hex_digit (bit_and b 0xF) (ground arith) in
    rw (hi.0, lo.0, pair_bytes-bytes_to_hex bs h, same)

bytes_digit : (n : ℕ) (s : Text) → n < 16 → bytes (hex_digit n ∷ s) ≡ hex_digit n ∷ bytes s
unfolding bytes encode_utf8
bytes_digit n s h = rw (hex_nibble-hex_digit n h).2

clean-bytes_to_hex :
    (bs : List ℕ)
    → All IsByte bs
    → retain (λ b. not (is_space b)) (bytes (bytes_to_hex bs)) ≡ bytes_to_hex bs
unfolding bytes_to_hex retain
clean-bytes_to_hex [] h = unfold bytes in refl
clean-bytes_to_hex (b ∷ bs) (hb, h) =
    let j : joins b ≡ true = holds_below-lt 256 b hb joins joins_table in
    let low : bit_and b 0xF < 16 = ground arith in
    let high : b / 16 < 16 = omega arith in
    rw (
      bytes_digit (b / 16) (hex_digit (bit_and b 0xF) ∷ bytes_to_hex bs) high,
      bytes_digit (bit_and b 0xF) (bytes_to_hex bs) low,
      (hex_nibble-hex_digit (b / 16) high).1,
      (hex_nibble-hex_digit (bit_and b 0xF) low).1,
      clean-bytes_to_hex bs h,
    )

length-bytes_to_hex : (bs : List ℕ) → length (bytes_to_hex bs) ≡ 2 * length bs
unfolding bytes_to_hex
length-bytes_to_hex [] = refl
length-bytes_to_hex (b ∷ bs) = omega (arith, length-bytes_to_hex bs)

even-bytes_to_hex : (bs : List ℕ) → (length (bytes_to_hex bs) % 2 == 0) ≡ true
even-bytes_to_hex bs = ground (arith, length-bytes_to_hex bs)

-- Any bytes, written in hex as the encoder does, are read back by the decoder.
pub hex_to_bytes-bytes_to_hex :
    (bs : List ℕ) → All IsByte bs → hex_to_bytes (bytes_to_hex bs) ≡ some bs
unfolding hex_to_bytes
hex_to_bytes-bytes_to_hex bs h =
    rw (clean-bytes_to_hex bs h, even-bytes_to_hex bs) (pair_bytes-bytes_to_hex bs h)
