-- ===== src/Sms/Codec/Scts.antt =====
-- Service centre time stamps: `decode_scts` of src/sms/codec.rs.
use smsgate.Base.{
  ℕ, ◌+◌, ◌*◌, ◌/◌, ◌%◌, bit_and, ltb, ◌==◌, not, if◌then◌else◌, List, [], ◌∷◌, ◌++◌, Text, length,
  get_or,
}

-- `{:02}` of a number below 1000.
unfoldable pub two_digits : ℕ → Text
two_digits n =
    if ltb n 100
    then (b'0' + n / 10) ∷ (b'0' + n % 10) ∷ []
    else (b'0' + n / 100) ∷ (b'0' + n / 10 % 10) ∷ (b'0' + n % 10) ∷ []

abbrev pub swap : ℕ → ℕ
swap b = bit_and b 0x0F * 10 + bit_and (b / 16) 0x0F

-- No number here is above 165, so nothing overflows a u8.
unfoldable pub decode_scts : List ℕ → Text
unfolding two_digits
decode_scts bs =
    let part = λ (i : ℕ). two_digits (swap (get_or bs i 0)) in
    let tz_raw = get_or bs 6 0 in
    let tz_hi = bit_and (tz_raw / 16) 0x0F in
    let tz_q = bit_and tz_raw 0x0F * 10 + bit_and tz_hi 0x07 in
    let sign = if not (bit_and tz_hi 0x08 == 0) then 0x2D else 0x2B in
    if ltb (length bs) 7
    then []
    else part 0
      ++ (0x2F ∷ part 1
          ++ (0x2F ∷ part 2
              ++ (0x2C ∷ part 3 ++ (0x3A ∷ part 4 ++ (0x3A ∷ part 5 ++ (sign ∷ two_digits tz_q))))))
