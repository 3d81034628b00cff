-- ===== src/Sms/Codec/Septets.antt =====
-- Septets in bytes: `pack_septets` and `unpack_septets` of src/sms/codec.rs.
use smsgate.Base.{
  ℕ, zero, suc, ◌+◌, ◌-◌, ◌*◌, ◌/◌, ◌%◌, ◌^◌, bit_or, bit_and, ltb, leb, if◌then◌else◌, List, [],
  ◌∷◌, length, get_or, set, replicate,
}

abbrev pub div_ceil : ℕ → ℕ → ℕ
div_ceil a b = (a + (b - 1)) / b

-- The septets from the bit `bit` on, at most as many as asked for.
unfoldable pub unpack_from : List ℕ → ℕ → ℕ → List ℕ
unpack_from bytes bit zero = []
unpack_from bytes bit (suc n) =
    let byte = bit / 8 in
    let v = bit_or (get_or bytes byte 0) (get_or bytes (byte + 1) 0 * 256) in
    let rest = unpack_from bytes (bit + 7) n in
    if leb (length bytes) byte then [] else bit_and (v / 2 ^ (bit % 8)) 0x7F ∷ rest

unfoldable pub unpack_septets : List ℕ → ℕ → ℕ → List ℕ
unfolding unpack_from
unpack_septets bytes num_septets bit_offset = unpack_from bytes bit_offset num_septets

-- `out[i] |= v`.
unfoldable pub or_at : List ℕ → ℕ → ℕ → List ℕ
or_at out i v = set out i (bit_or (get_or out i 0) v)

-- One septet goes in at the bit `bit_pos`.
unfoldable pub put_septet : List ℕ → ℕ → ℕ → List ℕ
unfolding or_at
put_septet out bit_pos s =
    let byte_idx = bit_pos / 8 in
    let shifted = bit_and s 0x7F * 2 ^ (bit_pos % 8) % 2 ^ 16 in
    let out' = or_at out byte_idx (bit_and shifted 0xFF) in
    if ltb (byte_idx + 1) (length out) then or_at out' (byte_idx + 1) (shifted / 256) else out'

unfoldable pub put_septets : List ℕ → ℕ → List ℕ → List ℕ
unfolding put_septet
put_septets out bit_pos [] = out
put_septets out bit_pos (s ∷ septets) = put_septets (put_septet out bit_pos s) (bit_pos + 7) septets

-- With no septets there are as many bytes as the offset takes, which the general case gives too.
unfoldable pub pack_septets : List ℕ → ℕ → List ℕ
unfolding put_septets
pack_septets septets bit_offset =
    put_septets (replicate (div_ceil (bit_offset + length septets * 7) 8) 0) bit_offset septets
