-- ===== src/Sms/Codec/Ucs2/RoundTrip.antt =====
-- Texts to UCS-2 and back, of src/sms/codec.rs.
use smsgate.Base.{
  ℕ, ◌+◌, ◌-◌, ◌*◌, ◌/◌, ◌%◌, ◌≤◌, ◌≡◌, refl, ap, ◌∙◌, inl, inr, ltb, Bool-cases, true, false, List,
  [], ◌∷◌, ◌++◌, Text, bit_or, bit_or-disjoint, is_scalar, IsScalar, All, arith,
}
use smsgate.Sms.Codec.Ucs2.{
  encode_utf16, unit_bytes, encode_ucs2_body, units, is_high, is_low, single, decode_units,
  ucs2_bytes_to_utf8,
}

halves : (u : ℕ) → bit_or (u / 256 * 256) (u % 256) ≡ u
halves u = omega (arith, bit_or-disjoint 8 (u / 256) (u % 256) (omega arith))

units-unit_bytes : (us bs : List ℕ) → units (unit_bytes us ++ bs) ≡ us ++ units bs
unfolding units unit_bytes
units-unit_bytes [] bs = refl
units-unit_bytes (u ∷ us) bs = rw (halves u, units-unit_bytes us bs) refl

single-scalar : (c : ℕ) → IsScalar c → single c ≡ c ∷ []
single-scalar c h = rw h refl

decode_units-single :
    (u : ℕ) (us : List ℕ) → is_high u ≡ false → decode_units (u ∷ us) ≡ single u ++ decode_units us
unfolding decode_units
decode_units-single u [] h = elim (Bool-cases (is_scalar u)) [
  | inl e ↦ rw e refl
  | inr e ↦ rw e refl
]
decode_units-single u (v ∷ us) h = rw (decode_units, h) refl

decode_units-pair :
    (u v : ℕ) (us : List ℕ)
    → is_high u ≡ true
    → is_low v ≡ true
    → decode_units (u ∷ v ∷ us)
      ≡ single ((u - 0xD800) * 1024 + (v - 0xDC00) + 0x10000) ++ decode_units us
unfolding decode_units
decode_units-pair u v us h k = rw (decode_units, h, k) refl

decode_units-encode_utf16 :
    (c : ℕ) (us : List ℕ) → IsScalar c → decode_units (encode_utf16 c ++ us) ≡ c ∷ decode_units us
unfolding encode_utf16
decode_units-encode_utf16 c us h = elim (Bool-cases (ltb c 0x10000)) [
  | inl e ↦
      rw e (
        decode_units-single c us (ground arith)
        ∙ ap (λ s. s ++ decode_units us) (single-scalar c h))
  | inr e ↦
      let hi : is_high (0xD800 + (c - 0x10000) / 1024) ≡ true = ground arith in
      let lo : is_low (0xDC00 + (c - 0x10000) % 1024) ≡ true = ground arith in
      rw e (
        decode_units-pair (0xD800 + (c - 0x10000) / 1024) (0xDC00 + (c - 0x10000) % 1024) us hi lo
        ∙ ap (λ x. single x ++ decode_units us) (whole (ground arith))
        ∙ ap (λ s. s ++ decode_units us) (single-scalar c h))
]
  where
    whole :
        0x10000 ≤ c
        → (0xD800 + (c - 0x10000) / 1024 - 0xD800) * 1024
            + (0xDC00 + (c - 0x10000) % 1024 - 0xDC00)
            + 0x10000
          ≡ c
    whole k = omega arith

-- A text of Unicode scalar values, written in UCS-2 with pairs for the characters above 0xFFFF, is
-- read back.
pub ucs2_bytes_to_utf8-encode_ucs2_body :
    (body : Text) → All IsScalar body → ucs2_bytes_to_utf8 (encode_ucs2_body body) ≡ body
unfolding ucs2_bytes_to_utf8 encode_ucs2_body
ucs2_bytes_to_utf8-encode_ucs2_body [] h = refl
ucs2_bytes_to_utf8-encode_ucs2_body (c ∷ body) (hc, h) =
    ap decode_units (units-unit_bytes (encode_utf16 c) (encode_ucs2_body body))
    ∙ decode_units-encode_utf16 c (units (encode_ucs2_body body)) hc
    ∙ ap (◌∷◌ c) (ucs2_bytes_to_utf8-encode_ucs2_body body h)
