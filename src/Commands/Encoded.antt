-- ===== src/Commands/Encoded.antt =====
-- The escaping of a message in one line of a command's reply, of src/commands/mod.rs.
use smsgate.Base.{
  ℕ, ◌≡◌, ◌≢◌, refl, ◌==◌, false, Bool-cases, inl, inr, [], ◌∷◌, Text, arith, All, All-append,
}
use smsgate.Commands.{encoded_char, encoded_sentinel_body, decode_sentinel_body}

decode-plain :
    (c : ℕ) (s : Text)
    → c == 0x5C ≡ false
    → decode_sentinel_body (c ∷ s) ≡ c ∷ decode_sentinel_body s
unfolding decode_sentinel_body
decode-plain c [] h = refl
decode-plain c (d ∷ s) h = rw (h, decode_sentinel_body) refl

-- A message that is written into a line is read from it again.
pub decode_sentinel_body-encoded_sentinel_body :
    (body : Text) → decode_sentinel_body (encoded_sentinel_body body) ≡ body
unfolding decode_sentinel_body encoded_sentinel_body
decode_sentinel_body-encoded_sentinel_body [] = refl
decode_sentinel_body-encoded_sentinel_body (c ∷ body) =
    let ih = decode_sentinel_body-encoded_sentinel_body body in
    elim (Bool-cases (c == 0x5C)) [
      | inl e ↦ rw (e, ih) (ground arith)
      | inr e ↦ elim (Bool-cases (c == 0x0A)) [
        | inl f ↦ rw (e, f, ih) (ground arith)
        | inr f ↦ elim (Bool-cases (c == 0x0D)) [
          | inl g ↦ rw (e, f, g, ih) (ground arith)
          | inr g ↦ rw (e, f, g, decode-plain c (encoded_sentinel_body body) e, ih) refl
        ]
      ]
    ]

-- Neither a line feed nor a carriage return.
abbrev pub IsInline : ℕ → Type 0
IsInline c = (c ≢ 0x0A) × (c ≢ 0x0D)

encoded_char-IsInline : (c : ℕ) → All IsInline (encoded_char c)
encoded_char-IsInline c = ground arith

pub encoded_sentinel_body-IsInline : (body : Text) → All IsInline (encoded_sentinel_body body)
unfolding encoded_sentinel_body
encoded_sentinel_body-IsInline [] = tt
encoded_sentinel_body-IsInline (c ∷ body) =
    All-append IsInline (encoded_char c) (encoded_sentinel_body body) (encoded_char-IsInline c)
      (encoded_sentinel_body-IsInline body)
