-- ===== src/Sms/Codec/Gsm7/RoundTrip.antt =====
-- Texts to septets of the GSM-7 alphabet and back, of src/sms/codec.rs.
use smsgate.Base.{
  ℕ, ◌≡◌, refl, ◌∙◌, ap, inl, inr, ltb, ◌==◌, not, ◌&&◌, in_range, holds_below, holds_below-lt,
  Bool-cases, List-cases, Option-cases, Bool, true, false, List, [], ◌∷◌, ◌++◌, Option, none, some,
  Text, all, text_eq, text_eq→eq, arith,
}
use smsgate.Sms.Codec.Gsm7.Tables.{arm, first_arms, last_arms, encode_gsm7_char, gsm7_extension}
use smsgate.Sms.Codec.Gsm7.{gsm7_char, decode_septets, gsm7_septets_to_utf8, encode_gsm7_body}

-- The septets, if there are any, are those of the character `c`: one that is not the escape, or
-- the escape and one more.
reads_as : ℕ → List ℕ → Bool
reads_as c [] = true
reads_as c (s ∷ []) = not (s == 0x1B) && ltb s 128 && text_eq (gsm7_char s) (c ∷ [])
reads_as c (e ∷ s ∷ []) = e == 0x1B && gsm7_extension s == c
reads_as c (e ∷ s ∷ x ∷ septets) = false

decode_septets_one :
    (s : ℕ) (rest : List ℕ)
    → (s == 0x1B) ≡ false
    → ltb s 128 ≡ true
    → decode_septets false (s ∷ rest) ≡ gsm7_char s ++ decode_septets false rest
unfolding decode_septets
decode_septets_one s rest p q = rw (p, q)

decode_septets_two :
    (e s : ℕ) (rest : List ℕ)
    → (e == 0x1B) ≡ true
    → decode_septets false (e ∷ s ∷ rest) ≡ gsm7_extension s ∷ decode_septets false rest
unfolding decode_septets
decode_septets_two e s rest p = rw p

decode_septets-reads_as :
    (c s : ℕ) (septets rest : List ℕ)
    → reads_as c (s ∷ septets) ≡ true
    → decode_septets false ((s ∷ septets) ++ rest) ≡ c ∷ decode_septets false rest
unfolding reads_as
decode_septets-reads_as c s [] rest h =
    decode_septets_one s rest (ground arith) (ground arith)
    ∙ ap (λ cs. cs ++ decode_septets false rest) (text_eq→eq (gsm7_char s) (c ∷ []) (ground arith))
decode_septets-reads_as c e (s ∷ []) rest h =
    let same : gsm7_extension s ≡ c = ground arith in
    decode_septets_two e s rest (ground arith) ∙ ap (λ d. d ∷ decode_septets false rest) same
decode_septets-reads_as c e (s ∷ x ∷ septets) rest h = cc

arm-reads_as :
    (c : ℕ) (arms : List (ℕ × List ℕ)) (other : List ℕ)
    → all (λ p. reads_as p.0 p.1) arms ≡ true
    → reads_as c other ≡ true
    → reads_as c (arm c arms other) ≡ true
unfolding arm all
arm-reads_as c [] other h k = k
arm-reads_as c ((d, septets) ∷ arms) other h k = elim (Bool-cases (d == c)) [
  | inl e ↦ let same : d ≡ c = ground arith in rw e (rw (← same) (ground arith))
  | inr e ↦ rw e (arm-reads_as c arms other (ground arith) k)
]

first_arms-reads_as : all (λ p. reads_as p.0 p.1) first_arms ≡ true
unfolding all first_arms reads_as gsm7_char gsm7_extension text_eq
first_arms-reads_as = refl

last_arms-reads_as : all (λ p. reads_as p.0 p.1) last_arms ≡ true
unfolding all last_arms reads_as gsm7_char gsm7_extension text_eq
last_arms-reads_as = refl

ascii-reads_as : holds_below 127 (λ c. reads_as c (encode_gsm7_char c)) ≡ true
unfolding holds_below encode_gsm7_char reads_as gsm7_char gsm7_extension text_eq
ascii-reads_as = refl

-- Any character's septets, if it has any, are read as that character.
encode_gsm7_char-reads_as : (c : ℕ) → reads_as c (encode_gsm7_char c) ≡ true
unfolding encode_gsm7_char reads_as
encode_gsm7_char-reads_as c = elim (Bool-cases (ltb c 127)) [
  | inl e ↦
      holds_below-lt 127 c (ground arith) (λ d. reads_as d (encode_gsm7_char d)) ascii-reads_as
  | inr e ↦
      let outside : in_range 0x20 0x7E c ≡ false = ground arith in
      rw outside (
        arm-reads_as c first_arms (arm c last_arms []) first_arms-reads_as
          (arm-reads_as c last_arms [] last_arms-reads_as refl))
]

abbrev ReadsBack : Text → Option (List ℕ) → Type 0
ReadsBack body none = Unit
ReadsBack body (some septets) = gsm7_septets_to_utf8 septets ≡ body

encode_gsm7_body-ReadsBack : (body : Text) → ReadsBack body (encode_gsm7_body body)
unfolding gsm7_septets_to_utf8 encode_gsm7_body
encode_gsm7_body-ReadsBack [] = unfold decode_septets in refl
encode_gsm7_body-ReadsBack (c ∷ body) = elim (List-cases (encode_gsm7_char c)) [
  | inl e ↦ rw (e, encode_gsm7_body) tt
  | inr (x, xs, e) ↦ elim (Option-cases (encode_gsm7_body body)) [
    | inl n ↦ rw (e, encode_gsm7_body, n) tt
    | inr (out, o) ↦
        let read : reads_as c (x ∷ xs) ≡ true = rw e at (encode_gsm7_char-reads_as c) in
        let ih : decode_septets false out ≡ body = rw o at (encode_gsm7_body-ReadsBack body) in
        rw (e, encode_gsm7_body, o) (decode_septets-reads_as c x xs out read ∙ ap (◌∷◌ c) ih)
  ]
]

-- A body that has an encoding in septets is read back from it.
pub gsm7_septets_to_utf8-encode_gsm7_body :
    (body : Text) (septets : List ℕ)
    → encode_gsm7_body body ≡ some septets
    → gsm7_septets_to_utf8 septets ≡ body
gsm7_septets_to_utf8-encode_gsm7_body body septets h = rw h at (encode_gsm7_body-ReadsBack body)
