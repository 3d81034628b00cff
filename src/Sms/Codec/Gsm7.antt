-- ===== src/Sms/Codec/Gsm7.antt =====
-- The GSM-7 alphabet of src/sms/codec.rs: the tables and the conversions of whole texts.
pub mod Tables
pub mod RoundTrip
use smsgate.Base.{
  ℕ, ◌==◌, ltb, if◌then◌else◌, Bool, true, false, List, [], ◌∷◌, ◌++◌, Option, none, some, ◌>>=◌,
  Text, get_elem?,
}
use Tables.{gsm7, gsm7_extension, encode_gsm7_char}

-- The characters of one septet; an index past the table does not occur below 128.
unfoldable pub gsm7_char : ℕ → Text
unfolding gsm7
gsm7_char s = elim (get_elem? gsm7 s) [ none ↦ [] | some c ↦ c ∷ [] ]

-- `escaped` says whether the septet before was an escape.
unfoldable pub decode_septets : Bool → List ℕ → Text
unfolding gsm7_char gsm7_extension
decode_septets escaped [] = []
decode_septets true (s ∷ septets) = gsm7_extension s ∷ decode_septets false septets
decode_septets false (s ∷ septets) =
    let rest = decode_septets (s == 0x1B) septets in
    if s == 0x1B then rest else if ltb s 128 then gsm7_char s ++ rest else rest

unfoldable pub gsm7_septets_to_utf8 : List ℕ → Text
gsm7_septets_to_utf8 septets = decode_septets false septets

unfoldable pub is_gsm7_compatible : Text → Bool
is_gsm7_compatible [] = true
is_gsm7_compatible (c ∷ s) = elim (encode_gsm7_char c) [
  | [] ↦ false
  | x ∷ xs ↦ is_gsm7_compatible s
]

unfoldable pub encode_gsm7_body : Text → Option (List ℕ)
encode_gsm7_body [] = some []
encode_gsm7_body (c ∷ s) = elim (encode_gsm7_char c) [
  | [] ↦ none
  | x ∷ xs ↦ do out ← encode_gsm7_body s; some ((x ∷ xs) ++ out)
]
