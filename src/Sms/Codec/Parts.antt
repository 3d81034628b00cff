-- ===== src/Sms/Codec/Parts.antt =====
-- `count_sms_parts` of src/sms/codec.rs: how many parts a text takes, before it is sent.
use smsgate.Base.{
  ℕ, ◌+◌, ltb, leb, ◌==◌, if◌then◌else◌, List, [], ◌∷◌, Option, none, some, ◌>>=◌, Text, length,
}
use smsgate.Sms.Codec.Gsm7.Tables.{encode_gsm7_char}
use smsgate.Sms.Codec.Ucs2.{encode_utf16}

-- How many septets each character takes; a text with another character has none.
unfoldable pub septet_counts : Text → Option (List ℕ)
septet_counts [] = some []
septet_counts (c ∷ s) = do
  rest ← septet_counts s
  let septets = length (encode_gsm7_char c)
  if septets == 0 then none else some (septets ∷ rest)

-- `char::len_utf16` of each character.
unfoldable pub unit_counts : Text → List ℕ
unfolding encode_utf16
unit_counts [] = []
unit_counts (c ∷ s) = length (encode_utf16 c) ∷ unit_counts s

unfoldable pub sum : List ℕ → ℕ
sum [] = 0
sum (n ∷ ns) = n + sum ns

-- The second loop: a character that no longer fits begins a part.
unfoldable pub parts_from : ℕ → ℕ → ℕ → List ℕ → ℕ
parts_from limit parts used [] = parts
parts_from limit parts used (n ∷ ns) =
    if ltb limit (used + n)
    then parts_from limit (parts + 1) n ns
    else parts_from limit parts (used + n) ns

unfoldable pub count_gsm7_parts : Text → Option ℕ
unfolding septet_counts sum parts_from
count_gsm7_parts body = do
  counts ← septet_counts body
  some (if leb (sum counts) 160 then 1 else parts_from 153 1 0 counts)

unfoldable pub count_ucs2_parts : Text → ℕ
unfolding unit_counts sum parts_from
count_ucs2_parts body =
    let counts = unit_counts body in if leb (sum counts) 70 then 1 else parts_from 67 1 0 counts

unfoldable pub within : ℕ → ℕ → ℕ
within max_parts parts = if leb parts max_parts then parts else 0

unfoldable pub count_sms_parts : Text → ℕ → ℕ
unfolding count_gsm7_parts count_ucs2_parts within
count_sms_parts body max_parts = if length body == 0 then 0 else (elim (count_gsm7_parts body) [
  | some parts ↦ within max_parts parts
  | none ↦ within max_parts (count_ucs2_parts body)
])
