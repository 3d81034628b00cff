-- ===== src/Sms/Codec/Phone/Laws.antt =====
-- The normal forms and the shown forms of phone numbers, of src/sms/codec.rs.
use smsgate.Base.{
  ℕ, zero, suc, ◌-◌, ◌≤◌, ◌<◌, ◌≡◌, refl, ◌∙◌, ap, inl, inr, ◌==◌, ◌&&◌, ◌||◌, Bool-cases, Bool,
  true, false, [], ◌∷◌, ◌++◌, none, some, Text, codes, bytes, encode_utf8, All, All-drop, retain,
  retain-Passes, retain-All, retain_none, any, all, length, take, drop, length-drop, is_ascii_digit,
  text_eq, arith,
}
use smsgate.Sms.Codec.Phone.{
  starts_with, normalize_phone, split_bytes, grouped, after_country_code, human_readable_phone,
}

abbrev pub is_phone_char : ℕ → Bool
is_phone_char c = c == 0x2B || is_ascii_digit c

-- Normalising a number twice changes nothing more.
pub normalize_phone_idem :
    (raw : Text) → normalize_phone (normalize_phone raw) ≡ normalize_phone raw
unfolding normalize_phone starts_with text_eq retain
normalize_phone_idem raw =
    let out = retain is_phone_char raw in
    let passes = retain-Passes is_phone_char raw in
    elim (Bool-cases (starts_with (codes "00") out)) [
      | inl e ↦ rw e (
          ap (◌∷◌ 0x2B) (
            retain-All is_phone_char (drop 2 out)
              (All-drop (λ c. is_phone_char c ≡ true) 2 out passes)))
      | inr e ↦ rw e (rw (retain-All is_phone_char out passes, e))
    ]

-- A sender without digits or a plus sign, such as a name, has the empty normal form.
pub normalize_phone_name : (raw : Text) → any is_phone_char raw ≡ false → normalize_phone raw ≡ []
unfolding normalize_phone starts_with text_eq
normalize_phone_name raw h = rw (retain_none is_phone_char raw h)

abbrev pub IsAscii : ℕ → Type 0
IsAscii c = c < 0x80

-- Numbers of ASCII characters take a byte for each.
encode_utf8-ascii : (c : ℕ) → IsAscii c → encode_utf8 c ≡ c ∷ []
unfolding encode_utf8
encode_utf8-ascii c h = ground arith

bytes-ascii : (s : Text) → All IsAscii s → bytes s ≡ s
unfolding bytes
bytes-ascii [] h = refl
bytes-ascii (c ∷ s) (hc, h) = rw (encode_utf8-ascii c hc) (ap (◌∷◌ c) (bytes-ascii s h))

split_bytes-ascii :
    (n : ℕ) (s : Text) → All IsAscii s → n ≤ length s → split_bytes n s ≡ some (take n s, drop n s)
unfolding split_bytes
split_bytes-ascii zero s h k = refl
split_bytes-ascii (suc n) [] h k = absurd (omega arith)
split_bytes-ascii (suc n) (c ∷ s) (hc, h) k =
    let one : suc n - 1 ≡ n = omega arith in
    rw (encode_utf8-ascii c hc, one, split_bytes-ascii n s h (omega arith)) (ground arith)

grouped-ascii :
    (s : Text) → All IsAscii s → 7 ≤ length s → (shown : Text) × (grouped s ≡ some shown)
unfolding grouped
grouped-ascii s h k = (
  codes "+86 " ++ (take 3 s ++ (0x2D ∷ take 4 (drop 3 s) ++ (0x2D ∷ drop 4 (drop 3 s)))),
  rw (
    split_bytes-ascii 3 s h (omega arith),
    split_bytes-ascii 4 (drop 3 s) (All-drop IsAscii 3 s h) (omega (arith, length-drop 3 s)),
  ),
)

after_country_code-ascii :
    (s : Text) → All IsAscii s → 3 ≤ length s → after_country_code s ≡ some (drop 3 s)
unfolding after_country_code
after_country_code-ascii s h k = rw (split_bytes-ascii 3 s h k)

-- Every number of ASCII characters can be shown.
pub human_readable_phone-ascii :
    (number : Text)
    → All IsAscii number
    → (shown : Text) × (human_readable_phone number ≡ some shown)
unfolding human_readable_phone
human_readable_phone-ascii number h =
    let size = ap length (bytes-ascii number h) in
    elim (Bool-cases (length (bytes number) == 11 && all is_ascii_digit number)) [
      | inl e ↦ rw e (grouped-ascii number h (ground (arith, size)))
      | inr e ↦
          elim (Bool-cases (length (bytes number) == 14 && starts_with (codes "+86") number)) [
            | inl f ↦
                rw (e, f, after_country_code-ascii number h (ground (arith, size)))
                  (grouped-ascii (drop 3 number) (All-drop IsAscii 3 number h)
                    (ground (arith, size, length-drop 3 number)))
            | inr f ↦ rw (e, f) (number, refl)
          ]
    ]

length-encode_utf8_two : (c : ℕ) → 0x80 ≤ c → c < 0x800 → length (encode_utf8 c) ≡ 2
unfolding encode_utf8
length-encode_utf8_two c h k = ground arith

-- The third byte lies within the second of two characters of two bytes.
split_bytes-two :
    (c d : ℕ) (rest : Text)
    → length (encode_utf8 c) ≡ 2
    → length (encode_utf8 d) ≡ 2
    → split_bytes 3 (c ∷ d ∷ rest) ≡ none
unfolding split_bytes
split_bytes-two c d rest hc hd = rw (hc, hd)

grouped-none : (s : Text) → split_bytes 3 s ≡ none → grouped s ≡ none
unfolding grouped
grouped-none s h = rw h

after_country_code-prefix : (s : Text) → after_country_code (codes "+86" ++ s) ≡ some s
unfolding after_country_code split_bytes encode_utf8
after_country_code-prefix s = refl

starts_with-prefix : (s : Text) → starts_with (codes "+86") (codes "+86" ++ s) ≡ true
unfolding starts_with text_eq
starts_with-prefix s = refl

human_readable_phone-prefix :
    (s : Text)
    → length (bytes (codes "+86" ++ s)) ≡ 14
    → human_readable_phone (codes "+86" ++ s) ≡ grouped s
unfolding human_readable_phone
human_readable_phone-prefix s size = rw (size, starts_with-prefix s, after_country_code-prefix s)

-- A sender of 14 bytes that begins with the country code and goes on with two characters of two
-- bytes each cannot be shown: the slice for the next three bytes ends within the second one, and
-- the program panics.
pub human_readable_phone_panics :
    (c d : ℕ) (rest : Text)
    → 0x80 ≤ c
    → c < 0x800
    → 0x80 ≤ d
    → d < 0x800
    → length (bytes (codes "+86" ++ (c ∷ d ∷ rest))) ≡ 14
    → human_readable_phone (codes "+86" ++ (c ∷ d ∷ rest)) ≡ none
human_readable_phone_panics c d rest hc kc hd kd size =
    human_readable_phone-prefix (c ∷ d ∷ rest) size
    ∙ grouped-none (c ∷ d ∷ rest)
        (split_bytes-two c d rest (length-encode_utf8_two c hc kc) (length-encode_utf8_two d hd kd))
