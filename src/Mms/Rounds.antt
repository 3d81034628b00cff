-- ===== src/Mms/Rounds.antt =====
-- The loop over the headers of a multimedia notice, of src/mms.rs.
use smsgate.Base.{
  ℕ, zero, suc, ◌+◌, ◌^◌, ◌≤◌, ◌≡◌, refl, inl, inr, ltb, leb, ◌==◌, bit_and, not, ◌||◌,
  if◌then◌else◌, Bool-cases, Option-cases, Bool, true, false, List, Option, none, some, length,
  get_elem?, take, arith, get_elem?-lt,
}
use smsgate.Mms.{
  Read, read_u8, take_bytes, read_uintvar_from, read_uintvar, to_usize, read_value_length,
  number_of, read_integer_value, expiry_value, read_expiry_within, read_expiry_value, text_from,
  read_text_string, skip_text, skip_text_or_value, message_type, is_skipped, header_step,
  read_headers, Headers, Round,
}

-- A reader never goes back.
read_uintvar_from-le :
    (rounds : ℕ) (bs : List ℕ) (pos value : ℕ) → pos ≤ (read_uintvar_from rounds bs pos value).0
unfolding read_uintvar_from
read_uintvar_from-le zero bs pos value = omega arith
read_uintvar_from-le (suc rounds) bs pos value = elim (Option-cases (get_elem? bs pos)) [
  | inl e ↦ rw (e, read_uintvar_from) (omega arith)
  | inr (b, e) ↦ elim (Bool-cases (bit_and b 0x80 == 0)) [
    | inl z ↦ rw (e, z, read_uintvar_from) (omega arith)
    | inr z ↦
        rw (e, z, read_uintvar_from) (omega (arith, read_uintvar_from-le rounds bs (suc pos) _))
  ]
]

to_usize-pos : (w : ℕ) (r : Read ℕ) → (to_usize w r).0 ≡ r.0
unfolding to_usize
to_usize-pos w (pos, none) = refl
to_usize-pos w (pos, some v) = refl

read_value_length-le : (w : ℕ) (bs : List ℕ) (pos : ℕ) → pos ≤ (read_value_length w bs pos).0
unfolding read_value_length read_uintvar
read_value_length-le w bs pos =
    ground
      (arith, to_usize-pos w (read_uintvar bs (suc pos)), read_uintvar_from-le 5 bs (suc pos) 0)

take_bytes-le : (w : ℕ) (bs : List ℕ) (pos len : ℕ) → pos ≤ (take_bytes w bs pos len).0
unfolding take_bytes
take_bytes-le w bs pos len = ground arith

number_of-pos : (r : Read (List ℕ)) → (number_of r).0 ≡ r.0
unfolding number_of
number_of-pos (pos, none) = refl
number_of-pos (pos, some raw) = refl

read_integer_value-le : (w : ℕ) (bs : List ℕ) (pos : ℕ) → pos ≤ (read_integer_value w bs pos).0
unfolding read_integer_value
read_integer_value-le w bs pos = ground (
  arith,
  λ (len : ℕ). number_of-pos (take_bytes w bs (suc pos) len),
  λ (len : ℕ). take_bytes-le w bs (suc pos) len,
)

expiry_value-le :
    (pos end token : ℕ) (r : Read ℕ) → pos ≤ end → pos ≤ r.0 → pos ≤ (expiry_value end token r).0
unfolding expiry_value
expiry_value-le pos end token (p, none) h k = k
expiry_value-le pos end token (p, some v) h k = h

read_expiry_within-le :
    (w : ℕ) (bs : List ℕ) (pos end : ℕ) → pos ≤ (read_expiry_within w bs pos end).0
unfolding read_expiry_within
read_expiry_within-le w bs pos end =
    elim (Bool-cases (not (ltb end (2 ^ w)) || ltb (length bs) end || leb end pos)) [
      | inl e ↦ rw (e, read_expiry_within) (omega arith)
      | inr e ↦ elim (Option-cases (get_elem? bs pos)) [
        | inl g ↦ rw (e, g, read_expiry_within) (omega arith)
        | inr (token, g) ↦
            let later = read_integer_value-le w (take end bs) (suc pos) in
            rw (e, g, read_expiry_within)
              (expiry_value-le pos end token (read_integer_value w (take end bs) (suc pos))
                (ground arith) (omega arith))
      ]
    ]

read_expiry_value-le : (w : ℕ) (bs : List ℕ) (pos : ℕ) → pos ≤ (read_expiry_value w bs pos).0
unfolding read_expiry_value
read_expiry_value-le w bs pos =
    let p = (read_value_length w bs pos).0 in
    ground
      (arith, read_value_length-le w bs pos, λ (len : ℕ). read_expiry_within-le w bs p (p + len))

text_from-le : (bs : List ℕ) (start : ℕ) → start ≤ length bs → start ≤ (text_from bs start).0
unfolding text_from
text_from-le bs start h = ground arith

read_text_string-le : (bs : List ℕ) (pos : ℕ) → pos ≤ (read_text_string bs pos).0
unfolding read_text_string
read_text_string-le bs pos = elim (Option-cases (get_elem? bs pos)) [
  | inl e ↦ rw (e, read_text_string) (omega arith)
  | inr (b, e) ↦
      let inside = get_elem?-lt bs pos b e in
      rw (e, read_text_string)
        (ground (arith, text_from-le bs pos, text_from-le bs (suc pos), inside))
]

skip_text-le : (bs : List ℕ) (pos : ℕ) → pos ≤ (skip_text bs pos).0
unfolding skip_text
skip_text-le bs pos = ground (arith, read_text_string-le bs pos)

skip_text_or_value-le : (w : ℕ) (bs : List ℕ) (pos : ℕ) → pos ≤ (skip_text_or_value w bs pos).0
unfolding skip_text_or_value
skip_text_or_value-le w bs pos = ground (arith, read_value_length-le w bs pos, skip_text-le bs pos)

-- A round that goes on begins at `pos` or further.
abbrev Onward : ℕ → Option Round → Type 0
Onward pos none = Unit
Onward pos (some r) = pos ≤ r.pos

message_type-Onward : (bs : List ℕ) (pos : ℕ) (h : Headers) → Onward pos (message_type bs pos h)
unfolding message_type
message_type-Onward bs pos h = elim (Option-cases (get_elem? bs pos)) [
  | inl e ↦ rw (e, message_type) tt
  | inr (b, e) ↦ rw (e, message_type) (omega arith)
]

read_u8-le : (bs : List ℕ) (pos : ℕ) → pos ≤ (read_u8 bs pos).0
unfolding read_u8
read_u8-le bs pos = ground arith

module _ (pos : ℕ) where
  either :
      (b : Bool) (x y : Option Round)
      → Onward pos x
      → Onward pos y
      → Onward pos (if b then x else y)
  either true x y p q = p
  either false x y p q = q

header_step-Onward :
    (w : ℕ) (bs : List ℕ) (header pos : ℕ) (h : Headers)
    → Onward pos (header_step w bs header pos h)
unfolding header_step
header_step-Onward w bs header pos h =
    either pos (header == 0x8C) _ _ (message_type-Onward bs pos h) (
      either pos (header == 0x83) _ _ (read_text_string-le bs pos) (
        either pos (header == 0x8E) _ _ (read_integer_value-le w bs pos) (
          either pos (header == 0x88) _ _ (read_expiry_value-le w bs pos) (
            either pos (is_skipped header) _ _ (skip_text_or_value-le w bs pos) (
              either pos (header == 0x8D || header == 0x95) _ _ (read_u8-le bs pos)
                (skip_text_or_value-le w bs pos))))))

header_step-le :
    (w : ℕ) (bs : List ℕ) (header pos : ℕ) (h : Headers) (r : Round)
    → header_step w bs header pos h ≡ some r
    → pos ≤ r.pos
header_step-le w bs header pos h r e = rw e at (header_step-Onward w bs header pos h)

past_end : (bs : List ℕ) (pos : ℕ) → length bs ≤ pos → get_elem? bs pos ≡ none
past_end bs pos h = elim (Option-cases (get_elem? bs pos)) [
  | inl e ↦ e
  | inr (b, e) ↦ absurd (omega (arith, get_elem?-lt bs pos b e))
]

-- The loop as a finite run of rounds: from a position and the headers read so far to its result.
pub data Run (w : ℕ) (bs : List ℕ) : ℕ → Headers → Option Headers → Type 0 where
  at_end : {pos : ℕ} {h : Headers} → get_elem? bs pos ≡ none → Run w bs pos h (some h)
  gives_up :
      {pos : ℕ} {h : Headers} (header : ℕ)
      → get_elem? bs pos ≡ some header
      → header_step w bs header (suc pos) h ≡ none
      → Run w bs pos h none
  stops :
      {pos : ℕ} {h : Headers} (header : ℕ) (r : Round)
      → get_elem? bs pos ≡ some header
      → header_step w bs header (suc pos) h ≡ some r
      → r.more ≡ false
      → Run w bs pos h (some r.headers)
  goes_on :
      {pos : ℕ} {h : Headers} {result : Option Headers} (header : ℕ) (r : Round)
      → get_elem? bs pos ≡ some header
      → header_step w bs header (suc pos) h ≡ some r
      → r.more ≡ true
      → Run w bs r.pos r.headers result
      → Run w bs pos h result

-- The loop over the headers ends by itself: with as many rounds as there are bytes left, its result
-- is that of a finite run, which comes to the end of the bytes, to a header that ends the loop, or
-- to one that gives the notice up.
pub read_headers-Run :
    (fuel w : ℕ) (bs : List ℕ) (pos : ℕ) (h : Headers)
    → length bs ≤ pos + fuel
    → Run w bs pos h (read_headers fuel w bs pos h)
unfolding read_headers
read_headers-Run zero w bs pos h a = Run.at_end (past_end bs pos (omega arith))
read_headers-Run (suc fuel) w bs pos h a = elim (Option-cases (get_elem? bs pos)) [
  | inl e ↦ rw (e, read_headers) (Run.at_end e)
  | inr (header, e) ↦ elim (Option-cases (header_step w bs header (suc pos) h)) [
    | inl f ↦ rw (e, f, read_headers) (Run.gives_up header e f)
    | inr (r, f) ↦
        let on = header_step-le w bs header (suc pos) h r f in
        let ih = read_headers-Run fuel w bs r.pos r.headers (omega arith) in
        elim (Bool-cases r.more) [
          | inl g ↦ rw (e, f, g, read_headers) (Run.goes_on header r e f g ih)
          | inr g ↦ rw (e, f, g, read_headers) (Run.stops header r e f g)
        ]
  ]
]
