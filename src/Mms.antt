-- ===== src/Mms.antt =====
-- src/mms.rs: the notice of a multimedia message, in a WAP push. A reader takes the position and
-- gives the one behind what it read, which moves on also where nothing can be made of it. A usize
-- has `w` bits.
pub mod Rounds
use smsgate.Base.{
  ℕ, zero, suc, ◌+◌, ◌-◌, ◌*◌, ◌^◌, min, bit_and, bit_or, ltb, leb, ◌==◌, not, ◌&&◌, ◌||◌,
  if◌then◌else◌, Bool, true, false, List, [], ◌∷◌, Option, none, some, ◌>>=◌, Text, codes, text_eq,
  from_utf8, length, get_elem?, take, drop, has_prefix, contains,
}
use smsgate.Sms.Pdu.{SmsPdu}

pub data MmsExpiry : Type 0 where
  absolute_unix_seconds : ℕ → MmsExpiry
  relative_seconds : ℕ → MmsExpiry

pub record MmsNotification : Type 0 where
  pub content_location : Text
  pub message_size : Option ℕ
  pub expiry : Option MmsExpiry

abbrev pub Read : Type 0 → Type 0
Read A = ℕ × Option A

unfoldable pub read_u8 : List ℕ → ℕ → Read ℕ
read_u8 bs pos = elim (get_elem? bs pos) [ none ↦ (pos, none) | some b ↦ (suc pos, some b) ]

-- `bytes.get(pos..pos + len)`.
unfoldable pub take_bytes : ℕ → List ℕ → ℕ → ℕ → Read (List ℕ)
take_bytes w bs pos len =
    if ltb (pos + len) (2 ^ w) && leb (pos + len) (length bs)
    then (pos + len, some (take len (drop pos bs)))
    else (pos, none)

-- At most five bytes of seven bits.
unfoldable pub read_uintvar_from : ℕ → List ℕ → ℕ → ℕ → Read ℕ
read_uintvar_from zero bs pos value = (pos, none)
read_uintvar_from (suc rounds) bs pos value = elim (get_elem? bs pos) [
  | none ↦ (pos, none)
  | some b ↦
      let value' = bit_or (value * 128) (bit_and b 0x7F) in
      let rest = read_uintvar_from rounds bs (suc pos) value' in
      if bit_and b 0x80 == 0 then (suc pos, some value') else rest
]

unfoldable pub read_uintvar : List ℕ → ℕ → Read ℕ
unfolding read_uintvar_from
read_uintvar bs pos = read_uintvar_from 5 bs pos 0

-- `usize::try_from` of what was read.
unfoldable pub to_usize : ℕ → Read ℕ → Read ℕ
to_usize w (pos, none) = (pos, none)
to_usize w (pos, some v) = (pos, if ltb v (2 ^ w) then some v else none)

unfoldable pub read_value_length : ℕ → List ℕ → ℕ → Read ℕ
unfolding read_uintvar to_usize
read_value_length w bs pos = elim (get_elem? bs pos) [
  | none ↦ (pos, none)
  | some first ↦
      if leb first 30
      then (suc pos, some first)
      else if first == 31
      then to_usize w (read_uintvar bs (suc pos))
      else (suc pos, none)
]

unfoldable pub big_endian : ℕ → List ℕ → ℕ
big_endian acc [] = acc
big_endian acc (b ∷ bs) = big_endian (bit_or (acc * 256) b) bs

unfoldable pub number_of : Read (List ℕ) → Read ℕ
unfolding big_endian
number_of (pos, none) = (pos, none)
number_of (pos, some raw) = (pos, some (big_endian 0 raw))

unfoldable pub read_integer_value : ℕ → List ℕ → ℕ → Read ℕ
unfolding take_bytes number_of
read_integer_value w bs pos = elim (get_elem? bs pos) [
  | none ↦ (pos, none)
  | some first ↦
      if not (bit_and first 0x80 == 0)
      then (suc pos, some (bit_and first 0x7F))
      else if first == 0 || ltb 8 first
      then (suc pos, none)
      else number_of (take_bytes w bs (suc pos) first)
]

abbrev pub expiry_of : ℕ → ℕ → Option MmsExpiry
expiry_of token value =
    if token == 0x80
    then some (absolute_unix_seconds value)
    else if token == 0x81
    then some (relative_seconds value)
    else none

-- The value behind the token, which must end before `end`.
unfoldable pub expiry_value : ℕ → ℕ → Read ℕ → Read MmsExpiry
expiry_value end token (pos, none) = (pos, none)
expiry_value end token (pos, some value) = (end, expiry_of token value)

unfoldable pub read_expiry_within : ℕ → List ℕ → ℕ → ℕ → Read MmsExpiry
unfolding read_integer_value expiry_value
read_expiry_within w bs pos end =
    if not (ltb end (2 ^ w)) || ltb (length bs) end || leb end pos
    then (pos, none)
    else (elim (get_elem? bs pos) [
      | none ↦ (pos, none)
      | some token ↦ expiry_value end token (read_integer_value w (take end bs) (suc pos))
    ])

unfoldable pub read_expiry_value : ℕ → List ℕ → ℕ → Read MmsExpiry
unfolding read_value_length read_expiry_within
read_expiry_value w bs pos =
    let (p, found) = read_value_length w bs pos in
    elim found [ none ↦ (p, none) | some len ↦ read_expiry_within w bs p (p + len) ]

-- How many of the bytes stand before the first NUL, if there is one.
unfoldable pub nul_at : List ℕ → Option ℕ
nul_at [] = none
nul_at (b ∷ bs) = if b == 0 then some 0 else (do n ← nul_at bs; some (suc n))

unfoldable pub text_from : List ℕ → ℕ → Read Text
unfolding nul_at from_utf8
text_from bs start = elim (nul_at (drop start bs)) [
  | none ↦ (length bs, none)
  | some n ↦ elim (from_utf8 (take n (drop start bs))) [
    | none ↦ (start + n, none)
    | some text ↦ (suc (start + n), some text)
  ]
]

unfoldable pub read_text_string : List ℕ → ℕ → Read Text
unfolding text_from
read_text_string bs pos = elim (get_elem? bs pos) [
  | none ↦ (pos, none)
  | some b ↦ if b == 0x7F then text_from bs (suc pos) else text_from bs pos
]

-- A text is skipped, or one byte.
unfoldable pub skip_text : List ℕ → ℕ → ℕ × Bool
unfolding read_text_string
skip_text bs pos =
    let (p, found) = read_text_string bs pos in
    elim found [ none ↦ (suc pos, true) | some text ↦ (p, true) ]

unfoldable pub skip_text_or_value : ℕ → List ℕ → ℕ → ℕ × Bool
unfolding read_value_length skip_text
skip_text_or_value w bs pos =
    let (p, found) = read_value_length w bs pos in
    if leb (length bs) pos then (pos, false) else (elim found [
      | none ↦ skip_text bs pos
      | some len ↦
          if leb (min (p + len) (2 ^ w - 1)) (length bs) then (p + len, true) else skip_text bs pos
    ])

-- What the headers have said so far.
pub record Headers : Type 0 where
  pub is_notification : Bool
  pub content_location : Option Text
  pub message_size : Option ℕ
  pub expiry : Option MmsExpiry

-- Where the next header begins, and whether the loop goes on.
pub record Round : Type 0 where
  pub pos : ℕ
  pub headers : Headers
  pub more : Bool

abbrev pub goes_on : ℕ → Headers → Option Round
goes_on pos h = some (record { pos = pos; headers = h; more = true })

abbrev pub is_skipped : ℕ → Bool
is_skipped header =
    header == 0x98 || header == 0x8B || header == 0x93 || header == 0x96 || header == 0x97

unfoldable pub message_type : List ℕ → ℕ → Headers → Option Round
message_type bs pos h = elim (get_elem? bs pos) [
  | none ↦ none
  | some b ↦ goes_on (suc pos) (record h { is_notification = b == 0x82 })
]

-- One header; `none` where the function gives up.
unfoldable pub header_step : ℕ → List ℕ → ℕ → ℕ → Headers → Option Round
unfolding message_type read_text_string read_integer_value read_expiry_value skip_text_or_value
    read_u8
header_step w bs header pos h =
    if header == 0x8C
    then message_type bs pos h
    else if header == 0x83
    then (let (p, v) = read_text_string bs pos in goes_on p (record h { content_location = v }))
    else if header == 0x8E
    then (let (p, v) = read_integer_value w bs pos in goes_on p (record h { message_size = v }))
    else if header == 0x88
    then (let (p, v) = read_expiry_value w bs pos in goes_on p (record h { expiry = v }))
    else if is_skipped header
    then goes_on (skip_text_or_value w bs pos).0 h
    else if header == 0x8D || header == 0x95
    then goes_on (read_u8 bs pos).0 h
    else (let (p, skipped) = skip_text_or_value w bs pos in
        some (record { pos = p; headers = h; more = skipped }))

-- The `while` over the headers; each takes a byte at least, so as many rounds as there are bytes
-- are enough.
unfoldable pub read_headers : ℕ → ℕ → List ℕ → ℕ → Headers → Option Headers
unfolding header_step
read_headers zero w bs pos h = some h
read_headers (suc fuel) w bs pos h = elim (get_elem? bs pos) [
  | none ↦ some h
  | some header ↦ elim (header_step w bs header (suc pos) h) [
    | none ↦ none
    | some r ↦
        let rest = read_headers fuel w bs r.pos r.headers in if r.more then rest else some r.headers
  ]
]

unfoldable pub is_mms_content_location : Text → Bool
unfolding has_prefix contains
is_mms_content_location s =
    (has_prefix (codes "http://") s || has_prefix (codes "https://") s) && contains s (codes ".mms")

unfoldable pub parse_mms_headers : ℕ → List ℕ → Option MmsNotification
unfolding read_headers is_mms_content_location
parse_mms_headers w bs = do
  h ← read_headers (length bs) w bs 0 (record {
    is_notification = false;
    content_location = none;
    message_size = none;
    expiry = none;
  })
  location ← h.content_location
  if h.is_notification && is_mms_content_location location
      then some
          (record { content_location = location; message_size = h.message_size; expiry = h.expiry })
      else none

abbrev pub mms_mime : Text
mms_mime = codes "application/vnd.wap.mms-message"

unfoldable pub wsp_headers_indicate_mms : List ℕ → Bool
unfolding contains
wsp_headers_indicate_mms [] = false
wsp_headers_indicate_mms (b ∷ headers) = b == 0xBE || contains (b ∷ headers) mms_mime

unfoldable pub parse_wap_push_mms_notification : ℕ → List ℕ → Option MmsNotification
unfolding read_u8 read_uintvar to_usize take_bytes wsp_headers_indicate_mms parse_mms_headers
parse_wap_push_mms_notification w payload = do
  transaction_id ← (read_u8 payload 0).1
  pdu_type ← (read_u8 payload 1).1
  let (pos, found) = to_usize w (read_uintvar payload 2)
  header_len ← found
  headers ← (take_bytes w payload pos header_len).1
  if pdu_type == 0x06 && wsp_headers_indicate_mms headers
      then parse_mms_headers w (drop (pos + header_len) payload)
      else none

unfoldable pub parse_mms_notification_from_sms : ℕ → SmsPdu → Option MmsNotification
unfolding parse_wap_push_mms_notification
parse_mms_notification_from_sms w pdu = do
  port ← pdu.destination_port
  if port == 2948 && pdu.dcs == 0x04
      then parse_wap_push_mms_notification w pdu.user_data_payload
      else none
