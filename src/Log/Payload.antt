-- ===== src/Log/Payload.antt =====
-- An entry as the text that is kept of it: the fields, escaped, with tabs between them: the
-- payload of src/log_ring.rs, for whose size MAX_PAYLOAD_BYTES is 240.
pub mod RoundTrip
pub mod Bounds
use smsgate.Base.{
  ℕ, zero, suc, ◌+◌, ◌-◌, ltb, leb, ◌==◌, ◌||◌, if◌then◌else◌, Bool, true, false, List, [], ◌∷◌,
  ◌++◌, Option, none, some, ◌>>=◌, Text, codes, text_eq, length, bytes, encode_utf8, from_utf8,
  split,
}
use smsgate.Log.Entry.{LogEntry, LogKind, as_str, parse}

abbrev pub flash_log_record_size : ℕ
flash_log_record_size = 256

abbrev pub flash_log_header_size : ℕ
flash_log_header_size = 16

abbrev pub flash_log_payload_size : ℕ
flash_log_payload_size = 240

abbrev pub is_special : ℕ → Bool
is_special c = c == 0x5C || c == 0x09 || c == 0x0A || c == 0x0D

unfoldable pub escaped_len : ℕ → ℕ
unfolding encode_utf8
escaped_len c = if is_special c then 2 else length (encode_utf8 c)

unfoldable pub escaped_field_len : Text → ℕ
unfolding escaped_len
escaped_field_len [] = 0
escaped_field_len (c ∷ input) = escaped_len c + escaped_field_len input

abbrev pub escaped_char : ℕ → Text
escaped_char c =
    if c == 0x5C
    then codes "\\\\"
    else if c == 0x09
    then codes "\\t"
    else if c == 0x0A
    then codes "\\n"
    else if c == 0x0D
    then codes "\\r"
    else c ∷ []

-- What `push_escaped_field` appends.
unfoldable pub escaped_field : Text → Text
escaped_field [] = []
escaped_field (c ∷ input) = escaped_char c ++ escaped_field input

-- What `push_escaped_field_truncated` appends, when `used` bytes of the budget are gone.
unfoldable pub escaped_field_truncated : ℕ → ℕ → Text → Text
unfolding escaped_len
escaped_field_truncated used max_escaped_bytes [] = []
escaped_field_truncated used max_escaped_bytes (c ∷ input) =
    let rest = escaped_field_truncated (used + escaped_len c) max_escaped_bytes input in
    if ltb max_escaped_bytes (used + escaped_len c) then [] else escaped_char c ++ rest

-- What stands for a backslash and the character behind it.
abbrev pub unescaped_pair : ℕ → Text
unescaped_pair c =
    if c == 0x5C
    then 0x5C ∷ []
    else if c == 0x74
    then 0x09 ∷ []
    else if c == 0x6E
    then 0x0A ∷ []
    else if c == 0x72
    then 0x0D ∷ []
    else 0x5C ∷ c ∷ []

unfoldable pub unescape_field : Text → Text
unescape_field [] = []
unescape_field (c ∷ []) = c ∷ []
unescape_field (c ∷ d ∷ s) = elim (c == 0x5C) [
  | true ↦ unescaped_pair d ++ unescape_field s
  | false ↦ c ∷ unescape_field (d ∷ s)
]

abbrev pub flag : Bool → Text
flag b = if b then codes "1" else codes "0"

-- The bytes that all fields but the sender and the text take.
unfoldable pub base_len : LogEntry → ℕ
unfolding escaped_field_len bytes
base_len e =
    1
    + 1
    + length (bytes (as_str e.kind))
    + 1
    + length (bytes (flag e.forwarded))
    + 1
    + escaped_field_len e.timestamp
    + 1
    + 1

-- The bytes for the sender and for the text.
unfoldable pub budgets : ℕ → Text → ℕ × ℕ
unfolding escaped_field_len
budgets available sender =
    let sender_len = escaped_field_len sender in
    if leb sender_len available then (sender_len, available - sender_len) else (available, 0)

unfoldable pub payload_text : LogEntry → ℕ × ℕ → Text
unfolding escaped_field escaped_field_truncated
payload_text e (sender_budget, body_budget) =
    codes "1\t"
    ++ (as_str e.kind
        ++ (0x09 ∷ flag e.forwarded
            ++ (0x09 ∷ escaped_field e.timestamp
                ++ (0x09 ∷ escaped_field_truncated 0 sender_budget e.sender
                    ++ (0x09 ∷ escaped_field_truncated 0 body_budget e.body_preview)))))

-- `none` is the error that the entry is too large.
unfoldable pub encode_payload : LogEntry → Option (List ℕ)
unfolding base_len budgets payload_text bytes
encode_payload e =
    if ltb flash_log_payload_size (base_len e)
    then none
    else some (bytes (payload_text e (budgets (flash_log_payload_size - base_len e) e.sender)))

unfoldable pub decode_fields : List Text → Option LogEntry
unfolding text_eq parse unescape_field
decode_fields (version ∷ kind ∷ forwarded ∷ timestamp ∷ sender ∷ body_preview ∷ []) =
    if text_eq version (codes "1")
    then (do
      k ← parse kind
      some (record {
        kind = k;
        sender = unescape_field sender;
        body_preview = unescape_field body_preview;
        timestamp = unescape_field timestamp;
        forwarded = text_eq forwarded (codes "1");
      }))
    else none
decode_fields _ = none

unfoldable pub decode_payload : List ℕ → Option LogEntry
unfolding from_utf8 split decode_fields
decode_payload bs = do payload ← from_utf8 bs; decode_fields (split 0x09 payload)

unfoldable pub kind_of : List Text → Option LogKind
unfolding text_eq parse
kind_of (version ∷ kind ∷ rest) = if text_eq version (codes "1") then parse kind else none
kind_of _ = none

unfoldable pub record_payload_kind : List ℕ → Option LogKind
unfolding from_utf8 split kind_of
record_payload_kind bs = do payload ← from_utf8 bs; kind_of (split 0x09 payload)
