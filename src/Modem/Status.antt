-- ===== src/Modem/Status.antt =====
-- The registration with the network: src/modem/status.rs, and the status of src/modem/mod.rs.
pub mod Bounds
use smsgate.Base.{
  ℕ, ◌+◌, ◌==◌, ltb, not, ◌&&◌, ◌||◌, if◌then◌else◌, Bool, true, false, List, [], ◌∷◌, ◌++◌, Option,
  none, some, ◌>>=◌, Text, codes, length, map, min, trim, lines, has_prefix, strip_prefix, split,
  parse_uint, decimal_text, get_elem?, bytes, encode_utf8, leb, ◌-◌, suc, zero,
}
use smsgate.Modem.{AtResponse, AtReply, answered, failed, ModemError, error_text}

pub data RegistrationDomain : Type 0 where
  circuit eps : RegistrationDomain

abbrev pub command : RegistrationDomain → Text
command circuit = codes "+CREG?"
command eps = codes "+CEREG?"

abbrev pub prefix : RegistrationDomain → Text
prefix circuit = codes "+CREG:"
prefix eps = codes "+CEREG:"

abbrev pub is_eps : RegistrationDomain → Bool
is_eps circuit = false
is_eps eps = true

-- `none` for a missing number or error.
pub record RegistrationQuery : Type 0 where
  pub domain : RegistrationDomain
  pub stat : Option ℕ
  pub response : Text
  pub elapsed_ms : ℕ
  pub error : Option Text

-- `floor_char_boundary` and the slice up to it: as many characters as fit in `n` bytes.
unfoldable pub floor_prefix : ℕ → Text → Text
unfolding encode_utf8
floor_prefix n [] = []
floor_prefix n (c ∷ s) =
    let size = length (encode_utf8 c) in
    let rest = floor_prefix (n - size) s in if leb size n then c ∷ rest else []

abbrev pub blank_of : (ℕ → Bool) → ℕ → ℕ
blank_of test c = if test c then 0x20 else c

unfoldable pub bounded_reply : Text → Text
unfolding floor_prefix
bounded_reply text = map (blank_of (λ c. c == 0x0D || c == 0x0A)) (floor_prefix 128 text)

-- The first line that has the prefix, with what stands behind it.
unfoldable pub find_fields : Text → List Text → Option Text
unfolding trim strip_prefix
find_fields prefix [] = none
find_fields prefix (line ∷ rest) = elim (strip_prefix prefix (trim line)) [
  | none ↦ find_fields prefix rest
  | some fields ↦ some fields
]

unfoldable pub parse_registration_stat : Text → Text → Option ℕ
unfolding find_fields lines split trim parse_uint
parse_registration_stat body prefix = do
  fields ← find_fields prefix (lines body)
  stat ← get_elem? (split 0x2C fields) 1
  parse_uint 255 (trim stat)

unfoldable pub registered_for_stat : ℕ → Option Bool
registered_for_stat stat =
    if stat == 1 || stat == 5 || stat == 6 || stat == 7
    then some true
    else if stat == 0 || stat == 2 || stat == 3 || stat == 11
    then some false
    else none

-- The first line that holds the prefix, or the whole body.
unfoldable pub find_line : Text → Text → List Text → Text
unfolding trim has_prefix
find_line body prefix [] = trim body
find_line body prefix (line ∷ rest) =
    if has_prefix prefix (trim line) then line else find_line body prefix rest

-- The command without the question mark.
abbrev pub bare_command : RegistrationDomain → Text
bare_command circuit = codes "+CREG"
bare_command eps = codes "+CEREG"

abbrev pub invalid_unless : RegistrationDomain → Option ℕ → Option Text
invalid_unless domain (some stat) = none
invalid_unless domain none = some (codes "invalid " ++ (bare_command domain ++ codes " response"))

-- The time is given in milliseconds, as `elapsed_ms` has it.
unfoldable pub from_response : RegistrationDomain → AtReply → ℕ → RegistrationQuery
unfolding find_line bounded_reply trim lines parse_registration_stat error_text
from_response domain (failed error) elapsed = record {
  domain = domain;
  stat = none;
  response = [];
  elapsed_ms = min elapsed 4_294_967_295;
  error = some (error_text error);
}
from_response domain (answered response) elapsed =
    let stat = parse_registration_stat response.body (prefix domain) in
    let line = find_line response.body (prefix domain) (lines response.body) in
    record {
      domain = domain;
      stat = if response.ok then stat else none;
      response = bounded_reply (trim line);
      elapsed_ms = min elapsed 4_294_967_295;
      error =
          if response.ok
          then invalid_unless domain stat
          else some (codes "AT" ++ (command domain ++ codes " rejected"));
    }

abbrev pub is_sms_stat : Option ℕ → Bool
is_sms_stat none = false
is_sms_stat (some stat) = stat == 6 || stat == 7

abbrev pub has_error : Option Text → Bool
has_error none = false
has_error (some error) = true

unfoldable pub registered : RegistrationQuery → Option Bool
unfolding registered_for_stat
registered q =
    if has_error q.error || (is_eps q.domain && is_sms_stat q.stat)
    then none
    else q.stat >>= registered_for_stat

unfoldable pub sms_only : RegistrationQuery → Bool
sms_only q = not (is_eps q.domain) && not (has_error q.error) && is_sms_stat q.stat

abbrev pub reply_of : Text → Text
reply_of [] = codes "no response"
reply_of (c ∷ s) = c ∷ s

unfoldable pub stat_text : Option ℕ → Text
unfolding decimal_text
stat_text none = codes "?"
stat_text (some stat) = decimal_text stat

abbrev pub detail_of : Option Text → Text → Text
detail_of none reply = reply
detail_of (some error) reply = error ++ (codes "; " ++ reply)

abbrev pub is_expanded : ℕ → Bool
is_expanded c = c == 0x5C || c == 0x09 || c == 0x0D || c == 0x0A

-- At most 76 bytes, with an ellipsis if there are more.
unfoldable pub abridged : Text → Text
unfolding floor_prefix bytes
abridged whole =
    if ltb 76 (length (bytes whole)) then floor_prefix 73 whole ++ codes "..." else whole

unfoldable pub diagnostic : RegistrationQuery → Text
unfolding abridged stat_text decimal_text
diagnostic q = abridged (
    map (blank_of is_expanded) (
      command q.domain
      ++ (codes " stat="
          ++ (stat_text q.stat
              ++ (0x20
                  ∷ (decimal_text q.elapsed_ms
                      ++ (codes "ms: " ++ detail_of q.error (reply_of q.response))))))))

pub record ModemStatus : Type 0 where
  pub csq : ℕ
  pub csq_error : Option Text
  pub csq_elapsed_ms : ℕ
  pub operator : Text
  pub registration : RegistrationQuery

abbrev pub csq_unknown : ℕ
csq_unknown = 99
