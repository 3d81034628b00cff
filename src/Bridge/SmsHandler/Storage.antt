-- ===== src/Bridge/SmsHandler/Storage.antt =====
-- The modem's message storage, read and deleted by AT commands: src/bridge/sms_handler.rs.
-- `DefaultHasher` is the parameter `hash`: a function of the PDU and the decoded message.
pub mod Verified
use smsgate.Base.{
  ℕ, suc, ◌+◌, ltb, leb, ◌==◌, in_range, not, ◌&&◌, ◌||◌, if◌then◌else◌, Bool, true, false, List,
  [], ◌∷◌, ◌++◌, Option, none, some, ◌>>=◌, Text, codes, text_eq, bytes, length, take, map, all,
  any, retain, trim, lines, has_prefix, strip_prefix, contains, decimal_text, parse_uint, concat,
  is_ascii_digit, split, get_or,
}
use smsgate.Modem.{
  AtTransport, AtReply, answered, failed, AtResponse, ModemError, at_error, interrupted_for_call,
  error_text,
}
use smsgate.Sms.Pdu.{SmsMessage}
use smsgate.Sms.Concat.Group.{StorageSlot}
use smsgate.Bridge.SmsHandler.Fields.{csv_fields, is_pdu_hex_line, decode_modem_text}

abbrev pub max_sms_indexes : ℕ
max_sms_indexes = 1024

pub data SmsReadError : Type 0 where
  invalid_storage : SmsReadError
  pdu_mode : Text → SmsReadError
  select_failed : Text → SmsReadError
  read_slot : Text → SmsReadError
  malformed_slot : SmsReadError
  list_failed : Text → SmsReadError
  malformed_list : SmsReadError
  list_too_large : SmsReadError
  interrupted : SmsReadError
  delete_slot : Text → SmsReadError

-- A value, or what went wrong.
pub data Outcome {ℓ κ} (E : Type ℓ) (A : Type κ) : Type (ℓ ⊔ κ) where
  done : A → Outcome E A
  fails : E → Outcome E A

abbrev pub map_err {ℓ κ μ} :
    {E : Type ℓ} {F : Type κ} {A : Type μ} → (E → F) → Outcome E A → Outcome F A
map_err f (done a) = done a
map_err f (fails e) = fails (f e)

pub record StoredSms : Type 0 where
  pub mem : Text
  pub index : ℕ
  pub pdu_hex : Text
  pub decoded : Option SmsMessage

abbrev pub pdu_entry : Text → ℕ → Text → StoredSms
pdu_entry mem index pdu_hex = record { mem = mem; index = index; pdu_hex = pdu_hex; decoded = none }

abbrev pub decoded_entry : Text → ℕ → Text → Text → Text → StoredSms
decoded_entry mem index sender timestamp body = record {
  mem = mem;
  index = index;
  pdu_hex = [];
  decoded = some (record { sender = sender; body = body; timestamp = timestamp; slot = index });
}

unfoldable pub storage_slot : (Text → Option SmsMessage → ℕ) → StoredSms → StorageSlot
storage_slot hash stored = record {
  mem = stored.mem;
  index = stored.index;
  fingerprint = hash stored.pdu_hex stored.decoded;
}

abbrev pub is_error_line : Text → Bool
is_error_line line =
    text_eq line (codes "ERROR")
    || has_prefix (codes "+CME ERROR:") line
    || has_prefix (codes "+CMS ERROR:") line

-- The first error line, of at most 80 characters.
unfoldable pub first_error : List Text → Text
unfolding text_eq has_prefix
first_error [] = codes "modem rejected command"
first_error (line ∷ rest) = if is_error_line line then take 80 line else first_error rest

unfoldable pub safe_at_error : Text → Text
unfolding lines trim first_error
safe_at_error body = first_error (map trim (lines body))

unfoldable pub checked_response : AtReply → Outcome Text AtResponse
unfolding safe_at_error error_text
checked_response (answered response) =
    if response.ok then done response else fails (safe_at_error response.body)
checked_response (failed (at_error detail)) = fails (safe_at_error detail)
checked_response (failed error) = fails (error_text error)

-- The lines that are not empty, without white space around them.
unfoldable pub body_lines : Text → List Text
unfolding lines trim retain
body_lines body = retain (λ line. not (length line == 0)) (map trim (lines body))

-- `lines.find(is_pdu_hex_line)`.
unfoldable pub find_hex : List Text → Option Text
unfolding is_pdu_hex_line
find_hex [] = none
find_hex (line ∷ rest) = if is_pdu_hex_line line then some line else find_hex rest

-- The lines with line feeds between them.
unfoldable pub joined : List Text → Text
joined [] = []
joined (line ∷ []) = line
joined (line ∷ next ∷ rest) = line ++ (0x0A ∷ joined (next ∷ rest))

-- The text-mode answer: status, sender, name and time, and the message on the lines below.
unfoldable pub cmgr_text : Text → ℕ → List Text → List Text → Option StoredSms
unfolding decode_modem_text joined
cmgr_text mem index (status ∷ sender ∷ alpha ∷ timestamp ∷ more) rest =
    some (
      decoded_entry mem index (decode_modem_text sender) timestamp
        (decode_modem_text (joined rest)))
cmgr_text mem index _ rest = none

unfoldable pub cmgr_entry : Text → ℕ → Text → List Text → Option StoredSms
unfolding csv_fields cmgr_text find_hex has_prefix
cmgr_entry mem index header rest =
    if has_prefix (0x22 ∷ []) header
    then cmgr_text mem index (csv_fields header) rest
    else (do hex ← find_hex rest; some (pdu_entry mem index hex))

unfoldable pub cmgr_lines : Text → ℕ → List Text → Option StoredSms
unfolding strip_prefix trim cmgr_entry
cmgr_lines mem index [] = none
cmgr_lines mem index (line ∷ rest) = elim (strip_prefix (codes "+CMGR:") line) [
  | none ↦ cmgr_lines mem index rest
  | some header ↦ cmgr_entry mem index (trim header) rest
]

unfoldable pub parse_cmgr_response : Text → ℕ → Text → Option StoredSms
unfolding body_lines cmgr_lines
parse_cmgr_response mem index body = cmgr_lines mem index (body_lines body)

abbrev pub is_storage_name : Text → Bool
is_storage_name mem =
    in_range 1 4 (length (bytes mem)) && all (λ b. in_range 0x41 0x5A b) (bytes mem)

pub data VerifiedDeletion : Type 0 where
  deleted : VerifiedDeletion
  slot_changed : VerifiedDeletion

abbrev pub same_slot : StorageSlot → StorageSlot → Bool
same_slot a b = text_eq a.mem b.mem && a.index == b.index && a.fingerprint == b.fingerprint

abbrev pub malformed_unless : Option StoredSms → Outcome SmsReadError StoredSms
malformed_unless none = fails malformed_slot
malformed_unless (some stored) = done stored

module _ {ℓ} {M : Type ℓ} (at : AtTransport M) where
  unfoldable pub checked_at : M → Text → M × Outcome Text AtResponse
  unfolding checked_response
  checked_at m command = let (m', reply) = at.send_at m command in (m', checked_response reply)

module _ {ℓ} {M : Type ℓ} (at : AtTransport M) where
  -- `operation(...)?` and then the rest, with the modem handed through.
  abbrev pub and_then {κ μ} :
      {A : Type κ} {B : Type μ}
      → M × Outcome SmsReadError A
      → (M → A → M × Outcome SmsReadError B)
      → M × Outcome SmsReadError B
  and_then (m, done a) next = next m a
  and_then (m, fails e) next = (m, fails e)

  -- A command whose answer must be OK.
  unfoldable pub command : (Text → SmsReadError) → M → Text → M × Outcome SmsReadError AtResponse
  unfolding checked_at
  command error m text = let (m', reply) = checked_at at m text in (m', map_err error reply)

  unfoldable pub ensure_pdu_mode : M → M × Outcome SmsReadError AtResponse
  unfolding command
  ensure_pdu_mode m = command pdu_mode m (codes "+CMGF=0")

  unfoldable pub select_storage : Text → M → M × Outcome SmsReadError AtResponse
  unfolding command bytes all
  select_storage mem m =
      if is_storage_name mem
      then command select_failed m (codes "+CPMS=\"" ++ (mem ++ codes "\""))
      else (m, fails invalid_storage)

  unfoldable pub read_new_sms_pdu : Text → ℕ → M → M × Outcome SmsReadError StoredSms
  unfolding ensure_pdu_mode select_storage command parse_cmgr_response decimal_text
  read_new_sms_pdu mem index m = and_then (ensure_pdu_mode m) λ m1 mode.
      and_then (select_storage mem m1) λ m2 selected.
        and_then (command read_slot m2 (codes "+CMGR=" ++ decimal_text index))
          λ m3 resp. (m3, malformed_unless (parse_cmgr_response mem index resp.body))

  unfoldable pub delete_at : ℕ → M → M × Outcome SmsReadError AtResponse
  unfolding command decimal_text
  delete_at index m = command delete_slot m (codes "+CMGD=" ++ decimal_text index)

  unfoldable pub delete_sms_slot : Text → ℕ → M → M × Outcome SmsReadError AtResponse
  unfolding select_storage delete_at
  delete_sms_slot mem index m = and_then (select_storage mem m) λ m1 selected. delete_at index m1

  unfoldable pub delete_verified_sms_slot :
      (Text → Option SmsMessage → ℕ) → StorageSlot → M → M × Outcome SmsReadError VerifiedDeletion
  unfolding read_new_sms_pdu storage_slot text_eq delete_at
  delete_verified_sms_slot hash expected m =
      and_then (read_new_sms_pdu expected.mem expected.index m) λ m1 current.
        if same_slot (storage_slot hash current) expected
        then and_then (delete_at expected.index m1) (λ m2 response. (m2, done deleted))
        else (m1, done slot_changed)

  -- Each index in turn; a deletion that fails does not stop the rest.
  unfoldable pub delete_each : List ℕ → M → M × List (Outcome SmsReadError AtResponse)
  unfolding delete_at
  delete_each [] m = (m, [])
  delete_each (index ∷ rest) m =
      let (m1, result) = delete_at index m in
      let (m2, results) = delete_each rest m1 in (m2, result ∷ results)

  unfoldable pub delete_sms_slots :
      Text → List ℕ → M → M × Outcome SmsReadError (List (Outcome SmsReadError AtResponse))
  unfolding select_storage delete_each
  delete_sms_slots mem indices m =
      and_then (select_storage mem m)
        λ m1 selected. let (m2, results) = delete_each indices m1 in (m2, done results)
