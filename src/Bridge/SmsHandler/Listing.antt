-- ===== src/Bridge/SmsHandler/Listing.antt =====
-- The lists and batches of stored messages: src/bridge/sms_handler.rs.
use smsgate.Base.{
  ℕ, suc, ltb, ◌==◌, not, ◌&&◌, ◌||◌, if◌then◌else◌, Bool, true, false, List, [], ◌∷◌, ◌++◌, Option,
  none, some, ◌>>=◌, Text, codes, length, all, trim, has_prefix, strip_prefix, contains,
  decimal_text, parse_uint, is_ascii_digit, split,
}
use smsgate.Modem.{AtTransport, AtReply, failed, AtResponse, interrupted_for_call, error_text}
use smsgate.Bridge.SmsHandler.Fields.{csv_fields, is_pdu_hex_line, decode_modem_text}
use smsgate.Bridge.SmsHandler.Storage.{
  SmsReadError, list_failed, malformed_list, list_too_large, interrupted, read_slot, Outcome, done,
  fails, map_err, StoredSms, pdu_entry, decoded_entry, checked_response, checked_at, and_then,
  ensure_pdu_mode, select_storage, body_lines, parse_cmgr_response, malformed_unless,
  max_sms_indexes,
}

pub record StoredSmsIndexScan : Type 0 where
  pub indices : List ℕ
  pub malformed_entries : ℕ

-- What the callback of the streamed list has collected.
pub record Collected : Type 0 where
  pub indices : List ℕ
  pub malformed_entries : ℕ
  pub too_many : Bool

abbrev pub first_field : List Text → Text
first_field [] = []
first_field (field ∷ rest) = field

unfoldable pub collect_index : Collected → Option ℕ → Collected
collect_index c none = record c { malformed_entries = suc c.malformed_entries }
collect_index c (some index) =
    if ltb (length c.indices) max_sms_indexes
    then record c { indices = c.indices ++ (index ∷ []) }
    else record c { too_many = true }

unfoldable pub collect_line : Collected → Text → Collected
unfolding trim strip_prefix split parse_uint collect_index
collect_line c line = elim (strip_prefix (codes "+CMGL:") (trim line)) [
  | none ↦ c
  | some rest ↦ collect_index c (parse_uint 65_535 (trim (first_field (split 0x2C rest))))
]

unfoldable pub collect : Collected → List Text → Collected
unfolding collect_line
collect c [] = c
collect c (line ∷ rest) = collect (collect_line c line) rest

-- `sort_unstable` and `dedup`.
unfoldable pub insert_sorted : ℕ → List ℕ → List ℕ
insert_sorted x [] = x ∷ []
insert_sorted x (y ∷ ys) =
    let rest = insert_sorted x ys in
    if x == y then y ∷ ys else if ltb x y then x ∷ y ∷ ys else y ∷ rest

unfoldable pub sorted_dedup : List ℕ → List ℕ
unfolding insert_sorted
sorted_dedup [] = []
sorted_dedup (x ∷ xs) = insert_sorted x (sorted_dedup xs)

unfoldable pub scan_of : Collected → Outcome SmsReadError StoredSmsIndexScan
unfolding sorted_dedup
scan_of c =
    if c.too_many
    then fails list_too_large
    else done (record { indices = sorted_dedup c.indices; malformed_entries = c.malformed_entries })

unfoldable pub list_error : Text → Text → Text
list_error command error = codes "AT" ++ (command ++ (codes ": " ++ error))

abbrev pub pdu_list : Text
pdu_list = codes "+CMGL=4"

abbrev pub text_list : Text
text_list = codes "+CMGL=\"ALL\""

abbrev pub is_text_mode_error : Text → Bool
is_text_mode_error detail = contains detail (codes "Invalid text mode parameter")

pub data ListHeader : Type 0 where
  pdu_header : ℕ → ListHeader
  text_header : ℕ → Text → Text → ListHeader

-- The fields behind index and status, in text mode sender, name and time.
unfoldable pub text_header_of : ℕ → List Text → Option ListHeader
unfolding decode_modem_text
text_header_of index (sender ∷ alpha ∷ timestamp ∷ rest) =
    some (text_header index (decode_modem_text sender) timestamp)
text_header_of index _ = none

unfoldable pub cmgl_fields : List Text → Option ListHeader
unfolding parse_uint all text_header_of
cmgl_fields (index ∷ status ∷ rest) = do
  i ← parse_uint 65_535 index
  if all is_ascii_digit status then some (pdu_header i) else text_header_of i rest
cmgl_fields _ = none

unfoldable pub parse_cmgl_header : Text → Option ListHeader
unfolding strip_prefix trim csv_fields cmgl_fields
parse_cmgl_header line = do
  rest ← strip_prefix (codes "+CMGL:") line
  cmgl_fields (csv_fields (trim rest))

pub record PendingListEntry : Type 0 where
  pub header : ListHeader
  pub body : Text

abbrev pub with_line : Text → Text → Text
with_line body line = if length body == 0 then line else body ++ (0x0A ∷ line)

unfoldable pub push_body_line : PendingListEntry → Text → PendingListEntry
unfolding is_pdu_hex_line
push_body_line entry line = elim entry.header [
  | pdu_header index ↦
      if not (is_pdu_hex_line line) || not (length entry.body == 0)
      then entry
      else record entry { body = line }
  | text_header index sender timestamp ↦ record entry { body = with_line entry.body line }
]

-- The entries with the pending one, and how many were malformed.
unfoldable pub flush_list_entry :
    Text → List StoredSms × ℕ → Option PendingListEntry → List StoredSms × ℕ
unfolding decode_modem_text
flush_list_entry mem (stored, malformed) none = (stored, malformed)
flush_list_entry mem (stored, malformed) (some entry) = elim entry.header [
  | pdu_header index ↦
      if length entry.body == 0
      then (stored, suc malformed)
      else (stored ++ (pdu_entry mem index entry.body ∷ []), malformed)
  | text_header index sender timestamp ↦ (
    stored ++ (decoded_entry mem index sender timestamp (decode_modem_text entry.body) ∷ []),
    malformed,
  )
]

-- What the loop over the lines has so far.
pub record ListState : Type 0 where
  pub flushed : List StoredSms × ℕ
  pub current : Option PendingListEntry
  pub header_count : ℕ

unfoldable pub list_header : Text → ListState → Option ListHeader → ListState
unfolding flush_list_entry
list_header mem st found =
    let flushed = flush_list_entry mem st.flushed st.current in
    elim found [
      | none ↦ record st { flushed = (flushed.0, suc flushed.1); current = none }
      | some header ↦ record {
        flushed = flushed;
        current = some (record { header = header; body = [] });
        header_count = suc st.header_count;
      }
    ]

unfoldable pub list_line : Text → ListState → Text → ListState
unfolding has_prefix list_header parse_cmgl_header push_body_line
list_line mem st line =
    if has_prefix (codes "+CMGL:") line
    then list_header mem st (parse_cmgl_header line)
    else (elim st.current [
      | none ↦ st
      | some entry ↦ record st { current = some (push_body_line entry line) }
    ])

unfoldable pub list_lines : Text → ListState → List Text → ListState
unfolding list_line
list_lines mem st [] = st
list_lines mem st (line ∷ rest) = list_lines mem (list_line mem st line) rest

pub record StoredSmsScan : Type 0 where
  pub messages : List StoredSms
  pub malformed_entries : ℕ

unfoldable pub scan_list : Text → Text → Outcome SmsReadError StoredSmsScan
unfolding list_lines body_lines flush_list_entry trim
scan_list mem body =
    let st =
      list_lines mem (record { flushed = ([], 0); current = none; header_count = 0 })
        (body_lines body) in
    let (stored, malformed) = flush_list_entry mem st.flushed st.current in
    if not (length (trim body) == 0) && (st.header_count == 0 || length stored == 0)
    then fails malformed_list
    else done (record { messages = stored; malformed_entries = malformed })

abbrev pub is_interruption : AtReply → Bool
is_interruption (failed interrupted_for_call) = true
is_interruption _ = false

abbrev pub slot_of : Text → ℕ → Outcome SmsReadError AtResponse → Outcome SmsReadError StoredSms
slot_of mem index (done response) = malformed_unless (parse_cmgr_response mem index response.body)
slot_of mem index (fails e) = fails e

module _ {ℓ} {M : Type ℓ} (at : AtTransport M) where
  unfoldable pub stream_sms_index_list : M → Text → M × Outcome SmsReadError StoredSmsIndexScan
  unfolding collect scan_of list_error error_text
  stream_sms_index_list m command =
      let (m', (seen, error)) = at.send_at_streaming m command in
      let found = collect (record { indices = []; malformed_entries = 0; too_many = false }) seen in
      elim error [
        | none ↦ (m', scan_of found)
        | some e ↦ (m', fails (list_failed (list_error command (error_text e))))
      ]

  -- The list in text mode, where that in PDU mode was refused for it.
  unfoldable pub in_text_mode :
      (M → M × Outcome SmsReadError StoredSmsIndexScan)
      → M × Outcome SmsReadError StoredSmsIndexScan
      → M × Outcome SmsReadError StoredSmsIndexScan
  unfolding contains
  in_text_mode again (m, fails (list_failed detail)) =
      let (m', result) = again m in
      if is_text_mode_error detail then (m', result) else (m, fails (list_failed detail))
  in_text_mode again (m, result) = (m, result)

  unfoldable pub list_stored_sms : M → M × Outcome SmsReadError AtResponse
  unfolding checked_at contains list_error
  list_stored_sms m =
      let (m1, first) = checked_at at m pdu_list in
      elim first [
        | done response ↦ (m1, done response)
        | fails error ↦
            let (m2, second) = checked_at at m1 text_list in
            if is_text_mode_error error
            then (
              m2,
              map_err
                  (λ fallback.
                    list_failed
                      (list_error pdu_list error ++ (codes "; " ++ list_error text_list fallback)))
                  second,
            )
            else (m1, fails (list_failed (list_error pdu_list error)))
      ]

  -- The batch, up to an incoming call.
  unfoldable pub read_each :
      Text → List ℕ → M → M × Outcome SmsReadError (List (ℕ × Outcome SmsReadError StoredSms))
  unfolding checked_response decimal_text parse_cmgr_response
  read_each mem [] m = (m, done [])
  read_each mem (index ∷ rest) m =
      let (m1, reply) = at.send_at m (codes "+CMGR=" ++ decimal_text index) in
      let entry = slot_of mem index (map_err read_slot (checked_response reply)) in
      let more =
        and_then at (read_each mem rest m1) (λ m2 entries. (m2, done ((index, entry) ∷ entries))) in
      if is_interruption reply then (m1, fails interrupted) else more

module _ {ℓ} {M : Type ℓ} (at : AtTransport M) where
  unfoldable pub scan_stored_sms_indices : Text → M → M × Outcome SmsReadError StoredSmsIndexScan
  unfolding ensure_pdu_mode select_storage stream_sms_index_list in_text_mode
  scan_stored_sms_indices mem m = and_then at (ensure_pdu_mode at m) λ m1 mode.
      and_then at (select_storage at mem m1) λ m2 selected.
        in_text_mode at (λ m3. stream_sms_index_list at m3 text_list)
          (stream_sms_index_list at m2 pdu_list)

  unfoldable pub read_stored_sms_with_report : Text → M → M × Outcome SmsReadError StoredSmsScan
  unfolding ensure_pdu_mode select_storage list_stored_sms scan_list
  read_stored_sms_with_report mem m = and_then at (ensure_pdu_mode at m) λ m1 mode.
      and_then at (select_storage at mem m1)
        λ m2 selected. and_then at (list_stored_sms at m2) λ m3 resp. (m3, scan_list mem resp.body)

  unfoldable pub read_stored_sms_batch :
      Text → List ℕ → M → M × Outcome SmsReadError (List (ℕ × Outcome SmsReadError StoredSms))
  unfolding ensure_pdu_mode select_storage read_each
  read_stored_sms_batch mem indices m =
      and_then at (ensure_pdu_mode at m)
        λ m1 mode. and_then at (select_storage at mem m1) λ m2 selected. read_each at mem indices m2

abbrev pub messages_of : Outcome SmsReadError StoredSmsScan → Outcome SmsReadError (List StoredSms)
messages_of (done scan) = done scan.messages
messages_of (fails e) = fails e

unfoldable pub read_stored_sms {ℓ} :
    {M : Type ℓ} → AtTransport M → Text → M → M × Outcome SmsReadError (List StoredSms)
unfolding read_stored_sms_with_report
read_stored_sms at mem m =
    let (m', report) = read_stored_sms_with_report at mem m in (m', messages_of report)
