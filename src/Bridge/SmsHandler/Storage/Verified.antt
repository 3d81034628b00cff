-- ===== src/Bridge/SmsHandler/Storage/Verified.antt =====
-- `delete_verified_sms_slot` of src/bridge/sms_handler.rs.
use smsgate.Base.{
  ℕ, ◌≡◌, refl, inl, inr, if◌then◌else◌, Bool, true, false, Bool-cases, Option-cases, Option, some,
  ◌++◌, Text, codes, decimal_text, text_eq→eq, arith,
}
use smsgate.Modem.{AtTransport, AtReply, answered, failed, AtResponse, at_error}
use smsgate.Sms.Pdu.{SmsMessage}
use smsgate.Sms.Concat.Group.{StorageSlot}
use smsgate.Bridge.SmsHandler.Storage.{
  SmsReadError, Outcome, done, fails, StoredSms, storage_slot, VerifiedDeletion, deleted,
  slot_changed, same_slot, and_then, read_new_sms_pdu, delete_at, delete_verified_sms_slot,
  checked_response, checked_at, command, map_err, ensure_pdu_mode, select_storage, malformed_unless,
  parse_cmgr_response, read_slot, is_storage_name,
}

module _ {ℓ} {M : Type ℓ} (at : AtTransport M) where
  -- The modem was given a command and answered OK.
  pub record IsAnswered (m : M) (text : Text) (m' : M) (response : AtResponse) : Type ℓ where
    pub given : at.send_at m text ≡ (m', answered response)
    pub accepted : response.ok ≡ true

  abbrev Given : M → Text → M × Outcome SmsReadError AtResponse → Type ℓ
  Given m text (m', done response) = IsAnswered m text m' response
  Given m text (m', fails e) = Unit

  if_ok-Given :
      (error : Text → SmsReadError) (m m' : M) (text why : Text) (response : AtResponse) (ok : Bool)
      → at.send_at m text ≡ (m', answered response)
      → response.ok ≡ ok
      → Given m text (m', map_err error (if ok then done response else fails why))
  if_ok-Given error m m' text why response true h e = record { given = h; accepted = e }
  if_ok-Given error m m' text why response false h e = tt

  checked-Given :
      (error : Text → SmsReadError) (m : M) (text : Text) (r : M × AtReply)
      → at.send_at m text ≡ r
      → Given m text (r.0, map_err error (checked_response r.1))
  unfolding checked_response
  checked-Given error m text (m', answered response) h =
      if_ok-Given error m m' text _ response response.ok h refl
  checked-Given error m text (m', failed (at_error detail)) h = tt
  checked-Given error m text (m', failed e) h = tt

  command-Given :
      (error : Text → SmsReadError) (m : M) (text : Text) → Given m text (command at error m text)
  unfolding command checked_at
  command-Given error m text = checked-Given error m text (at.send_at m text) refl

  -- What holds behind a command that is answered OK, and of any error, holds of the whole.
  Given-bind :
      {B : Type 0} (P : M × Outcome SmsReadError B → Type ℓ) (m : M) (text : Text)
      (r : M × Outcome SmsReadError AtResponse) (next : M → AtResponse → M × Outcome SmsReadError B)
      → Given m text r
      → ((m' : M) (response : AtResponse) → IsAnswered m text m' response → P (next m' response))
      → ((m' : M) (e : SmsReadError) → P (m', fails e))
      → P (and_then at r next)
  Given-bind P m text (m', done response) next g h k = h m' response g
  Given-bind P m text (m', fails e) next g h k = k m' e

  abbrev pub cpms : Text → Text
  cpms mem = codes "+CPMS=\"" ++ (mem ++ codes "\"")

  -- The slot was read: the modem was put into PDU mode, the storage was selected, the slot was
  -- asked for, each with the answer OK, and the last answer parsed is `current`.
  pub record IsRead (mem : Text) (index : ℕ) (m m' : M) (current : StoredSms) : Type ℓ where
    pub in_pdu_mode : M
    pub selected : M
    pub mode_response : AtResponse
    pub select_response : AtResponse
    pub response : AtResponse
    pub mode : IsAnswered m (codes "+CMGF=0") in_pdu_mode mode_response
    pub select : IsAnswered in_pdu_mode (cpms mem) selected select_response
    pub read : IsAnswered selected (codes "+CMGR=" ++ decimal_text index) m' response
    pub parsed : parse_cmgr_response mem index response.body ≡ some current

  abbrev ReadOf : Text → ℕ → M → M × Outcome SmsReadError StoredSms → Type ℓ
  ReadOf mem index m (m', done current) = IsRead mem index m m' current
  ReadOf mem index m (m', fails e) = Unit

  select_storage-Given : (mem : Text) (m : M) → Given m (cpms mem) (select_storage at mem m)
  unfolding select_storage
  select_storage-Given mem m = elim (Bool-cases (is_storage_name mem)) [
    | inl e ↦ rw (e, select_storage) (command-Given _ m (cpms mem))
    | inr e ↦ rw (e, select_storage) tt
  ]

  read_new_sms_pdu-ReadOf :
      (mem : Text) (index : ℕ) (m : M) → ReadOf mem index m (read_new_sms_pdu at mem index m)
  unfolding read_new_sms_pdu ensure_pdu_mode
  read_new_sms_pdu-ReadOf mem index m =
      Given-bind (ReadOf mem index m) m (codes "+CMGF=0") (ensure_pdu_mode at m) _
        (command-Given _ m (codes "+CMGF=0"))
        (λ m1 r1 a1.
          Given-bind (ReadOf mem index m) m1 (cpms mem) (select_storage at mem m1) _
            (select_storage-Given mem m1)
            (λ m2 r2 a2.
              Given-bind (ReadOf mem index m) m2 (codes "+CMGR=" ++ decimal_text index)
                (command at read_slot m2 (codes "+CMGR=" ++ decimal_text index)) _
                (command-Given read_slot m2 (codes "+CMGR=" ++ decimal_text index))
                (λ m3 r3 a3. elim (Option-cases (parse_cmgr_response mem index r3.body)) [
                  | inl e ↦ rw (e, malformed_unless) tt
                  | inr (current, e) ↦
                      rw (e, malformed_unless)
                        (record {
                          in_pdu_mode = m1;
                          selected = m2;
                          mode_response = r1;
                          select_response = r2;
                          response = r3;
                          mode = a1;
                          select = a2;
                          read = a3;
                          parsed = e;
                        })
                ])
                λ m' e. tt)
            λ m' e. tt)
        λ m' e. tt

same_slot→eq : (a b : StorageSlot) → same_slot a b ≡ true → a ≡ b
same_slot→eq a b h =
    let mems : a.mem ≡ b.mem = text_eq→eq a.mem b.mem (ground arith) in
    let indexes : a.index ≡ b.index = ground arith in
    let fingerprints : a.fingerprint ≡ b.fingerprint = ground arith in cc

module _ {ℓ} {M : Type ℓ} (at : AtTransport M) (hash : Text → Option SmsMessage → ℕ)
    (expected : StorageSlot) where
  -- The slot was read; what it holds has the storage, the index and the fingerprint that are
  -- expected; and then the modem was told to delete it and answered OK.
  pub record IsDeleted (m m' : M) : Type ℓ where
    pub between : M
    pub current : StoredSms
    pub response : AtResponse
    pub read : IsRead at expected.mem expected.index m between current
    pub same : storage_slot hash current ≡ expected
    pub accepted : IsAnswered at between (codes "+CMGD=" ++ decimal_text expected.index) m' response

  abbrev Verified : M → M × Outcome SmsReadError VerifiedDeletion → Type ℓ
  Verified m (m', done deleted) = IsDeleted m m'
  Verified m (m', done slot_changed) = Unit
  Verified m (m', fails error) = Unit

  after_read-Verified :
      (m : M) (r : M × Outcome SmsReadError StoredSms)
      → ReadOf at expected.mem expected.index m r
      → Verified m (
          and_then at r λ m1 current.
            if same_slot (storage_slot hash current) expected
            then and_then at (delete_at at expected.index m1) (λ m2 response. (m2, done deleted))
            else (m1, done slot_changed))
  unfolding delete_at
  after_read-Verified m (m1, fails error) read = tt
  after_read-Verified m (m1, done current) read =
      elim (Bool-cases (same_slot (storage_slot hash current) expected)) [
        | inl e ↦ rw e (
            Given-bind at (Verified m) m1 (codes "+CMGD=" ++ decimal_text expected.index)
              (delete_at at expected.index m1) _
              (command-Given at _ m1 (codes "+CMGD=" ++ decimal_text expected.index))
              (λ m2 response a. record {
                between = m1;
                current = current;
                response = response;
                read = read;
                same = same_slot→eq (storage_slot hash current) expected e;
                accepted = a;
              })
              λ m' error. tt)
        | inr e ↦ rw e tt
      ]

  delete_verified_sms_slot-Verified :
      (m : M) → Verified m (delete_verified_sms_slot at hash expected m)
  unfolding delete_verified_sms_slot
  delete_verified_sms_slot-Verified m =
      after_read-Verified m (read_new_sms_pdu at expected.mem expected.index m)
        (read_new_sms_pdu-ReadOf at expected.mem expected.index m)

  -- A slot is said to be deleted only if, with commands that the modem answered with OK, it was read
  -- right before and held what is expected there, with the same storage, index and fingerprint, and
  -- then its deletion was asked for.
  pub delete_verified_sms_slot-IsDeleted :
      (m m' : M) → delete_verified_sms_slot at hash expected m ≡ (m', done deleted) → IsDeleted m m'
  delete_verified_sms_slot-IsDeleted m m' h = rw h at (delete_verified_sms_slot-Verified m)
