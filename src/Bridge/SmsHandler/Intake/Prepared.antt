-- ===== src/Bridge/SmsHandler/Intake/Prepared.antt =====
-- The preparation of a PDU, of src/bridge/sms_handler.rs.
use smsgate.Base.{
  ℕ, ◌≡◌, ◌⊎◌, refl, inl, inr, if◌then◌else◌, Option-cases, Bool, true, false, List, [], ◌∷◌,
  Option, none, some, OnSome, OnSome-bind, OnSome-if, OnSome-map, Text,
}
use smsgate.Mms.{MmsNotification, parse_mms_notification_from_sms}
use smsgate.Sms.Pdu.{SmsPdu, SmsMessage}
use smsgate.Sms.Codec.Result.{Result, ok, err, panic}
use smsgate.Sms.Concat.Group.{StorageSlot}
use smsgate.Sms.Concat.Feed.{
  ConcatReassembler, FeedOutcome, complete, incomplete, invalid, feed_with_slot, CompletedSms,
}
use smsgate.Bridge.Forwarder.{Services}
use smsgate.Bridge.SmsHandler.Intake.{
  Desk, SmsPreparation, retained, consumed, ready, after_feed, prepare_pdu, prepare_parsed,
  own_slots, is_stored,
}

-- The slots are the PDU's own place in the storage, if it has one.
abbrev pub IsOwn : Option StorageSlot → List StorageSlot → Type 0
IsOwn none slots = slots ≡ []
IsOwn (some slot) slots = slots ≡ slot ∷ []

abbrev pub message_from : Text → Text → Text → ℕ → SmsMessage
message_from sender body timestamp slot = record {
  sender = sender;
  body = body;
  timestamp = timestamp;
  slot = slot;
}

not_stored : (storage : Option StorageSlot) → is_stored storage ≡ false → storage ≡ none
not_stored none h = refl
not_stored (some slot) h = cc

own_slots-IsOwn : (storage : Option StorageSlot) → IsOwn storage (own_slots storage)
own_slots-IsOwn none = refl
own_slots-IsOwn (some slot) = refl

module _ {ℓ} {M L S : Type ℓ} (services : Services M L S) (now : ℕ) (slot : ℕ)
    (storage : Option StorageSlot) (concat : ConcatReassembler) where
  -- The PDU is the notice of a multimedia message, and the message is what the locale says of it.
  pub record IsNotice (pdu : SmsPdu) (concat' : ConcatReassembler) (sms : SmsMessage)
      (slots : List StorageSlot) : Type 0 where
    pub notice : MmsNotification
    pub read : parse_mms_notification_from_sms services.usize_bits pdu ≡ some notice
    pub table : concat' ≡ concat
    pub own : IsOwn storage slots
    pub message :
        sms
        ≡ message_from pdu.sender
            (services.locale.mms_notification notice.content_location notice.message_size
              notice.expiry)
            pdu.timestamp
            slot

  -- The PDU is a message by itself.
  pub record IsAlone (pdu : SmsPdu) (concat' : ConcatReassembler) (sms : SmsMessage)
      (slots : List StorageSlot) : Type 0 where
    pub no_notice : parse_mms_notification_from_sms services.usize_bits pdu ≡ none
    pub single : pdu.is_concatenated ≡ false
    pub table : concat' ≡ concat
    pub own : IsOwn storage slots
    pub message : sms ≡ message_from pdu.sender pdu.content pdu.timestamp slot

  -- The PDU is the last of the parts of a message, which the table of groups hands back with the
  -- slots of all of them.
  pub record IsLast (pdu : SmsPdu) (concat' : ConcatReassembler) (sms : SmsMessage)
      (slots : List StorageSlot) : Type 0 where
    pub completed : CompletedSms
    pub no_notice : parse_mms_notification_from_sms services.usize_bits pdu ≡ none
    pub part : pdu.is_concatenated ≡ true
    pub fed : feed_with_slot now concat pdu storage ≡ some (concat', complete completed)
    pub all_slots : slots ≡ completed.slots
    pub message : sms ≡ message_from completed.sender completed.content completed.timestamp slot

  -- The PDU is a part that came without a place in the storage and whose message is not complete.
  pub record IsWaiting (pdu : SmsPdu) (concat' : ConcatReassembler) (slots : List StorageSlot)
      : Type 0 where
    pub no_notice : parse_mms_notification_from_sms services.usize_bits pdu ≡ none
    pub part : pdu.is_concatenated ≡ true
    pub unstored : storage ≡ none
    pub no_slots : slots ≡ []
    pub fed : feed_with_slot now concat pdu storage ≡ some (concat', incomplete)

  abbrev pub IsMessageOf : SmsPdu → ConcatReassembler → SmsMessage → List StorageSlot → Type 0
  IsMessageOf pdu concat' sms slots =
      IsNotice pdu concat' sms slots
      ⊎ (IsAlone pdu concat' sms slots ⊎ IsLast pdu concat' sms slots)

  -- What a preparation says of the PDU, for the log `log` before it.
  abbrev PreparedPdu : L → SmsPdu → Desk L × SmsPreparation → Type ℓ
  PreparedPdu log pdu (desk, retained) = Unit
  PreparedPdu log pdu (desk, consumed slots) = IsWaiting pdu desk.concat slots × (desk.log ≡ log)
  PreparedPdu log pdu (desk, ready p) = IsMessageOf pdu desk.concat p.sms p.slots × (desk.log ≡ log)

  incomplete-PreparedPdu :
      (log : L) (pdu : SmsPdu) (concat' : ConcatReassembler) (stored : Bool)
      → is_stored storage ≡ stored
      → parse_mms_notification_from_sms services.usize_bits pdu ≡ none
      → pdu.is_concatenated ≡ true
      → feed_with_slot now concat pdu storage ≡ some (concat', incomplete)
      → PreparedPdu log pdu
          (record { log = log; concat = concat' }, if stored then retained else consumed [])
  incomplete-PreparedPdu log pdu concat' true s e h f = tt
  incomplete-PreparedPdu log pdu concat' false s e h f = (
    record { no_notice = e; part = h; unstored = not_stored storage s; no_slots = refl; fed = f },
    refl,
  )

  after_feed-PreparedPdu :
      (log : L) (pdu : SmsPdu) (log_timestamp : Text) (fed : ConcatReassembler × FeedOutcome)
      → parse_mms_notification_from_sms services.usize_bits pdu ≡ none
      → pdu.is_concatenated ≡ true
      → feed_with_slot now concat pdu storage ≡ some fed
      → PreparedPdu log pdu (after_feed services log slot storage log_timestamp fed)
  unfolding after_feed
  after_feed-PreparedPdu log pdu log_timestamp (concat', complete c) e h f = (
    inr (
        inr (record {
          completed = c;
          no_notice = e;
          part = h;
          fed = f;
          all_slots = refl;
          message = refl;
        })),
    refl,
  )
  after_feed-PreparedPdu log pdu log_timestamp (concat', incomplete) e h f =
      incomplete-PreparedPdu log pdu concat' (is_stored storage) refl e h f
  after_feed-PreparedPdu log pdu log_timestamp (concat', invalid) e h f = tt

  prepare_pdu-PreparedPdu :
      (log : L) (pdu : SmsPdu) (log_timestamp : Text)
      → OnSome (PreparedPdu log pdu) (
          prepare_pdu services now pdu slot storage
            (record { log = log; concat = concat })
            log_timestamp)
  unfolding prepare_pdu
  prepare_pdu-PreparedPdu log pdu log_timestamp =
      elim (Option-cases (parse_mms_notification_from_sms services.usize_bits pdu)) [
        | inr (n, e) ↦
            rw (e, prepare_pdu)
              (
                inl (record {
                  notice = n;
                  read = e;
                  table = refl;
                  own = own_slots-IsOwn storage;
                  message = refl;
                }),
                refl,
              )
        | inl e ↦
            rw (e, prepare_pdu)
              (OnSome-if (PreparedPdu log pdu) pdu.is_concatenated _ _
                (λ h.
                  OnSome-bind (PreparedPdu log pdu) (feed_with_slot now concat pdu storage) _
                    λ fed f. after_feed-PreparedPdu log pdu log_timestamp fed e h f)
                λ h. (
                  inr (
                      inl (record {
                        no_notice = e;
                        single = h;
                        table = refl;
                        own = own_slots-IsOwn storage;
                        message = refl;
                      })),
                  refl,
                ))
      ]

  -- The PDU could be parsed, and its preparation says this of it.
  abbrev pub IsPrepared : L → Result SmsPdu → Desk L × SmsPreparation → Type ℓ
  IsPrepared log parsed (desk, retained) = Unit
  IsPrepared log parsed (desk, consumed slots) =
      (pdu : SmsPdu) × (parsed ≡ ok pdu) × IsWaiting pdu desk.concat slots × (desk.log ≡ log)
  IsPrepared log parsed (desk, ready p) =
      (pdu : SmsPdu) × (parsed ≡ ok pdu)
      × IsMessageOf pdu desk.concat p.sms p.slots
      × (desk.log ≡ log)

  PreparedPdu-IsPrepared :
      (log : L) (pdu : SmsPdu) (prepared : Desk L × SmsPreparation)
      → PreparedPdu log pdu prepared
      → IsPrepared log (ok pdu) prepared
  PreparedPdu-IsPrepared log pdu (desk, retained) h = tt
  PreparedPdu-IsPrepared log pdu (desk, consumed slots) (w, e) = (pdu, refl, w, e)
  PreparedPdu-IsPrepared log pdu (desk, ready p) (m, e) = (pdu, refl, m, e)

  pub prepare_parsed-IsPrepared :
      (log : L) (parsed : Result SmsPdu) (log_timestamp : Text)
      → OnSome (IsPrepared log parsed) (
          prepare_parsed services now parsed slot storage
            (record { log = log; concat = concat })
            log_timestamp)
  unfolding prepare_parsed
  prepare_parsed-IsPrepared log (ok pdu) log_timestamp =
      OnSome-map (PreparedPdu log pdu) (IsPrepared log (ok pdu)) (PreparedPdu-IsPrepared log pdu)
        (prepare_pdu services now pdu slot storage (record { log = log; concat = concat })
          log_timestamp)
        (prepare_pdu-PreparedPdu log pdu log_timestamp)
  prepare_parsed-IsPrepared log (err e) log_timestamp = tt
  prepare_parsed-IsPrepared log panic log_timestamp = tt
