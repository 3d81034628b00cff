-- ===== src/Bridge/SmsHandler/Intake.antt =====
-- A PDU on its way to the messenger: the preparation, and what may be deleted after it, of
-- src/bridge/sms_handler.rs. `none` is a panic.
pub mod Prepared
pub mod Deletes
use smsgate.Base.{
  ℕ, ◌++◌, not, ◌&&◌, ◌||◌, if◌then◌else◌, Bool, true, false, List, [], ◌∷◌, Option, none, some,
  ◌>>=◌, Text, codes, decimal_text,
}
use smsgate.Locale.{Locale}
use smsgate.Log.Entry.{Log, LogEvent, at, new, sms}
use smsgate.Mms.{parse_mms_notification_from_sms}
use smsgate.Sms.Pdu.{SmsPdu, SmsMessage}
use smsgate.Sms.Codec.Result.{
  SmsError, malformed_pdu, pdu_too_long, empty_input, Result, ok, err, panic,
}
use smsgate.Sms.Codec.Deliver.{parse_sms_pdu}
use smsgate.Sms.Concat.Group.{StorageSlot}
use smsgate.Sms.Concat.Feed.{
  ConcatReassembler, FeedOutcome, complete, incomplete, invalid, feed_with_slot,
}
use smsgate.Bridge.Blocklist.{is_blocked}
use smsgate.Bridge.Forwarder.{Services, World, forward_sms, is_paused}
use smsgate.Bridge.SmsHandler.Storage.{StoredSms, storage_slot}

pub data SmsDisposition : Type 0 where
  retain : SmsDisposition
  delete : List StorageSlot → SmsDisposition

pub record PreparedSms : Type 0 where
  pub sms : SmsMessage
  pub slots : List StorageSlot

pub data SmsPreparation : Type 0 where
  retained : SmsPreparation
  consumed : List StorageSlot → SmsPreparation
  ready : PreparedSms → SmsPreparation

-- `Display` of the error.
unfoldable pub sms_error_text : SmsError → Text
sms_error_text (malformed_pdu why) = codes "malformed PDU: " ++ codes why
sms_error_text pdu_too_long = codes "PDU too long"
sms_error_text empty_input = codes "empty phone or body"

abbrev pub own_slots : Option StorageSlot → List StorageSlot
own_slots none = []
own_slots (some slot) = slot ∷ []

abbrev pub is_stored : Option StorageSlot → Bool
is_stored none = false
is_stored (some slot) = true

abbrev pub prepared : Text → Text → Text → ℕ → List StorageSlot → SmsPreparation
prepared sender body timestamp slot slots = ready (record {
  sms = record { sender = sender; body = body; timestamp = timestamp; slot = slot };
  slots = slots;
})

-- The log and the table of groups, which a preparation changes.
pub record Desk {ℓ} (L : Type ℓ) : Type ℓ where
  pub log : L
  pub concat : ConcatReassembler

module _ {ℓ} {M L S : Type ℓ} (services : Services M L S) where
  -- A note in the log, of the modem.
  unfoldable pub complain : L → Text → Text → L
  unfolding at
  complain log detail log_timestamp =
      services.log.push log (at (new sms (codes "modem") detail false) log_timestamp)

  -- What comes of a part of a long message.
  unfoldable pub after_feed :
      L → ℕ → Option StorageSlot → Text → ConcatReassembler × FeedOutcome → Desk L × SmsPreparation
  unfolding complain decimal_text
  after_feed log slot storage log_timestamp (concat, complete c) =
      (record { log = log; concat = concat }, prepared c.sender c.content c.timestamp slot c.slots)
  after_feed log slot storage log_timestamp (concat, incomplete) =
      (record { log = log; concat = concat }, if is_stored storage then retained else consumed [])
  after_feed log slot storage log_timestamp (concat, invalid) = (
    record {
      log =
          complain log (codes "invalid concatenated SMS at slot " ++ decimal_text slot)
            log_timestamp;
      concat = concat;
    },
    retained,
  )

module _ {ℓ} {M L S : Type ℓ} (services : Services M L S) where
  -- A PDU that could be parsed.
  unfoldable pub prepare_pdu :
      ℕ → SmsPdu → ℕ → Option StorageSlot → Desk L → Text → Option (Desk L × SmsPreparation)
  unfolding parse_mms_notification_from_sms feed_with_slot after_feed
  prepare_pdu now pdu slot storage desk log_timestamp =
      elim (parse_mms_notification_from_sms services.usize_bits pdu) [
        | some n ↦ some (
          desk,
          prepared pdu.sender
              (services.locale.mms_notification n.content_location n.message_size n.expiry)
              pdu.timestamp slot (own_slots storage),
        )
        | none ↦
            if pdu.is_concatenated
            then (do
              fed ← feed_with_slot now desk.concat pdu storage
              some (after_feed services desk.log slot storage log_timestamp fed))
            else some (desk, prepared pdu.sender pdu.content pdu.timestamp slot (own_slots storage))
      ]

module _ {ℓ} {M L S : Type ℓ} (services : Services M L S) where
  unfoldable pub prepare_parsed :
      ℕ → Result SmsPdu → ℕ → Option StorageSlot → Desk L → Text → Option (Desk L × SmsPreparation)
  unfolding prepare_pdu complain sms_error_text decimal_text
  prepare_parsed now (ok pdu) slot storage desk log_timestamp =
      prepare_pdu services now pdu slot storage desk log_timestamp
  prepare_parsed now (err e) slot storage desk log_timestamp =
      let detail =
        codes "PDU parse failed at slot "
        ++ (decimal_text slot ++ (codes ": " ++ sms_error_text e)) in
      some (record desk { log = complain services desk.log detail log_timestamp }, retained)
  prepare_parsed now panic slot storage desk log_timestamp = none

  unfoldable pub prepare_pdu_hex_with_slot :
      ℕ → Text → ℕ → Option StorageSlot → Desk L → Text → Option (Desk L × SmsPreparation)
  unfolding parse_sms_pdu prepare_parsed
  prepare_pdu_hex_with_slot now hex slot storage desk log_timestamp =
      prepare_parsed now (parse_sms_pdu hex) slot storage desk log_timestamp

  -- `storage_slot` hashes with the parameter `hash`.
  unfoldable pub prepare_stored_sms :
      (Text → Option SmsMessage → ℕ)
      → ℕ
      → StoredSms
      → Desk L
      → Text
      → Option (Desk L × SmsPreparation)
  unfolding storage_slot prepare_pdu_hex_with_slot
  prepare_stored_sms hash now stored desk log_timestamp = elim stored.decoded [
    | some message ↦
        some (desk, ready (record { sms = message; slots = storage_slot hash stored ∷ [] }))
    | none ↦
        prepare_pdu_hex_with_slot now stored.pdu_hex stored.index (some (storage_slot hash stored))
          desk log_timestamp
  ]

abbrev pub is_some {ℓ} : {A : Type ℓ} → Option A → Bool
is_some none = false
is_some (some a) = true

module _ {ℓ} {M L S : Type ℓ} (services : Services M L S) where
  unfoldable pub forward_or_consume : SmsMessage → World M L S → Text → Option (World M L S × Bool)
  unfolding is_paused is_blocked forward_sms
  forward_or_consume message world log_timestamp = do
    let intentionally_dropped =
        is_paused services world.store
        || is_blocked services.store services.json message.sender world.store
    (world', sent) ← forward_sms services message world log_timestamp
    some (world', is_some sent || intentionally_dropped)

module _ {ℓ} {M L S : Type ℓ} (services : Services M L S) where
  unfoldable pub finish_preparation :
      SmsPreparation → World M L S → Text → Option (World M L S × SmsDisposition)
  unfolding forward_or_consume
  finish_preparation retained world log_timestamp = some (world, retain)
  finish_preparation (consumed slots) world log_timestamp = some (world, delete slots)
  finish_preparation (ready p) world log_timestamp = do
    (world', gone) ← forward_or_consume services p.sms world log_timestamp
    some (world', if gone then delete p.slots else retain)

module _ {ℓ} {M L S : Type ℓ} (services : Services M L S) where
  -- The log is that of the world.
  unfoldable pub finish :
      World M L S
      → Text
      → Option (Desk L × SmsPreparation)
      → Option (World M L S × (ConcatReassembler × SmsDisposition))
  unfolding finish_preparation
  finish world log_timestamp prepared = do
    (desk, preparation) ← prepared
    (world', disposition) ←
        finish_preparation services preparation (record world { log = desk.log }) log_timestamp
    some (world', (desk.concat, disposition))

  unfoldable pub process_pdu_hex_with_slot :
      ℕ
      → Text
      → ℕ
      → Option StorageSlot
      → ConcatReassembler
      → World M L S
      → Text
      → Option (World M L S × (ConcatReassembler × SmsDisposition))
  unfolding prepare_pdu_hex_with_slot finish
  process_pdu_hex_with_slot now hex slot storage concat world log_timestamp =
      finish world log_timestamp (
        prepare_pdu_hex_with_slot services now hex slot storage
          (record { log = world.log; concat = concat }) log_timestamp)

  unfoldable pub process_stored_sms_with_slots :
      (Text → Option SmsMessage → ℕ)
      → ℕ
      → StoredSms
      → ConcatReassembler
      → World M L S
      → Text
      → Option (World M L S × (ConcatReassembler × SmsDisposition))
  unfolding prepare_stored_sms finish
  process_stored_sms_with_slots hash now stored concat world log_timestamp =
      finish world log_timestamp (
        prepare_stored_sms services hash now stored (record { log = world.log; concat = concat })
          log_timestamp)

abbrev pub is_delete : SmsDisposition → Bool
is_delete retain = false
is_delete (delete slots) = true

abbrev pub with_consumed {ℓ} :
    {W : Type ℓ}
    → Option (W × (ConcatReassembler × SmsDisposition))
    → Option (W × (ConcatReassembler × Bool))
with_consumed none = none
with_consumed (some (world, (concat, disposition))) = some (world, (concat, is_delete disposition))

module _ {ℓ} {M L S : Type ℓ} (services : Services M L S) where
  -- The flag says whether the message is done with.
  unfoldable pub process_pdu_hex :
      ℕ
      → Text
      → ℕ
      → ConcatReassembler
      → World M L S
      → Text
      → Option (World M L S × (ConcatReassembler × Bool))
  unfolding process_pdu_hex_with_slot
  process_pdu_hex now hex slot concat world log_timestamp =
      with_consumed
        (process_pdu_hex_with_slot services now hex slot none concat world log_timestamp)

  unfoldable pub process_stored_sms :
      (Text → Option SmsMessage → ℕ)
      → ℕ
      → StoredSms
      → ConcatReassembler
      → World M L S
      → Text
      → Option (World M L S × (ConcatReassembler × Bool))
  unfolding process_stored_sms_with_slots
  process_stored_sms hash now stored concat world log_timestamp =
      with_consumed
        (process_stored_sms_with_slots services hash now stored concat world log_timestamp)
