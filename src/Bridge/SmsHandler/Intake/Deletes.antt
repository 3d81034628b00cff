-- ===== src/Bridge/SmsHandler/Intake/Deletes.antt =====
-- `process_pdu_hex_with_slot` of src/bridge/sms_handler.rs: the disposition `delete`.
use smsgate.Bridge.SmsHandler.Intake.Prepared.{IsWaiting, IsMessageOf}
use smsgate.Base.{ℕ, ◌≡◌, ◌⊎◌, refl, inl, inr, ◌||◌, Bool, true, false, Option, some, List}
use smsgate.Im.{MessageId}
use smsgate.Sms.Pdu.{SmsPdu, SmsMessage}
use smsgate.Sms.Codec.Result.{Result, ok}
use smsgate.Sms.Concat.Group.{StorageSlot}
use smsgate.Sms.Concat.Feed.{ConcatReassembler}
use smsgate.Bridge.Blocklist.{is_blocked}
use smsgate.Bridge.Forwarder.{Services, World, is_paused}
use smsgate.Bridge.Forwarder.Reported.{IsReported, Reported}
use smsgate.Bridge.SmsHandler.Intake.{
  Desk, SmsPreparation, consumed, ready, PreparedSms, SmsDisposition, retain, delete,
}

module _ {ℓ} {M L S : Type ℓ} (services : Services M L S) where
  -- The messenger has the message, or it is dropped on purpose.
  abbrev pub Handled : World M L S → World M L S → SmsMessage → Type ℓ
  Handled world world' sms =
      ((msg_id : MessageId) × IsReported services world world' sms msg_id)
      ⊎ ((is_paused services world.store ≡ true)
          ⊎ (is_blocked services.store services.json sms.sender world.store ≡ true))

  -- What a `true` of `forward_or_consume` says.
  abbrev Gone : World M L S → SmsMessage → World M L S × Bool → Type ℓ
  Gone world sms (world', false) = Unit
  Gone world sms (world', true) = Handled world world' sms

  dropped-cases : (a b : Bool) → a || b ≡ true → (a ≡ true) ⊎ (b ≡ true)
  dropped-cases true b h = inl refl
  dropped-cases false b h = inr h

  -- A preparation that is carried through to a deletion of `slots`.
  abbrev pub Carried : SmsPreparation → World M L S → World M L S → List StorageSlot → Type ℓ
  Carried preparation world world' slots =
      (preparation ≡ consumed slots)
      ⊎ ((p : PreparedSms) × (preparation ≡ ready p)
          × (slots ≡ p.slots)
          × Handled world world' p.sms)

  abbrev Disposed : SmsPreparation → World M L S → World M L S × SmsDisposition → Type ℓ
  Disposed preparation world (world', retain) = Unit
  Disposed preparation world (world', delete slots) = Carried preparation world world' slots

module _ {ℓ} {M L S : Type ℓ} (services : Services M L S) where
  -- Where a deletion comes from: the preparation, with the log and the table that it leaves.
  abbrev Finished :
      World M L S
      → Option (Desk L × SmsPreparation)
      → World M L S × (ConcatReassembler × SmsDisposition)
      → Type ℓ
  Finished world prepared (world', (concat, retain)) = Unit
  Finished world prepared (world', (concat, delete slots)) =
      (desk : Desk L) × (preparation : SmsPreparation) × (prepared ≡ some (desk, preparation))
      × (desk.concat ≡ concat)
      × Carried services preparation (record world { log = desk.log }) world' slots

module _ {ℓ} {M L S : Type ℓ} (services : Services M L S) (now : ℕ) (slot : ℕ)
    (storage : Option StorageSlot) (concat concat' : ConcatReassembler)
    (world world' : World M L S) where
  -- What a deletion of `slots` rests on: a PDU, and the message that it is or completes, or the
  -- table of groups that it waits in.
  abbrev pub Deletes : Result SmsPdu → List StorageSlot → Type ℓ
  Deletes parsed slots =
      (pdu : SmsPdu) × (parsed ≡ ok pdu)
      × (IsWaiting services now slot storage concat pdu concat' slots
          ⊎ ((sms : SmsMessage) × IsMessageOf services now slot storage concat pdu concat' sms slots
              × Handled services world world' sms))
