-- ===== src/Bridge/Forwarder/Reported.antt =====
-- `forward_sms` of src/bridge/forwarder.rs: the case of a message's id.
use smsgate.Base.{
  ◌≡◌, refl, sym, ◌∙◌, OnSome, OnSome-bind, OnSome-if, OnSome-get, inl, inr, Bool-cases, true,
  false, Option, none, some, Text, ap,
}
use smsgate.Im.{MessageId, Delivery, delivered, refused, html}
use smsgate.Sms.Pdu.{SmsMessage}
use smsgate.Bridge.ReplyRouter.Slots.{put, put_slot, save}
use smsgate.Bridge.Blocklist.{is_blocked}
use smsgate.Bridge.Forwarder.{
  Services, World, sms_log_entry, is_paused, sms_forward_text, log_to, remember,
  record_forward_success, record_forward_failure, drop_sms, after_send, send_sms, forward_sms,
}

module _ {ℓ} {M L S : Type ℓ} (services : Services M L S) where
  -- The messenger took the message's text and gave it the id, the router maps the id to the sender,
  -- and the message was neither paused nor blocked.
  pub record IsReported (world world' : World M L S) (sms : SmsMessage) (msg_id : MessageId)
      : Type ℓ where
    pub active : is_paused services world.store ≡ false
    pub welcome : is_blocked services.store services.json sms.sender world.store ≡ false
    pub text : Text
    pub shown : sms_forward_text services sms ≡ some text
    pub sent :
        services.sink.send_message_with_format world.messenger text html
        ≡ (world'.messenger, delivered msg_id)
    pub mapped : world'.router ≡ put_slot services.usize_bits world.router msg_id sms.sender

  -- Nothing to say of a message that was not sent.
  abbrev pub Reported : World M L S → SmsMessage → World M L S × Option MessageId → Type ℓ
  Reported world sms (world', none) = Unit
  Reported world sms (world', some msg_id) = IsReported world world' sms msg_id

  drop_sms-Reported :
      (sms : SmsMessage) (before world : World M L S) (log_timestamp : Text)
      → OnSome (Reported before sms) (drop_sms services sms world log_timestamp)
  unfolding drop_sms
  drop_sms-Reported sms before world log_timestamp =
      OnSome-bind (Reported before sms) (sms_log_entry sms log_timestamp false) _ λ entry e. tt

  remember-router :
      (sms : SmsMessage) (msg_id : MessageId) (world : World M L S) (log_timestamp : Text)
      → ((remember services sms msg_id world log_timestamp).router
          ≡ put_slot services.usize_bits world.router msg_id sms.sender)
        × ((remember services sms msg_id world log_timestamp).messenger ≡ world.messenger)
  unfolding remember put log_to
  remember-router sms msg_id world log_timestamp =
      elim (Bool-cases
        (save services.store (put_slot services.usize_bits world.router msg_id sms.sender)
          world.store).1) [
            | inl e ↦ rw (e, remember) (refl, refl)
            | inr e ↦ rw (e, remember) (refl, refl)
          ]

module _ {ℓ} {M L S : Type ℓ} (services : Services M L S) (sms : SmsMessage) (world : World M L S)
    (log_timestamp : Text) (text : Text) (active : is_paused services world.store ≡ false)
    (welcome : is_blocked services.store services.json sms.sender world.store ≡ false)
    (shown : sms_forward_text services sms ≡ some text) where
  after_send-Reported :
      (messenger : M) (result : Delivery)
      → services.sink.send_message_with_format world.messenger text html ≡ (messenger, result)
      → OnSome
          (Reported services world sms)
          (after_send services sms (record world { messenger = messenger }) log_timestamp result)
  unfolding after_send record_forward_success record_forward_failure log_to
  after_send-Reported messenger (delivered id) sent =
      OnSome-bind (Reported services world sms)
        (record_forward_success services sms id (record world { messenger = messenger })
          log_timestamp)
        _
        λ world' e.
          OnSome-get (λ (w : World M L S). IsReported services world w sms id)
            (record_forward_success services sms id (record world { messenger = messenger })
              log_timestamp)
            world'
            (OnSome-bind (λ (w : World M L S). IsReported services world w sms id)
              (sms_log_entry sms log_timestamp true) _
              λ entry f.
                let (router, messenger_kept) =
                  remember-router services sms id (record world { messenger = messenger })
                    log_timestamp in
                record {
                  active = active;
                  welcome = welcome;
                  text = text;
                  shown = shown;
                  sent = sent ∙ ap (λ m. (m, delivered id)) (sym messenger_kept);
                  mapped = router;
                })
            e
  after_send-Reported messenger (refused error) sent =
      OnSome-bind (Reported services world sms)
        (record_forward_failure services sms error (record world { messenger = messenger })
          log_timestamp)
        _ λ world' e. tt

module _ {ℓ} {M L S : Type ℓ} (services : Services M L S) where
  pub forward_sms-Reported :
      (sms : SmsMessage) (world : World M L S) (log_timestamp : Text)
      → OnSome (Reported services world sms) (forward_sms services sms world log_timestamp)
  unfolding forward_sms send_sms
  forward_sms-Reported sms world log_timestamp =
      OnSome-if (Reported services world sms) (is_paused services world.store) _ _
        (λ e. drop_sms-Reported services sms world world log_timestamp)
        λ active.
          OnSome-if (Reported services world sms)
            (is_blocked services.store services.json sms.sender world.store) _ _
            (λ e. drop_sms-Reported services sms world world log_timestamp)
            λ welcome.
              OnSome-bind (Reported services world sms) (sms_forward_text services sms) _
                λ text shown.
                  after_send-Reported services sms world log_timestamp text active welcome shown _ _
                    refl

  -- If the forwarding of a message gives an id, forwarding was on and the sender not blocked, the
  -- messenger took the message's text and gave that id to it, and the router maps the id to the
  -- sender.
  pub forward_sms-IsReported :
      (sms : SmsMessage) (world world' : World M L S) (log_timestamp : Text) (msg_id : MessageId)
      → forward_sms services sms world log_timestamp ≡ some (world', some msg_id)
      → IsReported services world world' sms msg_id
  forward_sms-IsReported sms world world' log_timestamp msg_id =
      OnSome-get (Reported services world sms) (forward_sms services sms world log_timestamp)
        (world', some msg_id) (forward_sms-Reported sms world log_timestamp)
