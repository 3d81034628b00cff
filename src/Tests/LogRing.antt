-- ===== src/Tests/LogRing.antt =====
-- A log entry in a record of the flash.
use smsgate.Base.{ℕ, ◌≡◌, refl, inr, true, List, [], Option, none, some, codes, arith}
use smsgate.Log.Entry.{LogEntry, sms_entry}
use smsgate.Log.Payload.{encode_payload, decode_payload}
use smsgate.Log.Payload.RoundTrip.{kept, IsText}
use smsgate.Log.Payload.Bounds.{decode_payload-encode_payload_whole}
use smsgate.Log.Flash.{LogFlashStorage, FlashLogRing, record_bytes, decode_record, append}
use smsgate.Log.Flash.Record.{decode_record-record_bytes}
use smsgate.Log.Flash.Ring.{IsValid, append-IsValid}

-- With a tab in the text, which is escaped.
abbrev logged : LogEntry
logged = sms_entry (codes "Bank") (codes "a\tb") (codes "26/04/10") true

logged-IsText : IsText logged
logged-IsText = ground arith

abbrev or_nothing : Option (List ℕ) → List ℕ
or_nothing none = []
or_nothing (some bs) = bs

abbrev written : List ℕ
written = or_nothing (encode_payload logged)

decode_payload-encode_payload_whole_example : decode_payload written ≡ some logged
unfolding encode_payload
decode_payload-encode_payload_whole_example =
    decode_payload-encode_payload_whole logged written logged-IsText (omega arith) refl

decode_record-record_bytes_example :
    decode_record (record_bytes 7 written) ≡ some (record { seq = 7; entry = kept logged })
unfolding encode_payload
decode_record-record_bytes_example =
    decode_record-record_bytes 7 logged written (omega arith) (omega arith) logged-IsText refl

-- A flash that takes everything and keeps nothing.
abbrev blank : LogFlashStorage ℕ
blank = record {
  len = λ f. 16_384;
  erase_size = λ f. 4096;
  read = λ f offset size. (f, inr []);
  write = λ f offset bs. (f, none);
  erase = λ f offset size. (f, none);
}

-- The last slot, and the last number.
abbrev at_end : FlashLogRing ℕ
at_end = record {
  storage = 0;
  next_seq = 4_294_967_295;
  next_slot = 63;
  slots = 64;
  slots_per_erase = 16;
}

append-IsValid_example : IsValid (append blank at_end logged).0
append-IsValid_example =
    append-IsValid blank at_end logged
      (record { slot_exists = omega arith; seq_not_zero = omega arith; seq_small = omega arith })
