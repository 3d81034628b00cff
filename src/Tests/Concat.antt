-- ===== src/Tests/Concat.antt =====
-- A message of two parts, fed in the wrong order.
use smsgate.Base.{ℕ, ◌≡◌, refl, true, [], ◌∷◌, none, some, Text, codes, arith}
use smsgate.Sms.Pdu.{SmsPdu}
use smsgate.Sms.Concat.Feed.{
  ConcatReassembler, CompletedSms, complete, incomplete, empty, feed_with_slot,
}
use smsgate.Sms.Concat.Invariant.{IsValid, Returns, empty-IsValid, feed_with_slot-IsValid}
use smsgate.Sms.Concat.Completion.{IsMessage, feed_with_slot-IsMessage}

abbrev part : ℕ → Text → SmsPdu
part n content = record {
  sender = codes "+4915";
  timestamp = codes "26/04/10,12:00:00+32";
  content = content;
  dcs = 0;
  user_data_header = [];
  user_data_payload = [];
  destination_port = none;
  source_port = none;
  is_concatenated = true;
  concat_ref = 7;
  concat_total = 2;
  concat_part = n;
}

abbrev waiting : ConcatReassembler
waiting = record {
  groups =
      record {
        sender = codes "+4915";
        ref_num = 7;
        total = 2;
        parts = none ∷ some (codes "lo") ∷ [];
        received = 1;
        first_seen = 5;
        timestamp = codes "26/04/10,12:00:00+32";
        slots = [];
      }
      ∷ [];
}

abbrev whole : CompletedSms
whole = record {
  sender = codes "+4915";
  content = codes "hello";
  timestamp = codes "26/04/10,12:00:00+32";
  slots = [];
}

second_first : feed_with_slot 5 empty (part 2 (codes "lo")) none ≡ some (waiting, incomplete)
unfolding feed_with_slot
second_first = refl

then_first : feed_with_slot 6 waiting (part 1 (codes "hel")) none ≡ some (empty, complete whole)
unfolding feed_with_slot
then_first = refl

waiting-IsValid : IsValid waiting
waiting-IsValid = record {
  few = omega arith;
  all_open =
      (record { sized = refl; counted = refl; missing = omega arith; bounded = omega arith }, tt);
  distinct = (tt, tt);
}

feed_with_slot-IsValid_example : Returns (feed_with_slot 5 empty (part 2 (codes "lo")) none)
feed_with_slot-IsValid_example =
    feed_with_slot-IsValid 5 empty (part 2 (codes "lo")) none empty-IsValid

feed_with_slot-IsMessage_example : IsMessage 6 waiting (part 1 (codes "hel")) whole
feed_with_slot-IsMessage_example =
    feed_with_slot-IsMessage 6 waiting empty (part 1 (codes "hel")) none whole waiting-IsValid
      then_first
