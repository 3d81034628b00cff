-- ===== src/Sms/Concat/InOrder.antt =====
-- The parts of one message fed in order, of src/sms/concat.rs.
use smsgate.Base.{
  ℕ, zero, suc, ◌+◌, true, List, [], ◌∷◌, ◌++◌, map, Option, none, some, ◌>>=◌, Text, length,
  replicate,
}
use smsgate.Sms.Pdu.{SmsPdu}
use smsgate.Sms.Concat.Group.{Group}
use smsgate.Sms.Concat.Feed.{
  ConcatReassembler, FeedOutcome, complete, incomplete, table, completed, feed_with_slot,
}

-- The part `n` of `total`, and the rest as in `pdu`.
abbrev pub part_of : SmsPdu → ℕ → ℕ → Text → SmsPdu
part_of pdu total n text = record pdu {
  content = text;
  is_concatenated = true;
  concat_total = total;
  concat_part = n;
}

-- The group with the texts that have arrived, and `left` parts to come.
abbrev pub group_of : ℕ → SmsPdu → List Text → ℕ → Group
group_of first_seen pdu texts left = record {
  sender = pdu.sender;
  ref_num = pdu.concat_ref;
  total = length texts + left;
  parts = map some texts ++ replicate left none;
  received = length texts;
  first_seen = first_seen;
  timestamp = pdu.timestamp;
  slots = [];
}

-- One after the other, each with the time of its arrival, and what comes of each.
unfoldable pub feed_all :
    ConcatReassembler → List (ℕ × SmsPdu) → Option (ConcatReassembler × List FeedOutcome)
feed_all r [] = some (r, [])
feed_all r ((now, pdu) ∷ rest) = do
  (r', outcome) ← feed_with_slot now r pdu none
  (r'', outcomes) ← feed_all r' rest
  some (r'', outcome ∷ outcomes)

abbrev pub message : ℕ → SmsPdu → List Text → FeedOutcome
message seen pdu texts = complete (completed (group_of seen pdu texts 0))

-- What becomes of the table and of the part after `done`.
abbrev pub Next : ℕ → SmsPdu → List Text → ℕ → ConcatReassembler × FeedOutcome
Next seen pdu done zero = (table [], message seen pdu done)
Next seen pdu done (suc left) = (table (group_of seen pdu done (suc left) ∷ []), incomplete)

-- The parts with their times of arrival, numbered from `n` on.
abbrev pub numbered : SmsPdu → ℕ → ℕ → List (ℕ × Text) → List (ℕ × SmsPdu)
numbered pdu total n [] = []
numbered pdu total n ((now, text) ∷ rest) =
    (now, part_of pdu total n text) ∷ numbered pdu total (suc n) rest

abbrev pub texts_of : List (ℕ × Text) → List Text
texts_of [] = []
texts_of ((now, text) ∷ rest) = text ∷ texts_of rest

-- All but the last part leave the message incomplete.
abbrev pub outcomes : List (ℕ × Text) → FeedOutcome → List FeedOutcome
outcomes [] last = last ∷ []
outcomes (a ∷ rest) last = incomplete ∷ outcomes rest last
