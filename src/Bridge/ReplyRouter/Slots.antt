-- ===== src/Bridge/ReplyRouter/Slots.antt =====
-- The ring of 200 slots of src/bridge/reply_router.rs and its operations.
-- A message id is an i64, here its bit pattern below 2 ^ 64; `as usize` keeps the low `usize_bits`
-- bits, 32 on the device. A slot's phone is an array of 23 bytes.
use smsgate.Base.{
  ℕ, suc, ◌-◌, ◌%◌, ◌^◌, min, ltb, ◌==◌, not, ◌&&◌, if◌then◌else◌, Bool, List, [], ◌∷◌, ◌++◌,
  Option, none, some, Text, bytes, from_utf8, length, take, drop, replicate, get_or, set,
  to_le_bytes, from_le_bytes,
}
use smsgate.Persist.Interface.{Store, reply_map}

abbrev pub slot_count : ℕ
slot_count = 200

abbrev pub phone_max : ℕ
phone_max = 23

abbrev pub stored_slot_bytes : ℕ
stored_slot_bytes = 32

abbrev pub stored_map_bytes : ℕ
stored_map_bytes = 6400

-- `message_id` 0 is an empty slot.
pub record Slot : Type 0 where
  pub message_id : ℕ
  pub phone : List ℕ

abbrev pub empty_slot : Slot
empty_slot = record { message_id = 0; phone = replicate phone_max 0 }

-- The bytes up to the first NUL.
unfoldable pub until_nul : List ℕ → List ℕ
until_nul [] = []
until_nul (b ∷ bs) = if b == 0 then [] else b ∷ until_nul bs

unfoldable pub text_or_empty : Option Text → Text
text_or_empty none = []
text_or_empty (some s) = s

unfoldable pub phone_str : Slot → Text
unfolding until_nul from_utf8 text_or_empty
phone_str slot = text_or_empty (from_utf8 (until_nul slot.phone))

pub record ReplyRouter : Type 0 where
  pub slots : List Slot

unfoldable pub new : ReplyRouter
new = record { slots = replicate slot_count empty_slot }

-- `i64::unsigned_abs`.
unfoldable pub unsigned_abs : ℕ → ℕ
unsigned_abs x = if ltb x (2 ^ 63) then x else 2 ^ 64 - x

unfoldable pub slot_index : ℕ → ℕ → ℕ
unfolding unsigned_abs
slot_index usize_bits message_id = unsigned_abs message_id % 2 ^ usize_bits % slot_count

-- The record of one slot in the store: id, phone and a byte of padding.
unfoldable pub encode_slot : Slot → List ℕ
encode_slot slot = to_le_bytes 8 slot.message_id ++ (slot.phone ++ (0 ∷ []))

unfoldable pub encode_slots : List Slot → List ℕ
encode_slots [] = []
encode_slots (slot ∷ slots) = encode_slot slot ++ encode_slots slots

-- A stored id that does not belong in the slot empties it.
unfoldable pub decode_slot : ℕ → ℕ → List ℕ → Slot
decode_slot usize_bits index bs =
    let message_id = from_le_bytes (take 8 bs) in
    if not (message_id == 0) && not (slot_index usize_bits message_id == index)
    then empty_slot
    else record { message_id = message_id; phone = take phone_max (drop 8 bs) }

-- Each slot in turn takes the next record.
unfoldable pub decode_slots : ℕ → ℕ → List Slot → List ℕ → List Slot
decode_slots usize_bits index [] bs = []
decode_slots usize_bits index (slot ∷ slots) bs =
    decode_slot usize_bits index (take stored_slot_bytes bs)
    ∷ decode_slots usize_bits (suc index) slots (drop stored_slot_bytes bs)

unfoldable pub load_bytes : ℕ → ReplyRouter → Option (List ℕ) → ReplyRouter
load_bytes usize_bits r none = r
load_bytes usize_bits r (some bs) =
    if ltb (length bs) stored_map_bytes
    then r
    else record { slots = decode_slots usize_bits 0 r.slots bs }

-- The phone's bytes, at most 22 of them, and NULs behind them.
unfoldable pub pad_phone : List ℕ → List ℕ
pad_phone bs =
    let copy_len = min (length bs) (phone_max - 1) in
    take copy_len bs ++ replicate (phone_max - copy_len) 0

abbrev pub filled : ℕ → Text → Slot
filled message_id phone = record { message_id = message_id; phone = pad_phone (bytes phone) }

unfoldable pub put_slot : ℕ → ReplyRouter → ℕ → Text → ReplyRouter
put_slot usize_bits r message_id phone = record {
  slots = set r.slots (slot_index usize_bits message_id) (filled message_id phone);
}

-- `none` for an empty text.
unfoldable pub non_empty : Text → Option Text
non_empty [] = none
non_empty (c ∷ s) = some (c ∷ s)

unfoldable pub lookup : ℕ → ReplyRouter → ℕ → Option Text
unfolding slot_index phone_str non_empty
lookup usize_bits r message_id =
    let slot = get_or r.slots (slot_index usize_bits message_id) empty_slot in
    if slot.message_id == message_id && not (slot.message_id == 0)
    then non_empty (phone_str slot)
    else none

module _ {ℓ} {S : Type ℓ} (store : Store S) where
  unfoldable pub load : ℕ → ReplyRouter → S → ReplyRouter
  load usize_bits r s = load_bytes usize_bits r (store.load s reply_map)

  unfoldable pub save : ReplyRouter → S → S × Bool
  save r s = store.save s reply_map (encode_slots r.slots)

  unfoldable pub put : ℕ → ReplyRouter → ℕ → Text → S → ReplyRouter × S × Bool
  put usize_bits r message_id phone s =
      let r' = put_slot usize_bits r message_id phone in
      let (s', saved) = save r' s in (r', s', saved)
