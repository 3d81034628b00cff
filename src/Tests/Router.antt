-- ===== src/Tests/Router.antt =====
-- The reply router and the block list over the store of the tests.
use smsgate.Base.{
  ℕ, ◌+◌, ◌*◌, ◌≤◌, ◌<◌, ◌≡◌, refl, Bool, true, false, if◌then◌else◌, List, [], ◌∷◌, Option, none,
  some, Text, codes, All, IsByte, replicate, arith,
}
use smsgate.Persist.Interface.{load_i64, save_i64, load_i64-save_i64, im_cursor}
use smsgate.Persist.Memory.{MemStore, mem_store, mem_store-IsStore}
use smsgate.Persist.Memory
use smsgate.Bridge.ReplyRouter.Slots.{
  ReplyRouter, put_slot, lookup, load, put, load_bytes, non_empty,
}
use smsgate.Bridge.ReplyRouter.Slots
use smsgate.Bridge.ReplyRouter.Lookup.{Fits, lookup-put_slot}
use smsgate.Bridge.ReplyRouter.Stored.{IsValid, new-IsValid, load-put, load_bytes-IsValid}
use smsgate.Bridge.Blocklist.{Json, IsJson, is_blocked, add_to_blocklist, stored_list}
use smsgate.Bridge.Blocklist.Laws.{add_to_blocklist-is_blocked, is_blocked_name}

abbrev phone : Text
phone = codes "+4915"

phone-Fits : Fits phone
unfolding smsgate.Base.bytes smsgate.Base.encode_utf8
phone-Fits = record {
  characters = (refl, (refl, (refl, (refl, (refl, tt)))));
  no_nul = omega arith;
  short = omega arith;
}

load_i64-save_i64_example :
    load_i64 mem_store (save_i64 mem_store Memory.new im_cursor 300).0 im_cursor ≡ some 300
unfolding save_i64 Memory.save
load_i64-save_i64_example =
    load_i64-save_i64 mem_store mem_store-IsStore Memory.new im_cursor 300 (omega arith) refl

-- An id that shares the slot of 7 is forgotten by `put`.
lookup-put_slot_example : lookup 32 (put_slot 32 Slots.new 7 phone) 207 ≡ none
unfolding Slots.slot_index Slots.new
lookup-put_slot_example = lookup-put_slot 32 Slots.new 7 207 phone refl phone-Fits

load-put_example :
    load mem_store 32 Slots.new (put mem_store 32 Slots.new 7 phone Memory.new).1
    ≡ (put mem_store 32 Slots.new 7 phone Memory.new).0
unfolding put Slots.save Memory.save
load-put_example =
    load-put mem_store mem_store-IsStore 32 Slots.new 7 phone Memory.new (new-IsValid 32)
      (omega arith) refl

load_bytes-IsValid_example : IsValid 32 (load_bytes 32 Slots.new (some (1 ∷ 2 ∷ [])))
load_bytes-IsValid_example =
    load_bytes-IsValid 32 Slots.new (1 ∷ 2 ∷ []) (new-IsValid 32) (omega arith)

-- A list of texts behind a mark: what stands for JSON here holds no more than one text.
abbrev write_one : List Text → Option (List ℕ)
write_one [] = some []
write_one (t ∷ []) = some (1 ∷ t)
write_one (t ∷ u ∷ ts) = none

abbrev read_one : List ℕ → Option (List Text)
read_one [] = some []
read_one (b ∷ bs) = some (bs ∷ [])

abbrev one_text : Json
one_text = record { from_slice = read_one; to_vec = write_one }

one_text-IsJson : IsJson one_text
one_text-IsJson = record { from_slice-to_vec = law }
  where
    law : (list : List Text) (bs : List ℕ) → write_one list ≡ some bs → read_one bs ≡ some list
    law [] [] h = refl
    law [] (b ∷ bs) h = cc
    law (t ∷ []) [] h = cc
    law (t ∷ []) (b ∷ bs) h = cc
    law (t ∷ u ∷ ts) bs h = cc

add_to_blocklist-is_blocked_example :
    is_blocked mem_store one_text phone (add_to_blocklist mem_store one_text phone Memory.new).0
    ≡ true
unfolding add_to_blocklist Memory.save Memory.load Memory.new smsgate.Base.any smsgate.Base.text_eq
add_to_blocklist-is_blocked_example =
    add_to_blocklist-is_blocked mem_store mem_store-IsStore one_text one_text-IsJson phone
      Memory.new refl

-- The sender "Bank" is blocked by the entry for one number.
abbrev one_listed : MemStore
one_listed = record { contents = λ key. some (1 ∷ phone) }

is_blocked_name_example : is_blocked mem_store one_text (codes "Bank") one_listed ≡ true
unfolding stored_list Memory.load smsgate.Base.any
is_blocked_name_example =
    is_blocked_name mem_store one_text (codes "Bank") one_listed phone [] refl refl
