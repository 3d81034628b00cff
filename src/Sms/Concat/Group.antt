-- ===== src/Sms/Concat/Group.antt =====
-- The group of the parts of one message: `Group` of src/sms/concat.rs and its methods.
use smsgate.Base.{
  ℕ, ◌+◌, ◌-◌, ◌*◌, ◌==◌, ltb, leb, ◌&&◌, if◌then◌else◌, Bool, true, false, List, [], ◌∷◌, ◌++◌,
  Option, none, some, Text, text_eq, length, get_elem?, set, replicate,
}

abbrev pub secs : ℕ → ℕ
secs n = n * 1_000_000_000

abbrev pub max_groups : ℕ
max_groups = 8

abbrev pub max_slots_per_group : ℕ
max_slots_per_group = 64

abbrev pub group_ttl : ℕ
group_ttl = secs (24 * 3600)

pub record StorageSlot : Type 0 where
  pub mem : Text
  pub index : ℕ
  pub fingerprint : ℕ

pub record Group : Type 0 where
  pub sender : Text
  pub ref_num : ℕ
  pub total : ℕ
  pub parts : List (Option Text)
  pub received : ℕ
  pub first_seen : ℕ
  pub timestamp : Text
  pub slots : List StorageSlot

unfoldable pub new : ℕ → Text → ℕ → ℕ → Text → Group
new now sender ref_num total timestamp = record {
  sender = sender;
  ref_num = ref_num;
  total = total;
  parts = replicate total none;
  received = 0;
  first_seen = now;
  timestamp = timestamp;
  slots = [];
}

-- The same place in the modem's storage.
abbrev pub same_place : StorageSlot → StorageSlot → Bool
same_place slot existing = text_eq existing.mem slot.mem && existing.index == slot.index

-- `Iterator::find` of the slot at the same place.
unfoldable pub find_slot : StorageSlot → List StorageSlot → Option StorageSlot
find_slot slot [] = none
find_slot slot (existing ∷ rest) =
    if same_place slot existing then some existing else find_slot slot rest

unfoldable pub track_slot : Group → StorageSlot → Group × Bool
track_slot g slot = elim (find_slot slot g.slots) [
  | some existing ↦ (g, existing.fingerprint == slot.fingerprint)
  | none ↦
      if leb max_slots_per_group (length g.slots)
      then (g, false)
      else (record g { slots = g.slots ++ (slot ∷ []) }, true)
]

unfoldable pub insert : Group → ℕ → Text → Group × Bool
insert g part_num content =
    let idx = part_num - 1 in
    elim (get_elem? g.parts idx) [
      | none ↦ (g, false)
      | some none ↦
          let g' = record g { parts = set g.parts idx (some content); received = g.received + 1 } in
          (g', g'.received == g'.total)
      | some (some kept) ↦ (g, g.received == g.total)
    ]

-- The parts that are there, in order of their numbers, one after the other.
unfoldable pub join : List (Option Text) → Text
join [] = []
join (none ∷ parts) = join parts
join (some part ∷ parts) = part ++ join parts

unfoldable pub assemble : Group → Text
unfolding join
assemble g = join g.parts

unfoldable pub is_expired : ℕ → Group → Bool
is_expired now g = ltb group_ttl (now - g.first_seen)
