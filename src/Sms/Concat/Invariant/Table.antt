-- ===== src/Sms/Concat/Invariant/Table.antt =====
-- Open groups and valid tables, and the operations of src/sms/concat.rs on one group or the table.
use smsgate.Base.{
  ℕ, zero, suc, ◌+◌, ◌-◌, ◌≤◌, ◌<◌, ◌≡◌, refl, sym, ◌∙◌, ap, inl, inr, ltb, leb, Bool-cases,
  if◌then◌else◌, Bool, false, List, [], ◌∷◌, Option, none, some, Text, length, get_elem?, set,
  replicate, retain, remove, arith, All, Pairs, All-retain, All-remove, All-set, Pairs-retain,
  Pairs-remove, Pairs-set, length-append, length-set, length-retain, length-remove,
  length-replicate,
}
use smsgate.Sms.Concat.Group.{
  Group, StorageSlot, max_groups, max_slots_per_group, new, track_slot, insert,
}
use smsgate.Sms.Concat.Feed.{ConcatReassembler, oldest_from, oldest, make_room, track}

-- How many parts have arrived.
abbrev pub present : List (Option Text) → ℕ
present [] = 0
present (none ∷ parts) = present parts
present (some part ∷ parts) = suc (present parts)

-- A group in the table is not yet whole, and its counters are right.
pub record IsOpen (g : Group) : Type 0 where
  pub sized : length g.parts ≡ g.total
  pub counted : g.received ≡ present g.parts
  pub missing : g.received < g.total
  pub bounded : length g.slots ≤ max_slots_per_group

abbrev pub SameKey : Group → Group → Type 0
SameKey g h = (g.sender ≡ h.sender) × (g.ref_num ≡ h.ref_num) × (g.total ≡ h.total)

abbrev pub DifferentKeys : Group → Group → Type 0
DifferentKeys g h = ¬ SameKey g h

-- At most eight groups, all open, and no two for one message.
pub record IsValid (r : ConcatReassembler) : Type 0 where
  pub few : length r.groups ≤ max_groups
  pub all_open : All IsOpen r.groups
  pub distinct : Pairs DifferentKeys r.groups

pub present-replicate : (n : ℕ) → present (replicate n none) ≡ 0
present-replicate zero = refl
present-replicate (suc n) = present-replicate n

pub present-set :
    (parts : List (Option Text)) (i : ℕ) (t : Text)
    → get_elem? parts i ≡ some none
    → present (set parts i (some t)) ≡ suc (present parts)
present-set [] i t h = cc
present-set (none ∷ parts) zero t h = refl
present-set (some p ∷ parts) zero t h = ground arith
present-set (none ∷ parts) (suc i) t h = present-set parts i t h
present-set (some p ∷ parts) (suc i) t h = ap suc (present-set parts i t h)

pub new-IsOpen :
    (now : ℕ) (sender : Text) (ref_num total : ℕ) (timestamp : Text)
    → 0 < total
    → IsOpen (new now sender ref_num total timestamp)
unfolding new
new-IsOpen now sender ref_num total timestamp h = record {
  sized = length-replicate total none;
  counted = omega (arith, present-replicate total);
  missing = h;
  bounded = omega arith;
}

pub track_slot-IsOpen : (g : Group) (slot : StorageSlot) → IsOpen g → IsOpen (track_slot g slot).0
unfolding track_slot
track_slot-IsOpen g slot v = ground (arith, length-append g.slots (slot ∷ []))

pub present-le : (parts : List (Option Text)) → present parts ≤ length parts
present-le [] = omega arith
present-le (none ∷ parts) = omega (arith, present-le parts)
present-le (some p ∷ parts) = omega (arith, present-le parts)

-- A group that is not whole after an insertion is open still.
pub insert-IsOpen :
    (g : Group) (part_num : ℕ) (content : Text)
    → IsOpen g
    → (insert g part_num content).1 ≡ false
    → IsOpen (insert g part_num content).0
unfolding insert
insert-IsOpen g part_num content v h = ground (
  arith,
  present-set g.parts (part_num - 1) content,
  length-set g.parts (part_num - 1) (some content),
  present-le (set g.parts (part_num - 1) (some content)),
)

pub insert-SameKey :
    (g : Group) (part_num : ℕ) (content : Text) → SameKey g (insert g part_num content).0
unfolding insert
insert-SameKey g part_num content = ground arith

pub track-IsOpen : (g : Group) (slot : Option StorageSlot) → IsOpen g → IsOpen (track g slot).0
unfolding track
track-IsOpen g none v = v
track-IsOpen g (some slot) v = track_slot-IsOpen g slot v

pub track-SameKey : (g : Group) (slot : Option StorageSlot) → SameKey g (track g slot).0
unfolding track track_slot
track-SameKey g none = (refl, refl, refl)
track-SameKey g (some slot) = ground arith

pub track-parts : (g : Group) (slot : Option StorageSlot) → (track g slot).0.parts ≡ g.parts
unfolding track track_slot
track-parts g none = refl
track-parts g (some slot) = ground arith

-- A group may be replaced by one with its key.
pub set-IsValid :
    (r : ConcatReassembler) (i : ℕ) (g g' : Group)
    → get_elem? r.groups i ≡ some g
    → SameKey g g'
    → IsOpen g'
    → IsValid r
    → IsValid (record { groups = set r.groups i g' })
set-IsValid r i g g' e k o v = record {
  few = omega (arith, length-set r.groups i g', v.few);
  all_open = All-set IsOpen r.groups i g' o v.all_open;
  distinct =
      Pairs-set DifferentKeys r.groups i g g' e (λ h d s. d (k.0 ∙ s.0, k.1 ∙ s.1, k.2 ∙ s.2))
        (λ h d s. d (s.0 ∙ sym k.0, s.1 ∙ sym k.1, s.2 ∙ sym k.2)) v.distinct;
}

pub remove-IsValid :
    (r : ConcatReassembler) (i : ℕ)
    → i < length r.groups
    → IsValid r
    → IsValid (record { groups = remove i r.groups })
remove-IsValid r i h v = record {
  few = omega (arith, length-remove i r.groups h, v.few);
  all_open = All-remove IsOpen i r.groups v.all_open;
  distinct = Pairs-remove DifferentKeys i r.groups v.distinct;
}

pub retain-IsValid :
    (p : Group → Bool) (r : ConcatReassembler)
    → IsValid r
    → IsValid (record { groups = retain p r.groups })
retain-IsValid p r v = record {
  few = omega (arith, length-retain p r.groups, v.few);
  all_open = All-retain IsOpen p r.groups v.all_open;
  distinct = Pairs-retain DifferentKeys p r.groups v.distinct;
}

oldest_from-lt :
    (best seen i n : ℕ) (gs : List Group)
    → best < n
    → i + length gs ≡ n
    → oldest_from best seen i gs < n
unfolding oldest_from
oldest_from-lt best seen i n [] h e = h
oldest_from-lt best seen i n (g ∷ gs) h e =
    oldest_from-lt (if ltb g.first_seen seen then i else best)
      (if ltb g.first_seen seen then g.first_seen else seen) (suc i) n gs (ground arith)
      (omega arith)

oldest-lt : (gs : List Group) → 0 < length gs → oldest gs < length gs
unfolding oldest
oldest-lt [] h = h
oldest-lt (g ∷ gs) h = oldest_from-lt 0 g.first_seen 1 _ gs (omega arith) (omega arith)

pub make_room-IsValid :
    (gs : List Group)
    → IsValid (record { groups = gs })
    → IsValid (record { groups = make_room gs }) × (length (make_room gs) < max_groups)
unfolding make_room
make_room-IsValid gs v = elim (Bool-cases (leb max_groups (length gs))) [
  | inl e ↦ rw e (
    remove-IsValid (record { groups = gs }) (oldest gs) (oldest-lt gs (ground arith)) v,
    omega (arith, v.few, length-remove (oldest gs) gs (oldest-lt gs (ground arith))),
  )
  | inr e ↦ rw e (v, ground arith)
]
