-- ===== src/Sms/Concat/Feed.antt =====
-- The table of groups: `ConcatReassembler` of src/sms/concat.rs.
use smsgate.Base.{
  ℕ, suc, ◌-◌, ◌==◌, ltb, leb, not, ◌&&◌, ◌||◌, if◌then◌else◌, Bool, true, false, List, [], ◌∷◌,
  ◌++◌, Option, none, some, ◌>>=◌, Text, text_eq, length, get_elem?, set, retain, position, remove,
}
use smsgate.Sms.Pdu.{SmsPdu}
use smsgate.Sms.Concat.Group.{
  Group, StorageSlot, max_groups, new, is_expired, track_slot, insert, assemble,
}

pub record CompletedSms : Type 0 where
  pub sender : Text
  pub content : Text
  pub timestamp : Text
  pub slots : List StorageSlot

pub data FeedOutcome : Type 0 where
  incomplete : FeedOutcome
  complete : CompletedSms → FeedOutcome
  invalid : FeedOutcome

pub record ConcatReassembler : Type 0 where
  pub groups : List Group

abbrev pub empty : ConcatReassembler
empty = record { groups = [] }

abbrev pub matches : SmsPdu → Group → Bool
matches pdu g =
    text_eq g.sender pdu.sender && g.ref_num == pdu.concat_ref && g.total == pdu.concat_total

-- `min_by_key` of `first_seen`, the first of the least, by its index; 0 for no group.
unfoldable pub oldest_from : ℕ → ℕ → ℕ → List Group → ℕ
oldest_from best best_seen i [] = best
oldest_from best best_seen i (g ∷ gs) =
    oldest_from (if ltb g.first_seen best_seen then i else best)
      (if ltb g.first_seen best_seen then g.first_seen else best_seen) (suc i) gs

unfoldable pub oldest : List Group → ℕ
unfolding oldest_from
oldest [] = 0
oldest (g ∷ gs) = oldest_from 0 g.first_seen 1 gs

-- A full table loses its oldest group.
unfoldable pub make_room : List Group → List Group
unfolding oldest remove
make_room groups = if leb max_groups (length groups) then remove (oldest groups) groups else groups

unfoldable pub push_group : ℕ → SmsPdu → List Group → ℕ × List Group
unfolding new
push_group now pdu groups = (
  length groups,
  groups ++ (new now pdu.sender pdu.concat_ref pdu.concat_total pdu.timestamp ∷ []),
)

-- The index of the PDU's group, and the table with it.
unfoldable pub find_or_create : ℕ → SmsPdu → List Group → ℕ × List Group
unfolding position make_room push_group
find_or_create now pdu groups = elim (position (matches pdu) groups) [
  | some i ↦ (i, groups)
  | none ↦ push_group now pdu (make_room groups)
]

unfoldable pub malformed : SmsPdu → Bool
malformed pdu =
    pdu.concat_total == 0 || pdu.concat_part == 0 || ltb pdu.concat_total pdu.concat_part

-- `is_some_and(|existing| existing != &pdu.content)`.
unfoldable pub conflicts : Option Text → Text → Bool
unfolding text_eq
conflicts none content = false
conflicts (some existing) content = not (text_eq existing content)

unfoldable pub track : Group → Option StorageSlot → Group × Bool
unfolding track_slot
track g none = (g, true)
track g (some slot) = track_slot g slot

abbrev pub completed : Group → CompletedSms
completed g = record {
  sender = g.sender;
  content = assemble g;
  timestamp = g.timestamp;
  slots = g.slots;
}

abbrev pub table : List Group → ConcatReassembler
table groups = record { groups = groups }

-- The part goes into its group; a group that is whole leaves the table.
unfoldable pub insert_part : ℕ → SmsPdu → List Group → Group → ConcatReassembler × FeedOutcome
unfolding insert assemble remove
insert_part idx pdu groups g =
    let (g', whole) = insert g pdu.concat_part pdu.content in
    if whole
    then (table (remove idx groups), complete (completed g'))
    else (table (set groups idx g'), incomplete)

-- What becomes of the part `pdu`, for its group `g`, in which the same part is `part` so far.
unfoldable pub place_part :
    ℕ
    → SmsPdu
    → Option StorageSlot
    → List Group
    → Group
    → Option Text
    → ConcatReassembler × FeedOutcome
unfolding conflicts track insert_part
place_part idx pdu slot groups g part =
    let (tracked, fits) = track g slot in
    if conflicts part pdu.content
    then (table groups, invalid)
    else if fits
    then insert_part idx pdu groups tracked
    else (table (set groups idx tracked), invalid)

unfoldable pub feed_group :
    ℕ → SmsPdu → Option StorageSlot → List Group → Option (ConcatReassembler × FeedOutcome)
unfolding place_part
feed_group idx pdu slot groups = do
  g ← get_elem? groups idx
  part ← get_elem? g.parts (pdu.concat_part - 1)
  some (place_part idx pdu slot groups g part)

unfoldable pub feed_with_slot :
    ℕ → ConcatReassembler → SmsPdu → Option StorageSlot → Option (ConcatReassembler × FeedOutcome)
unfolding malformed retain is_expired find_or_create feed_group
feed_with_slot now r pdu slot =
    if not pdu.is_concatenated
    then some (r, invalid)
    else if malformed pdu
    then some (r, invalid)
    else let (idx, groups) =
        find_or_create now pdu (retain (λ g. not (is_expired now g)) r.groups) in
      feed_group idx pdu slot groups

abbrev completed_of : FeedOutcome → Option CompletedSms
completed_of (complete c) = some c
completed_of incomplete = none
completed_of invalid = none

unfoldable pub feed :
    ℕ → ConcatReassembler → SmsPdu → Option (ConcatReassembler × Option CompletedSms)
unfolding feed_with_slot
feed now r pdu = do (r', outcome) ← feed_with_slot now r pdu none; some (r', completed_of outcome)

unfoldable pub group_count : ConcatReassembler → ℕ
group_count r = length r.groups
