-- ===== src/Sms/Concat/Invariant.antt =====
-- The invariant of the table of groups of src/sms/concat.rs.
mod Table
pub use Table.*
use smsgate.Base.{
  ℕ, zero, suc, ◌-◌, ◌<◌, ◌≡◌, refl, ◌∙◌, inl, inr, not, Bool-cases, Option-cases, Bool, true,
  false, List, [], ◌∷◌, Option, some, Text, text_eq→eq, eq→text_eq, length, get_elem?, retain,
  position, remove, arith, All-append, All-get, Pairs-snoc, not_any-All, length-append,
  position-none, position-get_elem?, get_elem?-append_last, get_elem?-lt, any, lt-get_elem?,
}
use smsgate.Sms.Pdu.{SmsPdu}
use smsgate.Sms.Concat.Group.{Group, StorageSlot, max_groups, new, insert, is_expired}
use smsgate.Sms.Concat.Feed.{
  ConcatReassembler, empty, conflicts, place_part, matches, oldest, make_room, push_group,
  find_or_create, malformed, track, insert_part, feed_group, feed_with_slot, FeedOutcome,
}

-- The group is that of the PDU's message.
pub record IsFor (pdu : SmsPdu) (g : Group) : Type 0 where
  pub from : g.sender ≡ pdu.sender
  pub numbered : g.ref_num ≡ pdu.concat_ref
  pub counts : g.total ≡ pdu.concat_total

matches-IsFor : (pdu : SmsPdu) (g : Group) → matches pdu g ≡ true → IsFor pdu g
matches-IsFor pdu g h = record {
  from = text_eq→eq g.sender pdu.sender (ground arith);
  numbered = ground arith;
  counts = ground arith;
}

not_matches-Different :
    (now : ℕ) (pdu : SmsPdu) (g : Group)
    → matches pdu g ≡ false
    → DifferentKeys g (new now pdu.sender pdu.concat_ref pdu.concat_total pdu.timestamp)
unfolding new
not_matches-Different now pdu g h k = ground (arith, eq→text_eq g.sender pdu.sender k.0, k.1, k.2)

abbrev pub Found : SmsPdu → ℕ × List Group → Type 0
Found pdu f =
    IsValid (record { groups = f.1 }) × ((g : Group) × (get_elem? f.1 f.0 ≡ some g) × IsFor pdu g)

push_group-Found :
    (now : ℕ) (pdu : SmsPdu) (gs : List Group)
    → 0 < pdu.concat_total
    → IsValid (record { groups = gs })
    → length gs < max_groups
    → any (matches pdu) gs ≡ false
    → Found pdu (push_group now pdu gs)
unfolding push_group
push_group-Found now pdu gs h v few absent = (
  record {
    few = omega (arith, length-append gs (g ∷ []));
    all_open =
        All-append IsOpen gs (g ∷ []) v.all_open
          (new-IsOpen now pdu.sender pdu.concat_ref pdu.concat_total pdu.timestamp h, tt);
    distinct = Pairs-snoc DifferentKeys gs g v.distinct (
        not_any-All (λ x. DifferentKeys x g) (matches pdu) gs (not_matches-Different now pdu)
          absent);
  },
  (
    g,
    get_elem?-append_last gs g,
    unfold new in record { from = refl; numbered = refl; counts = refl },
  ),
)
  where
    g : Group
    g = new now pdu.sender pdu.concat_ref pdu.concat_total pdu.timestamp

any-remove :
    (p : Group → Bool) (i : ℕ) (gs : List Group) → any p gs ≡ false → any p (remove i gs) ≡ false
unfolding any remove
any-remove p i [] h = refl
any-remove p zero (g ∷ gs) h = ground arith
any-remove p (suc i) (g ∷ gs) h = ground (arith, any-remove p i gs)

any-make_room :
    (p : Group → Bool) (gs : List Group) → any p gs ≡ false → any p (make_room gs) ≡ false
unfolding make_room
any-make_room p gs h = ground (arith, any-remove p (oldest gs) gs)

pub find_or_create-Found :
    (now : ℕ) (pdu : SmsPdu) (gs : List Group)
    → 0 < pdu.concat_total
    → IsValid (record { groups = gs })
    → Found pdu (find_or_create now pdu gs)
unfolding find_or_create
find_or_create-Found now pdu gs h v = elim (Option-cases (position (matches pdu) gs)) [
  | inl e ↦
      let (room, few) = make_room-IsValid gs v in
      rw (e, find_or_create)
        (push_group-Found now pdu (make_room gs) h room few
          (any-make_room (matches pdu) gs (position-none (matches pdu) gs e)))
  | inr (i, e) ↦
      let (g, at, same) = position-get_elem? (matches pdu) gs i e in
      rw (e, find_or_create) (v, (g, at, matches-IsFor pdu g same))
]

-- A feed that returns, into a table that is valid again.
abbrev pub Returns : Option (ConcatReassembler × FeedOutcome) → Type 0
Returns o = (p : ConcatReassembler × FeedOutcome) × (o ≡ some p) × IsValid p.0

insert_part-IsValid :
    (idx : ℕ) (pdu : SmsPdu) (gs : List Group) (old g : Group)
    → IsValid (record { groups = gs })
    → get_elem? gs idx ≡ some old
    → SameKey old g
    → IsOpen g
    → IsValid (insert_part idx pdu gs g).0
unfolding insert_part
insert_part-IsValid idx pdu gs old g v at k o =
    let (g', whole) = insert g pdu.concat_part pdu.content in
    let s = insert-SameKey g pdu.concat_part pdu.content in
    elim (Bool-cases whole) [
      | inl e ↦ rw e (remove-IsValid (record { groups = gs }) idx (get_elem?-lt gs idx old at) v)
      | inr e ↦ rw e (
          set-IsValid (record { groups = gs }) idx old g' at (k.0 ∙ s.0, k.1 ∙ s.1, k.2 ∙ s.2)
            (insert-IsOpen g pdu.concat_part pdu.content o e) v)
    ]

place_part-IsValid :
    (idx : ℕ) (pdu : SmsPdu) (slot : Option StorageSlot) (gs : List Group) (g : Group)
    (part : Option Text)
    → IsValid (record { groups = gs })
    → get_elem? gs idx ≡ some g
    → IsValid (place_part idx pdu slot gs g part).0
unfolding place_part
place_part-IsValid idx pdu slot gs g part v at =
    let o = All-get IsOpen gs idx g v.all_open at in
    elim (Bool-cases (conflicts part pdu.content)) [
      | inl e ↦ rw e v
      | inr e ↦ elim (Bool-cases (track g slot).1) [
        | inl t ↦
            rw (e, t)
              (insert_part-IsValid idx pdu gs g (track g slot).0 v at (track-SameKey g slot)
                (track-IsOpen g slot o))
        | inr t ↦
            rw (e, t)
              (set-IsValid (record { groups = gs }) idx g (track g slot).0 at (track-SameKey g slot)
                (track-IsOpen g slot o) v)
      ]
    ]

feed_group-Returns :
    (pdu : SmsPdu) (slot : Option StorageSlot) (f : ℕ × List Group)
    → malformed pdu ≡ false
    → Found pdu f
    → Returns (feed_group f.0 pdu slot f.1)
unfolding feed_group malformed
feed_group-Returns pdu slot f h (v, (g, at, same)) =
    let o = All-get IsOpen f.1 f.0 g v.all_open at in
    let (part, there) =
      lt-get_elem? g.parts (pdu.concat_part - 1) (ground (arith, o.sized, same.counts)) in
    (
      place_part f.0 pdu slot f.1 g part,
      rw (at, there),
      place_part-IsValid f.0 pdu slot f.1 g part v at,
    )

-- On a valid table `feed_with_slot` never reads out of range, and the table stays valid: at most
-- eight groups, each of them still open with its counters right and at most 64 slots, and no two
-- for the same sender, reference and total.
pub feed_with_slot-IsValid :
    (now : ℕ) (r : ConcatReassembler) (pdu : SmsPdu) (slot : Option StorageSlot)
    → IsValid r
    → Returns (feed_with_slot now r pdu slot)
unfolding feed_with_slot
feed_with_slot-IsValid now r pdu slot v = elim (Bool-cases pdu.is_concatenated) [
  | inr e ↦ rw (e, feed_with_slot) ((r, _), refl, v)
  | inl e ↦ elim (Bool-cases (malformed pdu)) [
    | inl m ↦ rw (e, m, feed_with_slot) ((r, _), refl, v)
    | inr m ↦
        rw (e, m, feed_with_slot)
          (feed_group-Returns pdu slot _ m (
            find_or_create-Found now pdu (retain (λ g. not (is_expired now g)) r.groups)
              (unfold malformed in ground arith)
              (retain-IsValid (λ g. not (is_expired now g)) r v)))
  ]
]

pub empty-IsValid : IsValid empty
empty-IsValid = record { few = omega arith; all_open = tt; distinct = tt }
