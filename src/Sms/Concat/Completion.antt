-- ===== src/Sms/Concat/Completion.antt =====
-- The completed message of `feed_with_slot` of src/sms/concat.rs.
mod Parts
pub use Parts.*
mod Source
pub use Source.*
use mathlib.Core.Path.{subst}
use smsgate.Base.{
  ℕ, zero, suc, ◌+◌, ◌-◌, ◌≡◌, refl, sym, ◌∙◌, ap, ◌⊎◌, inl, inr, not, Bool-cases, Option-cases,
  true, false, List, [], ◌∷◌, ◌++◌, map, Option, none, some, Text, text_eq→eq, length, get_elem?,
  retain, arith, All-get, concat, get_elem?-set_here, length-set, get_elem?-append_last, set,
  replicate, position, OnSome, OnSome-if, OnSome-get,
}
use smsgate.Sms.Pdu.{SmsPdu}
use smsgate.Sms.Concat.Group.{Group, StorageSlot, new, insert, join, assemble, is_expired}
use smsgate.Sms.Concat.Feed.{
  ConcatReassembler, FeedOutcome, complete, incomplete, invalid, completed, conflicts, place_part,
  track, insert_part, malformed, feed_group, feed_with_slot, CompletedSms, matches, make_room,
  push_group, find_or_create,
}
use smsgate.Sms.Concat.Invariant.{
  IsValid, IsOpen, IsFor, Found, find_or_create-Found, present, present-le, present-set,
  track-parts, track-SameKey, track-IsOpen, SameKey, insert-SameKey, retain-IsValid,
}

-- The table `r` held the text `t` in place `i` for the message of the PDU, in a group of the same
-- sender, reference and total that was not expired.
abbrev pub IsHeld : ℕ → ConcatReassembler → SmsPdu → ℕ → Text → Type 0
IsHeld now r pdu i t =
    (k : ℕ) × (g : Group) × (get_elem? r.groups k ≡ some g)
    × (is_expired now g ≡ false)
    × IsFor pdu g
    × (get_elem? g.parts i ≡ some (some t))

-- The text `t` in place `i` is what was received: that of this PDU, or of an earlier one.
abbrev pub IsReceived : ℕ → ConcatReassembler → SmsPdu → ℕ → Text → Type 0
IsReceived now r pdu i t = ((i ≡ pdu.concat_part - 1) × (t ≡ pdu.content)) ⊎ IsHeld now r pdu i t

-- `P` of every text with its place, counted from `i`.
abbrev pub AllAt : (ℕ → Text → Type 0) → ℕ → List Text → Type 0
AllAt P i [] = Unit
AllAt P i (t ∷ texts) = P i t × AllAt P (suc i) texts

-- The message `c` is made of as many texts as the PDU says, in order, each of them received from the
-- sender, and the PDU's own is in the place that its part number says.
abbrev pub IsMessage : ℕ → ConcatReassembler → SmsPdu → CompletedSms → Type 0
IsMessage now r pdu c =
    (c.sender ≡ pdu.sender)
    × ((texts : List Text) × (length texts ≡ pdu.concat_total)
        × (get_elem? texts (pdu.concat_part - 1) ≡ some pdu.content)
        × AllAt (IsReceived now r pdu) 0 texts
        × (c.content ≡ concat texts))

abbrev pub Tells : ℕ → ConcatReassembler → SmsPdu → FeedOutcome → Type 0
Tells now r pdu (complete c) = IsMessage now r pdu c
Tells now r pdu incomplete = Unit
Tells now r pdu invalid = Unit

AllAt-map-some :
    (P : ℕ → Text → Type 0) (i : ℕ) (texts : List Text)
    → ((j : ℕ) (t : Text)
        → get_elem? (map {B = Option Text} some texts) j ≡ some (some t)
        → P (i + j) t)
    → AllAt P i texts
AllAt-map-some P i [] h = tt
AllAt-map-some P i (t ∷ texts) h = (
  subst (λ k. P k t) (omega arith) (h 0 t refl),
  AllAt-map-some P (suc i) texts λ j u e. subst (λ k. P k u) (omega arith) (h (suc j) u e),
)

-- A whole group whose texts were received is a message.
whole-IsMessage :
    (now : ℕ) (r : ConcatReassembler) (pdu : SmsPdu) (g : Group)
    → IsFor pdu g
    → get_elem? g.parts (pdu.concat_part - 1) ≡ some (some pdu.content)
    → present g.parts ≡ g.total
    → length g.parts ≡ g.total
    → ((i : ℕ) (t : Text) → get_elem? g.parts i ≡ some (some t) → IsReceived now r pdu i t)
    → IsMessage now r pdu (completed g)
unfolding assemble
whole-IsMessage now r pdu g k at full sized received =
    let (texts, e) = all_present g.parts (full ∙ sym sized) in
    (
      k.from,
      (
        texts,
        omega (arith, ap length e, length-map-some texts, sized, k.counts),
        get_elem?-map-some texts (pdu.concat_part - 1) pdu.content
            (ap (λ ps. get_elem? ps (pdu.concat_part - 1)) (sym e) ∙ at),
        AllAt-map-some (IsReceived now r pdu) 0 texts (λ i t h.
            subst (λ k. IsReceived now r pdu k t) (omega arith)
              (received i t (ap (λ ps. get_elem? ps i) e ∙ h))),
        ap join e ∙ join-map-some texts,
      ),
    )

IsFor-SameKey : (pdu : SmsPdu) (g h : Group) → SameKey g h → IsFor pdu g → IsFor pdu h
IsFor-SameKey pdu g h k f = record {
  from = sym k.0 ∙ f.from;
  numbered = sym k.1 ∙ f.numbered;
  counts = sym k.2 ∙ f.counts;
}

Source : ℕ → ConcatReassembler → SmsPdu → Group → Type 0
Source now r pdu g = (i : ℕ) (t : Text) → get_elem? g.parts i ≡ some (some t) → IsHeld now r pdu i t

found-Source :
    (now : ℕ) (r : ConcatReassembler) (pdu : SmsPdu) (g : Group)
    → IsFor pdu g
    → (let f = find_or_create now pdu (retain (λ x. not (is_expired now x)) r.groups) in
        get_elem? f.1 f.0 ≡ some g)
    → Source now r pdu g
unfolding Source new
found-Source now r pdu g for h i t at =
    let gs = retain (λ x. not (is_expired now x)) r.groups in
    elim (find_or_create-source now pdu gs g h) [
      | inl there ↦
          let (k, held, young) = retain-source now r.groups (find_or_create now pdu gs).0 g there in
          (k, g, held, young, for, at)
      | inr e ↦ absurd (no_text pdu.concat_total i t (ap (λ x. get_elem? x.parts i) (sym e) ∙ at))
    ]

place_part-Tells :
    (now : ℕ) (r : ConcatReassembler) (idx : ℕ) (pdu : SmsPdu) (slot : Option StorageSlot)
    (gs : List Group) (g : Group) (part : Option Text)
    → IsOpen g
    → IsFor pdu g
    → Source now r pdu g
    → get_elem? g.parts (pdu.concat_part - 1) ≡ some part
    → Tells now r pdu (place_part idx pdu slot gs g part).1
unfolding place_part insert_part Source
place_part-Tells now r idx pdu slot gs g part o k source at =
    elim (Bool-cases (conflicts part pdu.content)) [
      | inl e ↦ rw e tt
      | inr e ↦ elim (Bool-cases (track g slot).1) [
        | inr t ↦ rw (e, t) tt
        | inl t ↦
            let g1 = (track g slot).0 in
            let g2 = (insert g1 pdu.concat_part pdu.content).0 in
            let (there, full, sized) =
              insert-whole g1 part pdu.concat_part pdu.content (track-IsOpen g slot o)
                (rw (track-parts g slot) at) e in
            let k2 =
              IsFor-SameKey pdu g1 g2 (insert-SameKey g1 pdu.concat_part pdu.content)
                (IsFor-SameKey pdu g g1 (track-SameKey g slot) k) in
            elim (Bool-cases (insert g1 pdu.concat_part pdu.content).1) [
              | inr w ↦ rw (e, t, w) tt
              | inl w ↦
                  let total = (insert-SameKey g1 pdu.concat_part pdu.content).2 in
                  rw (e, t, w)
                    (whole-IsMessage now r pdu g2 k2 there (full w ∙ total) (sized ∙ total) λ i u h.
                      elim (insert-keeps g1 pdu.concat_part pdu.content i u h) [
                        | inl here ↦ inl here
                        | inr before ↦ inr (source i u (rw (track-parts g slot) at before))
                      ])
            ]
      ]
    ]

abbrev TellsOf : ℕ → ConcatReassembler → SmsPdu → ConcatReassembler × FeedOutcome → Type 0
TellsOf now r pdu p = Tells now r pdu p.1

feed_group-Tells :
    (now : ℕ) (r : ConcatReassembler) (pdu : SmsPdu) (slot : Option StorageSlot)
    (f : ℕ × List Group)
    → Found pdu f
    → ((g : Group) → IsFor pdu g → get_elem? f.1 f.0 ≡ some g → Source now r pdu g)
    → OnSome (TellsOf now r pdu) (feed_group f.0 pdu slot f.1)
unfolding feed_group
feed_group-Tells now r pdu slot f (v, (g, at, k)) source =
    let o = All-get IsOpen f.1 f.0 g v.all_open at in
    elim (Option-cases (get_elem? g.parts (pdu.concat_part - 1))) [
      | inl e ↦ rw (at, e) tt
      | inr (part, e) ↦
          rw (at, e) (place_part-Tells now r f.0 pdu slot f.1 g part o k (source g k at) e)
    ]

feed_with_slot-Tells :
    (now : ℕ) (r : ConcatReassembler) (pdu : SmsPdu) (slot : Option StorageSlot)
    → IsValid r
    → OnSome (TellsOf now r pdu) (feed_with_slot now r pdu slot)
unfolding feed_with_slot
feed_with_slot-Tells now r pdu slot v =
    let P = TellsOf now r pdu in
    let left = retain (λ g. not (is_expired now g)) r.groups in
    OnSome-if P (not pdu.is_concatenated) _ _ (λ e. tt)
      λ e.
        OnSome-if P (malformed pdu) _ _ (λ m. tt)
          λ m.
            feed_group-Tells now r pdu slot (find_or_create now pdu left)
              (find_or_create-Found now pdu left (unfold malformed in ground arith)
                (retain-IsValid (λ g. not (is_expired now g)) r v))
              λ g k at. found-Source now r pdu g k at

-- The message that a feed of a valid table hands back is whole: it is the texts in the order of their
-- part numbers, as many as the parts say; the one of this PDU's number is this PDU's, and each is
-- either this PDU's or one that the table held in its place, in a group of the same sender, reference
-- and total that had not expired. The message's sender is the PDU's.
pub feed_with_slot-IsMessage :
    (now : ℕ) (r r' : ConcatReassembler) (pdu : SmsPdu) (slot : Option StorageSlot)
    (c : CompletedSms)
    → IsValid r
    → feed_with_slot now r pdu slot ≡ some (r', complete c)
    → IsMessage now r pdu c
feed_with_slot-IsMessage now r r' pdu slot c v h =
    OnSome-get (TellsOf now r pdu) (feed_with_slot now r pdu slot) (r', complete c)
      (feed_with_slot-Tells now r pdu slot v) h
