-- ===== src/Sms/Concat/Completion/Source.antt =====
-- The group that a feed finds or makes, of src/sms/concat.rs.
use smsgate.Base.{
  ℕ, zero, suc, ◌≡◌, ◌⊎◌, inl, inr, not, Bool-cases, Option-cases, false, List, [], ◌∷◌, ◌++◌,
  Option, none, some, Text, length, get_elem?, retain, get_elem?-append_last, replicate, position,
}
use smsgate.Sms.Pdu.{SmsPdu}
use smsgate.Sms.Concat.Group.{Group, new, is_expired}
use smsgate.Sms.Concat.Feed.{matches, make_room, push_group, find_or_create}

-- What is said of a list's tail, said of the list.
source_of :
    (now : ℕ) (x g : Group) (rest gs : List Group)
    → is_expired now x ≡ false
    → ((j : ℕ)
        → get_elem? rest j ≡ some g
        → (k : ℕ) × (get_elem? gs k ≡ some g) × (is_expired now g ≡ false))
    → (i : ℕ) → get_elem? (x ∷ rest) i ≡ some g
    → (k : ℕ) × (get_elem? (x ∷ gs) k ≡ some g) × (is_expired now g ≡ false)
source_of now x g rest gs e h zero q = let same : x ≡ g = cc in (0, q, rw⁻¹ same e)
source_of now x g rest gs e h (suc j) q = let (k, at, young) = h j q in (suc k, at, young)

-- A group that is left was there, and is not expired.
pub retain-source :
    (now : ℕ) (gs : List Group) (i : ℕ) (g : Group)
    → get_elem? (retain (λ x. not (is_expired now x)) gs) i ≡ some g
    → (k : ℕ) × (get_elem? gs k ≡ some g) × (is_expired now g ≡ false)
unfolding retain
retain-source now [] i g h = cc
retain-source now (x ∷ gs) i g h = elim (Bool-cases (is_expired now x)) [
  | inl e ↦ let (k, at, q) = retain-source now gs i g (rw (e, retain) at h) in (suc k, at, q)
  | inr e ↦
      source_of now x g (retain (λ y. not (is_expired now y)) gs) gs e
        (λ j q. retain-source now gs j g q) i (rw (e, retain) at h)
]

pub no_text :
    (n i : ℕ) (t : Text) → get_elem? (replicate {A = Option Text} n none) i ≡ some (some t) → ⊥
no_text zero i t h = cc
no_text (suc n) zero t h = cc
no_text (suc n) (suc i) t h = no_text n i t h

-- The group that is found was in the table, or has no text yet.
pub find_or_create-source :
    (now : ℕ) (pdu : SmsPdu) (gs : List Group) (g : Group)
    → get_elem? (find_or_create now pdu gs).1 (find_or_create now pdu gs).0 ≡ some g
    → (get_elem? gs (find_or_create now pdu gs).0 ≡ some g)
      ⊎ (g ≡ new now pdu.sender pdu.concat_ref pdu.concat_total pdu.timestamp)
unfolding find_or_create push_group
find_or_create-source now pdu gs g h = elim (Option-cases (position (matches pdu) gs)) [
  | inr (i, e) ↦ rw (e, find_or_create) (inl (rw (e, find_or_create) at h))
  | inl e ↦ inr (
      let fresh = new now pdu.sender pdu.concat_ref pdu.concat_total pdu.timestamp in
      let last = get_elem?-append_last (make_room gs) fresh in
      let there : get_elem? (make_room gs ++ (fresh ∷ [])) (length (make_room gs)) ≡ some g =
        rw (e, find_or_create) at h in
      cc)
]
