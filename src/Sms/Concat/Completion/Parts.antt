-- ===== src/Sms/Concat/Completion/Parts.antt =====
-- The parts of one group, of src/sms/concat.rs.
use smsgate.Base.{
  ℕ, zero, suc, ◌-◌, ◌≡◌, refl, ◌∙◌, ap, ◌⊎◌, inl, inr, Option-cases, true, false, List, [], ◌∷◌,
  ◌++◌, map, Option, none, some, Text, text_eq→eq, length, get_elem?, arith, concat,
  get_elem?-set_here, length-set, set,
}
use smsgate.Sms.Concat.Group.{Group, insert, join}
use smsgate.Sms.Concat.Feed.{conflicts}
use smsgate.Sms.Concat.Invariant.{IsOpen, present, present-le, present-set}

-- Parts none of which is missing.
pub all_present :
    (parts : List (Option Text))
    → present parts ≡ length parts
    → (texts : List Text) × (parts ≡ map some texts)
all_present [] h = ([], refl)
all_present (none ∷ parts) h = absurd (omega (arith, present-le parts))
all_present (some t ∷ parts) h =
    let (texts, e) = all_present parts (omega arith) in (t ∷ texts, ap (◌∷◌ (some t)) e)

pub join-map-some : (texts : List Text) → join (map some texts) ≡ concat texts
unfolding join
join-map-some [] = refl
join-map-some (t ∷ texts) = ap (◌++◌ t) (join-map-some texts)

pub length-map-some : (texts : List Text) → length (map {B = Option Text} some texts) ≡ length texts
length-map-some [] = refl
length-map-some (t ∷ texts) = ap suc (length-map-some texts)

pub get_elem?-map-some :
    (texts : List Text) (i : ℕ) (t : Text)
    → get_elem? (map {B = Option Text} some texts) i ≡ some (some t)
    → get_elem? texts i ≡ some t
get_elem?-map-some [] i t h = cc
get_elem?-map-some (x ∷ texts) zero t h = cc
get_elem?-map-some (x ∷ texts) (suc i) t h = get_elem?-map-some texts i t h

-- After an insertion the part is there, and a whole group has all its parts.
pub insert-whole :
    (g : Group) (part : Option Text) (part_num : ℕ) (content : Text)
    → IsOpen g
    → get_elem? g.parts (part_num - 1) ≡ some part
    → conflicts part content ≡ false
    → let (g', whole) = insert g part_num content in
      (get_elem? g'.parts (part_num - 1) ≡ some (some content))
      × (whole ≡ true → present g'.parts ≡ g.total)
      × (length g'.parts ≡ g.total)
unfolding insert conflicts
insert-whole g none n content o at fits =
    rw (at, insert)
      (
        get_elem?-set_here g.parts (n - 1) none (some content) at,
        λ h. ground (arith, present-set g.parts (n - 1) content, o.counted),
        omega (arith, length-set g.parts (n - 1) (some content), o.sized),
      )
insert-whole g (some kept) n content o at fits =
    let same : kept ≡ content = text_eq→eq kept content (ground arith) in
    rw (at, insert) (at ∙ ap (λ t. some (some t)) same, λ h. ground (arith, o.counted), o.sized)

set-keeps :
    (parts : List (Option Text)) (k : ℕ) (content : Text) (i : ℕ) (t : Text)
    → get_elem? (set parts k (some content)) i ≡ some (some t)
    → ((i ≡ k) × (t ≡ content)) ⊎ (get_elem? parts i ≡ some (some t))
set-keeps [] k content i t h = inr h
set-keeps (x ∷ parts) zero content zero t h = inl (refl, cc)
set-keeps (x ∷ parts) zero content (suc i) t h = inr h
set-keeps (x ∷ parts) (suc k) content zero t h = inr h
set-keeps (x ∷ parts) (suc k) content (suc i) t h = elim (set-keeps parts k content i t h) [
  | inl (a, b) ↦ inl (ap suc a, b)
  | inr e ↦ inr e
]

-- A text that is there after an insertion was inserted or was there before.
pub insert-keeps :
    (g : Group) (n : ℕ) (content : Text) (i : ℕ) (t : Text)
    → get_elem? (insert g n content).0.parts i ≡ some (some t)
    → ((i ≡ n - 1) × (t ≡ content)) ⊎ (get_elem? g.parts i ≡ some (some t))
unfolding insert
insert-keeps g n content i t h = elim (Option-cases (get_elem? g.parts (n - 1))) [
  | inl e ↦ inr (rw (e, insert) at h)
  | inr (some kept, e) ↦ inr (rw (e, insert) at h)
  | inr (none, e) ↦ set-keeps g.parts (n - 1) content i t (rw (e, insert) at h)
]
