-- ===== src/Bridge/ReplyRouter/Lookup.antt =====
-- `put` and `lookup` of src/bridge/reply_router.rs.
use smsgate.Base.{
  ℕ, zero, suc, ◌-◌, ◌<◌, min, ◌≡◌, ◌≢◌, refl, inl, inr, ltb, ◌==◌, not, ◌&&◌, Bool-cases,
  if◌then◌else◌, List, [], ◌∷◌, ◌++◌, none, Text, bytes, from_utf8-bytes, IsScalar, All, All-append,
  length, replicate, get_or, set, encode_utf8, arith, take_all,
}
use smsgate.Bridge.ReplyRouter.Slots.{
  Slot, ReplyRouter, slot_count, phone_max, empty_slot, until_nul, text_or_empty, phone_str,
  slot_index, pad_phone, filled, put_slot, non_empty, lookup,
}

slot_index-lt : (w id : ℕ) → slot_index w id < slot_count
unfolding slot_index
slot_index-lt w id = omega arith

get_or-set :
    (xs : List Slot) (i j : ℕ) (v d : Slot)
    → i < length xs
    → get_or (set xs i v) j d ≡ (if i == j then v else get_or xs j d)
get_or-set [] i j v d h = elim h [ ]
get_or-set (x ∷ xs) zero zero v d h = refl
get_or-set (x ∷ xs) zero (suc j) v d h = ground arith
get_or-set (x ∷ xs) (suc i) zero v d h = ground arith
get_or-set (x ∷ xs) (suc i) (suc j) v d h = ground (arith, get_or-set xs i j v d (omega arith))

abbrev pub HasNoNul : List ℕ → Type 0
HasNoNul bs = All (λ b. b ≢ 0) bs

until_nul-append : (bs : List ℕ) (n : ℕ) → HasNoNul bs → until_nul (bs ++ replicate (suc n) 0) ≡ bs
unfolding until_nul
until_nul-append [] n h = refl
until_nul-append (b ∷ bs) n (hb, h) = ground (arith, until_nul-append bs n h)

pad_phone-until_nul :
    (bs : List ℕ) → length bs < phone_max → HasNoNul bs → until_nul (pad_phone bs) ≡ bs
unfolding pad_phone
pad_phone-until_nul bs h k =
    let copied : min (length bs) (phone_max - 1) ≡ length bs = omega arith in
    let behind : phone_max - length bs ≡ suc (phone_max - 1 - length bs) = omega arith in
    rw (copied, behind, take_all (length bs) bs (omega arith))
      (until_nul-append bs (phone_max - 1 - length bs) k)

encode_utf8-HasNoNul : (c : ℕ) → c ≢ 0 → HasNoNul (encode_utf8 c)
unfolding encode_utf8
encode_utf8-HasNoNul c h = elim (Bool-cases (ltb c 0x80)) [
  | inl e ↦ rw (e, encode_utf8) (h, tt)
  | inr e ↦ elim (Bool-cases (ltb c 0x800)) [
    | inl f ↦ rw (e, f, encode_utf8) (omega arith, (omega arith, tt))
    | inr f ↦ elim (Bool-cases (ltb c 0x10000)) [
      | inl g ↦ rw (e, f, g, encode_utf8) (omega arith, (omega arith, (omega arith, tt)))
      | inr g ↦
          rw (e, f, g, encode_utf8) (omega arith, (omega arith, (omega arith, (omega arith, tt))))
    ]
  ]
]

bytes-HasNoNul : (s : Text) → All (λ c. c ≢ 0) s → HasNoNul (bytes s)
unfolding bytes
bytes-HasNoNul [] h = tt
bytes-HasNoNul (c ∷ s) (hc, h) =
    All-append (λ b. b ≢ 0) (encode_utf8 c) (bytes s) (encode_utf8-HasNoNul c hc)
      (bytes-HasNoNul s h)

-- A text of characters other than NUL that takes at most 22 bytes.
pub record Fits (phone : Text) : Type 0 where
  pub characters : All IsScalar phone
  pub no_nul : All (λ c. c ≢ 0) phone
  pub short : length (bytes phone) < phone_max

phone_str-filled : (id : ℕ) (phone : Text) → Fits phone → phone_str (filled id phone) ≡ phone
unfolding phone_str
phone_str-filled id phone f =
    rw
      (
        pad_phone-until_nul (bytes phone) f.short (bytes-HasNoNul phone f.no_nul),
        from_utf8-bytes phone f.characters,
      )
      (unfold text_or_empty in refl)

-- In a router of 200 slots, after `put` of a phone of Unicode's characters, without NUL and of at most
-- 22 bytes, the slot of the id answers for that id alone, with the phone that was put, unless that is
-- empty or the id is 0; whatever id the slot had before is forgotten, and the ids of other slots are
-- answered as before.
pub lookup-put_slot :
    (w : ℕ) (r : ReplyRouter) (id j : ℕ) (phone : Text)
    → length r.slots ≡ slot_count
    → Fits phone
    → lookup w (put_slot w r id phone) j ≡ (
        if slot_index w id == slot_index w j
        then (if id == j && not (id == 0) then non_empty phone else none)
        else lookup w r j)
unfolding lookup put_slot
lookup-put_slot w r id j phone h f =
    rw
      (get_or-set r.slots (slot_index w id) (slot_index w j) (filled id phone) empty_slot
        (omega (arith, slot_index-lt w id)))
      (elim (Bool-cases (slot_index w id == slot_index w j)) [
        | inl e ↦ rw (e, phone_str-filled id phone f)
        | inr e ↦ rw e
      ])
