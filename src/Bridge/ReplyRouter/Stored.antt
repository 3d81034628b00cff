-- ===== src/Bridge/ReplyRouter/Stored.antt =====
-- The router in the store, of src/bridge/reply_router.rs.
use smsgate.Base.{
  ℕ, zero, suc, ◌+◌, ◌-◌, ◌*◌, ◌^◌, ◌≤◌, ◌<◌, ◌≡◌, ◌≢◌, refl, ◌∙◌, ap, inl, inr, ltb, ◌==◌, not,
  ◌&&◌, Bool-cases, true, false, List, [], ◌∷◌, ◌++◌, some, Text, length, take, drop, set,
  replicate, arith, length-append, take-append_length, drop-append_length,
  from_le_bytes-to_le_bytes, length-to_le_bytes, to_le_bytes, from_le_bytes, from_le_bytes-lt,
  length-replicate, length-take, length-drop, length-set, bytes, min, All, All-take, All-drop,
  IsByte,
}
use mathlib.Core.Path.{subst}
use smsgate.Persist.Interface.{Store, IsStore, reply_map}
use smsgate.Bridge.ReplyRouter.Slots.{
  Slot, ReplyRouter, new, slot_count, phone_max, stored_slot_bytes, stored_map_bytes, empty_slot,
  slot_index, encode_slot, encode_slots, decode_slot, decode_slots, pad_phone, filled, put_slot,
  load, save, put, load_bytes,
}

-- A slot that stands at its index: an i64, 23 bytes of phone, and an id that belongs there.
pub record IsStorable (w index : ℕ) (slot : Slot) : Type 0 where
  pub id_i64 : slot.message_id < 2 ^ 64
  pub phone_array : length slot.phone ≡ phone_max
  pub placed : slot.message_id ≢ 0 → slot_index w slot.message_id ≡ index

abbrev pub AllStorable : ℕ → ℕ → List Slot → Type 0
AllStorable w index [] = Unit
AllStorable w index (slot ∷ slots) = IsStorable w index slot × AllStorable w (suc index) slots

pub record IsValid (w : ℕ) (r : ReplyRouter) : Type 0 where
  pub full : length r.slots ≡ slot_count
  pub storable : AllStorable w 0 r.slots

length-encode_slot :
    (slot : Slot) → length slot.phone ≡ phone_max → length (encode_slot slot) ≡ stored_slot_bytes
unfolding encode_slot
length-encode_slot slot h = omega (
  arith,
  length-append (to_le_bytes 8 slot.message_id) (slot.phone ++ (0 ∷ [])),
  length-to_le_bytes 8 slot.message_id,
  length-append slot.phone (0 ∷ []),
)

decode_slot-encode_slot :
    (w index : ℕ) (slot : Slot)
    → IsStorable w index slot
    → decode_slot w index (encode_slot slot) ≡ slot
unfolding decode_slot encode_slot
decode_slot-encode_slot w index slot s =
    rw
      (
        take-append_length 8 id_bytes behind (length-to_le_bytes 8 slot.message_id),
        drop-append_length 8 id_bytes behind (length-to_le_bytes 8 slot.message_id),
        take-append_length 23 slot.phone (0 ∷ []) s.phone_array,
        from_le_bytes-to_le_bytes 8 slot.message_id s.id_i64,
      )
      (ground arith)
  where
    id_bytes : List ℕ
    id_bytes = to_le_bytes 8 slot.message_id

    behind : List ℕ
    behind = slot.phone ++ (0 ∷ [])

decode_slots-encode_slots :
    (w index : ℕ) (old slots : List Slot)
    → length old ≡ length slots
    → AllStorable w index slots
    → decode_slots w index old (encode_slots slots) ≡ slots
unfolding decode_slots encode_slots
decode_slots-encode_slots w index [] [] h s = refl
decode_slots-encode_slots w index [] (x ∷ slots) h s = absurd (omega arith)
decode_slots-encode_slots w index (o ∷ old) [] h s = absurd (omega arith)
decode_slots-encode_slots w index (o ∷ old) (x ∷ slots) h (sx, s) =
    let size = length-encode_slot x sx.phone_array in
    rw (
      take-append_length 32 (encode_slot x) (encode_slots slots) size,
      drop-append_length 32 (encode_slot x) (encode_slots slots) size,
      decode_slot-encode_slot w index x sx,
      decode_slots-encode_slots w (suc index) old slots (omega arith) s,
    )

length-encode_slots :
    (w index : ℕ) (slots : List Slot)
    → AllStorable w index slots
    → length (encode_slots slots) ≡ 32 * length slots
unfolding encode_slots
length-encode_slots w index [] s = omega arith
length-encode_slots w index (x ∷ slots) (sx, s) = omega (
  arith,
  length-append (encode_slot x) (encode_slots slots),
  length-encode_slot x sx.phone_array,
  length-encode_slots w (suc index) slots s,
)

load_bytes-encode_slots :
    (w : ℕ) (old r : ReplyRouter)
    → length old.slots ≡ slot_count
    → IsValid w r
    → load_bytes w old (some (encode_slots r.slots)) ≡ r
unfolding load_bytes
load_bytes-encode_slots w old r h v =
    let size : ltb (length (encode_slots r.slots)) stored_map_bytes ≡ false =
      ground (arith, length-encode_slots w 0 r.slots v.storable, v.full) in
    rw (size, decode_slots-encode_slots w 0 old.slots r.slots (omega (arith, v.full)) v.storable)

AllStorable-replicate : (w index n : ℕ) → AllStorable w index (replicate n empty_slot)
AllStorable-replicate w index zero = tt
AllStorable-replicate w index (suc n) = (
  record { id_i64 = omega arith; phone_array = refl; placed = λ h. absurd (h refl) },
  AllStorable-replicate w (suc index) n,
)

pub new-IsValid : (w : ℕ) → IsValid w new
unfolding new
new-IsValid w = record {
  full = length-replicate slot_count empty_slot;
  storable = AllStorable-replicate w 0 slot_count;
}

AllStorable-set :
    (w index : ℕ) (slots : List Slot) (i : ℕ) (v : Slot)
    → AllStorable w index slots
    → IsStorable w (index + i) v
    → AllStorable w index (set slots i v)
AllStorable-set w index [] i v s k = tt
AllStorable-set w index (x ∷ slots) zero v (sx, s) k =
    let e : index + 0 ≡ index = omega arith in (subst (λ n. IsStorable w n v) e k, s)
AllStorable-set w index (x ∷ slots) (suc i) v (sx, s) k =
    let e : index + suc i ≡ suc index + i = omega arith in
    (sx, AllStorable-set w (suc index) slots i v s (subst (λ n. IsStorable w n v) e k))

length-pad_phone : (bs : List ℕ) → length (pad_phone bs) ≡ phone_max
unfolding pad_phone
length-pad_phone bs = omega (
  arith,
  length-append (take (min (length bs) 22) bs) (replicate (23 - min (length bs) 22) 0),
  length-take (min (length bs) 22) bs,
  length-replicate {A = ℕ} (23 - min (length bs) 22) 0,
)

pub put_slot-IsValid :
    (w : ℕ) (r : ReplyRouter) (id : ℕ) (phone : Text)
    → IsValid w r
    → id < 2 ^ 64
    → IsValid w (put_slot w r id phone)
unfolding put_slot
put_slot-IsValid w r id phone v h = record {
  full = length-set r.slots (slot_index w id) (filled id phone) ∙ v.full;
  storable = AllStorable-set w 0 r.slots (slot_index w id) (filled id phone) v.storable (record {
    id_i64 = h;
    phone_array = length-pad_phone (bytes phone);
    placed = λ k. omega arith;
  });
}

decode_slot-IsStorable :
    (w index : ℕ) (bs : List ℕ)
    → All IsByte bs
    → 32 ≤ length bs
    → IsStorable w index (decode_slot w index bs)
unfolding decode_slot
decode_slot-IsStorable w index bs h k =
    let id = from_le_bytes (take 8 bs) in
    elim (Bool-cases (not (id == 0) && not (slot_index w id == index))) [
      | inl e ↦
          rw e (record { id_i64 = omega arith; phone_array = refl; placed = λ n. absurd (n refl) })
      | inr e ↦ rw e (record {
        id_i64 = omega (
          arith,
          from_le_bytes-lt (take 8 bs) (All-take IsByte 8 bs h),
          length-take 8 bs,
          pow_eight (length (take 8 bs)),
        );
        phone_array = omega (arith, length-take 23 (drop 8 bs), length-drop 8 bs);
        placed = λ n. ground arith;
      })
    ]
  where
    pow_eight : (n : ℕ) → n ≡ 8 → 256 ^ n ≡ 2 ^ 64
    pow_eight n e = rw e

decode_slots-AllStorable :
    (w index : ℕ) (old : List Slot) (bs : List ℕ)
    → All IsByte bs
    → 32 * length old ≤ length bs
    → AllStorable w index (decode_slots w index old bs)
unfolding decode_slots
decode_slots-AllStorable w index [] bs h k = tt
decode_slots-AllStorable w index (o ∷ old) bs h k = (
  decode_slot-IsStorable w index (take 32 bs) (All-take IsByte 32 bs h)
      (omega (arith, length-take 32 bs)),
  decode_slots-AllStorable w (suc index) old (drop 32 bs) (All-drop IsByte 32 bs h)
      (omega (arith, length-drop 32 bs)),
)

length-decode_slots :
    (w index : ℕ) (old : List Slot) (bs : List ℕ)
    → length (decode_slots w index old bs) ≡ length old
unfolding decode_slots
length-decode_slots w index [] bs = refl
length-decode_slots w index (o ∷ old) bs =
    ap suc (length-decode_slots w (suc index) old (drop 32 bs))

-- Whatever bytes the store holds, the loaded router is valid: 200 slots, and each id that is not 0
-- stands in its own slot.
pub load_bytes-IsValid :
    (w : ℕ) (r : ReplyRouter) (bs : List ℕ)
    → IsValid w r
    → All IsByte bs
    → IsValid w (load_bytes w r (some bs))
unfolding load_bytes
load_bytes-IsValid w r bs v h = elim (Bool-cases (ltb (length bs) stored_map_bytes)) [
  | inl e ↦ rw (e, load_bytes) v
  | inr e ↦
      rw (e, load_bytes)
        (record {
          full = length-decode_slots w 0 r.slots bs ∙ v.full;
          storable = decode_slots-AllStorable w 0 r.slots bs h (ground (arith, v.full));
        })
]

module _ {ℓ} {S : Type ℓ} (store : Store S) (laws : IsStore S store) where
  -- A mapping that `put` saved is there after a restart: a new router that loads the store is the
  -- router that was saved, so it answers every lookup alike.
  pub load-put :
      (w : ℕ) (r : ReplyRouter) (id : ℕ) (phone : Text) (s : S)
      → IsValid w r
      → id < 2 ^ 64
      → (put store w r id phone s).2 ≡ true
      → load store w new (put store w r id phone s).1 ≡ (put store w r id phone s).0
  unfolding put save load
  load-put w r id phone s v h saved =
      rw (laws.load-save s reply_map (encode_slots (put_slot w r id phone).slots) saved) (
        load_bytes-encode_slots w new (put_slot w r id phone) (new-IsValid w).full
          (put_slot-IsValid w r id phone v h))
