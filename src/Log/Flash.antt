-- ===== src/Log/Flash.antt =====
-- The ring of records in flash of src/log_ring.rs: what a record holds, and how one is added. The
-- storage is a parameter; `inl` is an error.
pub mod Record
pub mod Ring
use smsgate.Base.{
  ℕ, zero, suc, ◌+◌, ◌-◌, ◌*◌, ◌/◌, ◌%◌, ◌^◌, bit_xor, ltb, leb, ◌==◌, not, ◌&&◌, ◌||◌,
  if◌then◌else◌, inl, inr, ◌⊎◌, Bool, true, false, List, [], ◌∷◌, ◌++◌, Option, none, some, ◌>>=◌,
  Text, length, take, drop, replicate, all, any, to_le_bytes, from_le_bytes,
}
use smsgate.Log.Entry.{LogEntry}
use smsgate.Log.Payload.{
  flash_log_record_size, flash_log_header_size, flash_log_payload_size, base_len, encode_payload,
  decode_payload,
}

pub data FlashLogError : Type 0 where
  out_of_bounds : FlashLogError
  invalid_geometry : ℕ → ℕ → FlashLogError
  entry_too_large : ℕ → ℕ → FlashLogError
  partition_not_found : Text → FlashLogError
  storage : Text → FlashLogError

-- `LogFlashStorage`; `read` gives the bytes from an offset on.
pub record LogFlashStorage {ℓ} (F : Type ℓ) : Type ℓ where
  pub len : F → ℕ
  pub erase_size : F → ℕ
  pub read : F → ℕ → ℕ → F × (FlashLogError ⊎ List ℕ)
  pub write : F → ℕ → List ℕ → F × Option FlashLogError
  pub erase : F → ℕ → ℕ → F × Option FlashLogError

abbrev pub flash_log_magic : ℕ
flash_log_magic = 0x534D4C47

unfoldable pub hash_onto : ℕ → List ℕ → ℕ
hash_onto hash [] = hash
hash_onto hash (b ∷ bs) = hash_onto (bit_xor hash b * 0x01000193 % 2 ^ 32) bs

unfoldable pub checksum : List ℕ → ℕ
unfolding hash_onto
checksum bs = hash_onto 0x811C9DC5 bs

-- The bytes that `append` writes for a payload.
unfoldable pub record_bytes : ℕ → List ℕ → List ℕ
unfolding to_le_bytes checksum
record_bytes seq payload =
    to_le_bytes 4 flash_log_magic
    ++ (to_le_bytes 4 seq
        ++ (to_le_bytes 2 (length payload % 2 ^ 16)
            ++ (to_le_bytes 4 (checksum payload)
                ++ (0xFF ∷ 0xFF ∷ payload
                    ++ replicate (flash_log_payload_size - length payload) 0xFF))))

abbrev pub payload_of : List ℕ → ℕ → List ℕ
payload_of bs len = take len (drop flash_log_header_size bs)

-- The sequence number and the length of the payload.
unfoldable pub read_record_meta : List ℕ → Option (ℕ × ℕ)
unfolding all from_le_bytes checksum
read_record_meta bs =
    let seq = from_le_bytes (take 4 (drop 4 bs)) in
    let len = from_le_bytes (take 2 (drop 8 bs)) in
    if all (λ b. b == 0xFF) bs
    then none
    else if not (from_le_bytes (take 4 bs) == flash_log_magic)
    then none
    else if seq == 0 || ltb flash_log_payload_size len
    then none
    else if not (checksum (payload_of bs len) == from_le_bytes (take 4 (drop 10 bs)))
    then none
    else some (seq, len)

pub record DecodedRecord : Type 0 where
  pub seq : ℕ
  pub entry : LogEntry

unfoldable pub decode_record : List ℕ → Option DecodedRecord
unfolding read_record_meta decode_payload
decode_record bs = do
  (seq, len) ← read_record_meta bs
  entry ← decode_payload (payload_of bs len)
  some (record { seq = seq; entry = entry })

pub record RecordHeader : Type 0 where
  pub seq : ℕ
  pub slot : ℕ

pub record FlashLogRing {ℓ} (F : Type ℓ) : Type ℓ where
  pub storage : F
  pub next_seq : ℕ
  pub next_slot : ℕ
  pub slots : ℕ
  pub slots_per_erase : ℕ

abbrev pub following_seq : ℕ → ℕ
following_seq seq = if seq == 2 ^ 32 - 1 then 1 else seq + 1

-- The first slot of the sector behind that of `slot`.
abbrev pub following_sector : ℕ → ℕ → ℕ → ℕ
following_sector slots_per_erase slots slot = (slot / slots_per_erase + 1) * slots_per_erase % slots

-- `max_by_key`: the last of the headers with the highest number.
unfoldable pub newest : Option RecordHeader → List RecordHeader → Option RecordHeader
newest best [] = best
newest none (header ∷ rest) = newest (some header) rest
newest (some best) (header ∷ rest) =
    newest (some (if leb best.seq header.seq then header else best)) rest

-- Number and slot of the next record.
unfoldable pub next_of : ℕ → Option RecordHeader → ℕ × ℕ
next_of slots none = (1, 0)
next_of slots (some header) = (following_seq header.seq, (header.slot + 1) % slots)

abbrev pub with_header : ℕ → Option (ℕ × ℕ) → List RecordHeader → List RecordHeader
with_header slot none headers = headers
with_header slot (some (seq, len)) headers = record { seq = seq; slot = slot } ∷ headers

abbrev pub bad_geometry : ℕ → ℕ → Bool
bad_geometry size erase_size =
    ltb size flash_log_record_size
    || not (size % flash_log_record_size == 0)
    || ltb erase_size flash_log_record_size
    || not (erase_size % flash_log_record_size == 0)
    || not (size % erase_size == 0)

module _ {ℓ} {F : Type ℓ} where
  -- `?` on a call of the storage.
  abbrev pub and_then {κ μ} :
      {A : Type κ} {B : Type μ}
      → F × (FlashLogError ⊎ A)
      → (F → A → F × (FlashLogError ⊎ B))
      → F × (FlashLogError ⊎ B)
  and_then (f, inl error) next = (f, inl error)
  and_then (f, inr a) next = next f a

module _ {ℓ} {F : Type ℓ} (flash : LogFlashStorage F) where
  unfoldable pub read_slot : F → ℕ → F × (FlashLogError ⊎ List ℕ)
  read_slot f slot = flash.read f (slot * flash_log_record_size) flash_log_record_size

  -- The headers of `count` slots from `slot` on.
  unfoldable pub scan_record_headers : ℕ → ℕ → F → F × (FlashLogError ⊎ List RecordHeader)
  unfolding read_slot read_record_meta
  scan_record_headers zero slot f = (f, inr [])
  scan_record_headers (suc count) slot f = and_then (read_slot f slot) λ f1 bs.
      and_then (scan_record_headers count (suc slot) f1)
        λ f2 headers. (f2, inr (with_header slot (read_record_meta bs) headers))

  unfoldable pub read_record : F → ℕ → F × (FlashLogError ⊎ Option DecodedRecord)
  unfolding read_slot decode_record
  read_record f slot = and_then (read_slot f slot) λ f1 bs. (f1, inr (decode_record bs))

  -- A slot inside of a sector is left for the next sector if it is not blank.
  unfoldable pub settle_slot : ℕ → ℕ → ℕ → F → F × (FlashLogError ⊎ ℕ)
  unfolding read_slot any
  settle_slot slots slots_per_erase next_slot f =
      if next_slot % slots_per_erase == 0
      then (f, inr next_slot)
      else and_then (read_slot f next_slot) λ f1 bs. (
        f1,
        inr (
            if any (λ b. not (b == 0xFF)) bs
            then following_sector slots_per_erase slots next_slot
            else next_slot),
      )

module _ {ℓ} {F : Type ℓ} (flash : LogFlashStorage F) where
  unfoldable pub mount_with : ℕ → ℕ → F → F × (FlashLogError ⊎ FlashLogRing F)
  unfolding scan_record_headers newest next_of settle_slot
  mount_with slots slots_per_erase f = and_then (scan_record_headers flash slots 0 f) λ f1 headers.
      let (next_seq, next_slot) = next_of slots (newest none headers) in
      and_then (settle_slot flash slots slots_per_erase next_slot f1) λ f2 settled. (
        f2,
        inr (record {
          storage = f2;
          next_seq = next_seq;
          next_slot = settled;
          slots = slots;
          slots_per_erase = slots_per_erase;
        }),
      )

  unfoldable pub mount : F → F × (FlashLogError ⊎ FlashLogRing F)
  unfolding mount_with
  mount f =
      let size = flash.len f in
      let erase_size = flash.erase_size f in
      if bad_geometry size erase_size
      then (f, inl (invalid_geometry size erase_size))
      else mount_with (size / flash_log_record_size) (erase_size / flash_log_record_size) f

  unfoldable pub after_write :
      FlashLogRing F → F × Option FlashLogError → FlashLogRing F × Option FlashLogError
  after_write ring (f, none) = (
    record ring {
      storage = f;
      next_seq = following_seq ring.next_seq;
      next_slot = (ring.next_slot + 1) % ring.slots;
    },
    none,
  )
  after_write ring (f, some error) = (
    record ring {
      storage = f;
      next_slot =
          if ring.next_slot % ring.slots_per_erase == 0
          then ring.next_slot
          else following_sector ring.slots_per_erase ring.slots ring.next_slot;
    },
    some error,
  )

  unfoldable pub write_record :
      FlashLogRing F → List ℕ → F × Option FlashLogError → FlashLogRing F × Option FlashLogError
  unfolding record_bytes after_write
  write_record ring payload (f, some error) = (record ring { storage = f }, some error)
  write_record ring payload (f, none) =
      after_write ring (
        flash.write f (ring.next_slot * flash_log_record_size) (record_bytes ring.next_seq payload))

  unfoldable pub append : FlashLogRing F → LogEntry → FlashLogRing F × Option FlashLogError
  unfolding encode_payload base_len write_record
  append ring entry = elim (encode_payload entry) [
    | none ↦ (ring, some (entry_too_large (base_len entry) flash_log_payload_size))
    | some payload ↦ write_record ring payload (
        if ring.next_slot % ring.slots_per_erase == 0
        then flash.erase ring.storage (ring.next_slot * flash_log_record_size)
            (flash.erase_size ring.storage)
        else (ring.storage, none))
  ]
