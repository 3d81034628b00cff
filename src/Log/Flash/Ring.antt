-- ===== src/Log/Flash/Ring.antt =====
-- The ring's next slot and number, of src/log_ring.rs.
use smsgate.Base.{
  ℕ, ◌+◌, ◌*◌, ◌/◌, ◌%◌, ◌^◌, ◌<◌, ◌==◌, if◌then◌else◌, inl, inr, Bool-cases, Option-cases, List,
  Option, none, some, arith,
}
use smsgate.Log.Entry.{LogEntry}
use smsgate.Log.Payload.{encode_payload, flash_log_record_size}
use smsgate.Log.Flash.{
  FlashLogError, LogFlashStorage, FlashLogRing, following_seq, after_write, write_record, append,
  record_bytes,
}

-- A record will be written inside of the storage, with a number that is not 0.
pub record IsValid {ℓ} {F : Type ℓ} (ring : FlashLogRing F) : Type 0 where
  pub slot_exists : ring.next_slot < ring.slots
  pub seq_not_zero : 0 < ring.next_seq
  pub seq_small : ring.next_seq < 2 ^ 32

following_seq-in_range :
    (seq : ℕ) → 0 < seq → seq < 2 ^ 32 → (0 < following_seq seq) × (following_seq seq < 2 ^ 32)
following_seq-in_range seq pos small = ground arith

mod-lt : (a b n : ℕ) → b < n → a % n < n
mod-lt a b n h = omega arith

module _ {ℓ} {F : Type ℓ} (flash : LogFlashStorage F) where
  after_write-IsValid :
      (ring : FlashLogRing F) (r : F × Option FlashLogError)
      → IsValid ring
      → IsValid (after_write flash ring r).0
  unfolding after_write
  after_write-IsValid ring (f, none) v =
      let (pos, small) = following_seq-in_range ring.next_seq v.seq_not_zero v.seq_small in
      record {
        slot_exists = mod-lt (ring.next_slot + 1) ring.next_slot ring.slots v.slot_exists;
        seq_not_zero = pos;
        seq_small = small;
      }
  after_write-IsValid ring (f, some error) v =
      elim (Bool-cases (ring.next_slot % ring.slots_per_erase == 0)) [
        | inl e ↦ record {
          slot_exists = rw (e, after_write) v.slot_exists;
          seq_not_zero = v.seq_not_zero;
          seq_small = v.seq_small;
        }
        | inr e ↦ record {
          slot_exists =
              rw (e, after_write)
                (mod-lt ((ring.next_slot / ring.slots_per_erase + 1) * ring.slots_per_erase)
                  ring.next_slot ring.slots v.slot_exists);
          seq_not_zero = v.seq_not_zero;
          seq_small = v.seq_small;
        }
      ]

  write_record-IsValid :
      (ring : FlashLogRing F) (payload : List ℕ) (r : F × Option FlashLogError)
      → IsValid ring
      → IsValid (write_record flash ring payload r).0
  unfolding write_record
  write_record-IsValid ring payload (f, some error) v = record {
    slot_exists = v.slot_exists;
    seq_not_zero = v.seq_not_zero;
    seq_small = v.seq_small;
  }
  write_record-IsValid ring payload (f, none) v =
      after_write-IsValid ring
        (flash.write f (ring.next_slot * flash_log_record_size)
          (record_bytes ring.next_seq payload))
        v

  -- Adding an entry to a valid ring keeps the next slot inside of the storage and the next number from 1 to
  -- 2 ^ 32 - 1, whatever the storage answers.
  pub append-IsValid :
      (ring : FlashLogRing F) (entry : LogEntry)
      → IsValid ring
      → IsValid (append flash ring entry).0
  unfolding append
  append-IsValid ring entry v = elim (Option-cases (encode_payload entry)) [
    | inl e ↦ rw (e, append) v
    | inr (payload, e) ↦
        rw (e, append)
          (write_record-IsValid ring payload
            (if ring.next_slot % ring.slots_per_erase == 0
              then flash.erase ring.storage (ring.next_slot * flash_log_record_size)
                  (flash.erase_size ring.storage)
              else (ring.storage, none))
            v)
  ]
