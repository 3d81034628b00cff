-- ===== src/Log/Flash/Record.antt =====
-- `record_bytes` and `decode_record` of src/log_ring.rs.
use smsgate.Base.{
  ℕ, ◌-◌, ◌*◌, ◌%◌, ◌^◌, ◌≤◌, ◌<◌, ◌≡◌, refl, ◌∙◌, bit_xor, ltb, ◌==◌, ◌||◌, true, false, List, [],
  ◌∷◌, some, length, take, drop, replicate, all, to_le_bytes, from_le_bytes,
  from_le_bytes-to_le_bytes, take-append_length, arith,
}
use smsgate.Log.Entry.{LogEntry}
use smsgate.Log.Payload.{flash_log_payload_size, encode_payload}
use smsgate.Log.Payload.RoundTrip.{IsText, kept, decode_payload-encode_payload}
use smsgate.Log.Payload.Bounds.{encode_payload-le}
use smsgate.Log.Flash.{
  flash_log_magic, hash_onto, checksum, record_bytes, payload_of, read_record_meta, decode_record,
}

hash_onto-lt : (hash : ℕ) (bs : List ℕ) → hash < 2 ^ 32 → hash_onto hash bs < 2 ^ 32
unfolding hash_onto
hash_onto-lt hash [] h = h
hash_onto-lt hash (b ∷ bs) h = hash_onto-lt (bit_xor hash b * 0x01000193 % 2 ^ 32) bs (omega arith)

checksum-lt : (bs : List ℕ) → checksum bs < 2 ^ 32
unfolding checksum
checksum-lt bs = hash_onto-lt 0x811C9DC5 bs (omega arith)

module _ (seq : ℕ) (payload : List ℕ) where
  record_bytes-not_blank : all (λ b. b == 0xFF) (record_bytes seq payload) ≡ false
  unfolding record_bytes to_le_bytes all
  record_bytes-not_blank = refl

  magic_part : from_le_bytes (take 4 (record_bytes seq payload)) ≡ flash_log_magic
  unfolding record_bytes to_le_bytes from_le_bytes
  magic_part = refl

  seq_part : seq < 2 ^ 32 → from_le_bytes (take 4 (drop 4 (record_bytes seq payload))) ≡ seq
  unfolding record_bytes to_le_bytes
  seq_part h = from_le_bytes-to_le_bytes 4 seq h

  len_part :
      length payload ≤ flash_log_payload_size
      → from_le_bytes (take 2 (drop 8 (record_bytes seq payload))) ≡ length payload
  unfolding record_bytes to_le_bytes
  len_part h = from_le_bytes-to_le_bytes 2 (length payload % 2 ^ 16) (omega arith) ∙ omega arith

  checksum_part : from_le_bytes (take 4 (drop 10 (record_bytes seq payload))) ≡ checksum payload
  unfolding record_bytes to_le_bytes
  checksum_part = from_le_bytes-to_le_bytes 4 (checksum payload) (checksum-lt payload)

  payload_of-record_bytes : payload_of (record_bytes seq payload) (length payload) ≡ payload
  unfolding record_bytes to_le_bytes
  payload_of-record_bytes =
      take-append_length (length payload) payload
        (replicate (flash_log_payload_size - length payload) 0xFF) refl

  read_record_meta-record_bytes :
      0 < seq
      → seq < 2 ^ 32
      → length payload ≤ flash_log_payload_size
      → read_record_meta (record_bytes seq payload) ≡ some (seq, length payload)
  unfolding read_record_meta
  read_record_meta-record_bytes pos small fits =
      let in_use : (seq == 0 || ltb flash_log_payload_size (length payload)) ≡ false =
        ground arith in
      let intact : checksum payload == checksum payload ≡ true = ground arith in
      rw
        (
          record_bytes-not_blank,
          magic_part,
          seq_part small,
          len_part fits,
          in_use,
          payload_of-record_bytes,
          checksum_part,
          intact,
        )
        refl

-- The record that is written of an entry which can be encoded, with a number from 1 to 2 ^ 32 - 1
-- and texts of Unicode's characters, is read as that number and the entry with its sender and its
-- text cut to what fits.
pub decode_record-record_bytes :
    (seq : ℕ) (entry : LogEntry) (payload : List ℕ)
    → 0 < seq
    → seq < 2 ^ 32
    → IsText entry
    → encode_payload entry ≡ some payload
    → decode_record (record_bytes seq payload) ≡ some (record { seq = seq; entry = kept entry })
unfolding decode_record
decode_record-record_bytes seq entry payload pos small text written =
    rw
      (
        read_record_meta-record_bytes seq payload pos small
            (encode_payload-le entry payload written),
        payload_of-record_bytes seq payload,
        decode_payload-encode_payload entry payload text written,
      )
      refl
