-- ===== src/Sms/Codec/Rfc3339.antt =====
-- Time stamps in RFC 3339: `push_timestamp_rfc3339` and `timestamp_to_rfc3339` of src/sms/codec.rs.
-- The offset is a sign and minutes. `none` is a panic, in a slice that ends within a character.
use smsgate.Base.{
  ℕ, ◌/◌, ◌%◌, ltb, if◌then◌else◌, Bool, true, false, [], ◌∷◌, concat, Option, some, ◌>>=◌, Text,
  codes, bytes, length, str_slice, padded_text,
}

-- The text behind `out`, and whether the time stamp could be read.
unfoldable pub push_timestamp_rfc3339 : Text → Text → Bool → ℕ → Option (Text × Bool)
unfolding bytes str_slice padded_text
push_timestamp_rfc3339 out ts negative abs_mins =
    if ltb (length (bytes ts)) 17 then some (out, false) else (do
      year ← str_slice 0 2 ts
      month ← str_slice 3 5 ts
      day ← str_slice 6 8 ts
      hour ← str_slice 9 11 ts
      minute ← str_slice 12 14 ts
      second ← str_slice 15 17 ts
      some (
        concat (
            out
            ∷ codes "20"
            ∷ year
            ∷ codes "-"
            ∷ month
            ∷ codes "-"
            ∷ day
            ∷ codes "T"
            ∷ hour
            ∷ codes ":"
            ∷ minute
            ∷ codes ":"
            ∷ second
            ∷ (if negative then codes "-" else codes "+")
            ∷ padded_text (abs_mins / 60)
            ∷ codes ":"
            ∷ padded_text (abs_mins % 60)
            ∷ []),
        true,
      ))

unfoldable pub timestamp_to_rfc3339 : Text → Bool → ℕ → Option Text
unfolding push_timestamp_rfc3339
timestamp_to_rfc3339 ts negative abs_mins = do
  (out, read) ← push_timestamp_rfc3339 [] ts negative abs_mins
  some (if read then out else [])
