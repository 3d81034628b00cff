-- ===== src/Sms/Codec/Unix/Zone.antt =====
-- The zone behind a time stamp, of src/sms/codec.rs.
use smsgate.Base.{
  ℕ, ◌≡◌, refl, ap, inl, inr, Bool-cases, Option-cases, List-cases, ltb, not, ◌||◌, List, [], Text,
  bytes, length, drop, length-drop, arith,
}
use smsgate.Sms.Codec.Unix.{has_marks, parse_local, in_utc, pdu_timestamp_to_unix}

drop-all : (n : ℕ) (bs : List ℕ) → length bs ≡ n → drop n bs ≡ []
drop-all n bs h = elim (List-cases (drop n bs)) [
  | inl e ↦ e
  | inr (x, xs, e) ↦ absurd (omega (arith, length-drop n bs, ap length e))
]

-- A time stamp of 17 bytes, which has no zone, gives 0, whatever date it holds.
pub pdu_timestamp_to_unix-bare : (ts : Text) → length (bytes ts) ≡ 17 → pdu_timestamp_to_unix ts ≡ 0
unfolding pdu_timestamp_to_unix in_utc
pdu_timestamp_to_unix-bare ts h =
    let none_left = drop-all 17 (bytes ts) h in
    elim (Bool-cases (ltb (length (bytes ts)) 17 || not (has_marks (bytes ts)))) [
      | inl e ↦ rw e refl
      | inr e ↦ elim (Option-cases (parse_local (bytes ts))) [
        | inl p ↦ rw (e, p) refl
        | inr (local, p) ↦ rw (e, p, none_left) refl
      ]
    ]
