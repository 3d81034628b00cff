-- ===== src/Modem/Status/Bounds.antt =====
-- The texts of a registration, of src/modem/status.rs.
use smsgate.Base.{
  ℕ, ◌-◌, ◌≤◌, ltb, leb, Bool-cases, inl, inr, [], ◌∷◌, ◌++◌, Text, codes, map, length,
  length-append, bytes, bytes-append, encode_utf8, decimal_text, arith,
}
use smsgate.Modem.Status.{
  floor_prefix, RegistrationQuery, command, stat_text, detail_of, reply_of, blank_of, is_expanded,
  abridged, diagnostic,
}

-- A text that is cut to `n` bytes has no more.
pub floor_prefix-le : (n : ℕ) (s : Text) → length (bytes (floor_prefix n s)) ≤ n
unfolding floor_prefix bytes
floor_prefix-le n [] = omega arith
floor_prefix-le n (c ∷ s) = elim (Bool-cases (leb (length (encode_utf8 c)) n)) [
  | inl e ↦
      let fits : length (encode_utf8 c) ≤ n = ground arith in
      rw
        (
          e,
          floor_prefix,
          bytes,
          length-append (encode_utf8 c) (bytes (floor_prefix (n - length (encode_utf8 c)) s)),
        )
        (omega (arith, floor_prefix-le (n - length (encode_utf8 c)) s))
  | inr e ↦ rw (e, floor_prefix) (omega arith)
]

length-abridged : (whole : Text) → length (bytes (abridged whole)) ≤ 76
unfolding abridged bytes encode_utf8
length-abridged whole = elim (Bool-cases (ltb 76 (length (bytes whole)))) [
  | inl e ↦
      rw
        (
          e,
          abridged,
          bytes-append (floor_prefix 73 whole) (codes "..."),
          length-append (bytes (floor_prefix 73 whole)) (bytes (codes "...")),
        )
        (omega (arith, floor_prefix-le 73 whole))
  | inr e ↦ rw (e, abridged) (ground arith)
]

-- What is said of a registration in the log takes at most 76 bytes, whatever the modem answered.
pub diagnostic-le : (q : RegistrationQuery) → length (bytes (diagnostic q)) ≤ 76
unfolding diagnostic
diagnostic-le q = length-abridged (
    map (blank_of is_expanded) (
      command q.domain
      ++ (codes " stat="
          ++ (stat_text q.stat
              ++ (0x20
                  ∷ (decimal_text q.elapsed_ms
                      ++ (codes "ms: " ++ detail_of q.error (reply_of q.response))))))))
