-- ===== src/Bridge/AtHandler/Allowed.antt =====
-- The test of commands and the reply of src/bridge/at_handler.rs.
use smsgate.Base.{
  ℕ, ◌+◌, ◌-◌, ◌≤◌, ◌≡◌, refl, sym, ◌∙◌, ap, ltb, leb, ◌==◌, not, ◌||◌, if◌then◌else◌, Bool, true,
  false, Bool-cases, inl, inr, List, [], ◌∷◌, ◌++◌, map, Option, none, some, Text, codes,
  text_eq→eq, length, length-append, take, drop, take-append-drop, any, all, bytes, bytes-append,
  trim, arith, encode_utf8,
}
use smsgate.Modem.{ModemError}
use smsgate.Modem.Status.{floor_prefix}
use smsgate.Modem.Status.Bounds.{floor_prefix-le}
use smsgate.Bridge.AtHandler.{
  AtRequestError, missing_command, invalid_command, command_too_long, unsupported_command, Request,
  rejected, accepted, to_ascii_upper, is_diagnostic_command, is_ascii_control, begins_with_at,
  first_word, names_at, check_command, parse_hidden_at_command, Reply, separator,
  max_response_bytes, append_response_line, append_lines, AtTexts, closing_line, has_succeeded,
  close, reply_of,
}

map-append : (f : ℕ → ℕ) (s t : Text) → map f (s ++ t) ≡ map f s ++ map f t
map-append f [] t = refl
map-append f (c ∷ s) t = ap (◌∷◌ (f c)) (map-append f s t)

-- The command without its first two characters stands behind AT.
upper-begins :
    (command : Text)
    → begins_with_at command ≡ true
    → map to_ascii_upper command ≡ codes "AT" ++ map to_ascii_upper (drop 2 command)
unfolding begins_with_at
upper-begins command h =
    let first : map to_ascii_upper (take 2 command) ≡ codes "AT" =
      text_eq→eq (map to_ascii_upper (take 2 command)) (codes "AT") h in
    ap (map to_ascii_upper) (sym (take-append-drop 2 command))
    ∙ map-append to_ascii_upper (take 2 command) (drop 2 command)
    ∙ ap (λ s. s ++ map to_ascii_upper (drop 2 command)) first

-- What may be sent: a command of the list, in any case, once AT stands before it.
abbrev pub IsAllowed : Text → Type 0
IsAllowed suffix = is_diagnostic_command (codes "AT" ++ map to_ascii_upper suffix) ≡ true

abbrev Allows : Request → Type 0
Allows (rejected error) = Unit
Allows (accepted suffix) = IsAllowed suffix

Allows-if :
    (b : Bool) (error : AtRequestError) (request : Request)
    → (b ≡ false → Allows request)
    → Allows (if b then rejected error else request)
Allows-if true error request h = tt
Allows-if false error request h = h refl

check_command-Allows : (command : Text) → Allows (check_command command)
unfolding check_command
check_command-Allows command = Allows-if (length command == 0) missing_command _ λ a.
    Allows-if (ltb 128 (length (bytes command))) command_too_long _ λ b.
      Allows-if
        (not (all (λ c. ltb c 0x80) command)
          || any is_ascii_control command
          || any (λ c. c == 0x3B) command
          || not (begins_with_at command))
        invalid_command _
        λ c.
          Allows-if (not (is_diagnostic_command (map to_ascii_upper command))) unsupported_command _
            λ d.
              let begins : begins_with_at command ≡ true = ground arith in
              let listed : is_diagnostic_command (map to_ascii_upper command) ≡ true =
                ground arith in
              rw (upper-begins command begins) at listed

-- What is sent to the modem for a message of the chat is, with AT before it and in capitals, one of
-- the diagnostic commands of the list.
pub parse_hidden_at_command-IsAllowed :
    (text suffix : Text) → parse_hidden_at_command text ≡ some (accepted suffix) → IsAllowed suffix
unfolding parse_hidden_at_command
parse_hidden_at_command-IsAllowed text suffix h =
    elim (Bool-cases (names_at (first_word (trim text)).0)) [
      | inl e ↦
          let found : some (check_command (trim (first_word (trim text)).1))
              ≡ some (accepted suffix) =
            rw (e, parse_hidden_at_command) at h in
          let same : check_command (trim (first_word (trim text)).1) ≡ accepted suffix = cc in
          rw same at (check_command-Allows (trim (first_word (trim text)).1))
      | inr e ↦
          let wrong : none ≡ some (accepted suffix) = rw (e, parse_hidden_at_command) at h in cc
    ]

length-separated :
    (text line : Text)
    → length (bytes (text ++ (separator text ++ line)))
      ≡ length (bytes text) + length (separator text) + length (bytes line)
unfolding bytes encode_utf8
length-separated [] line = omega arith
length-separated (c ∷ text) line =
    rw
      (
        bytes-append (c ∷ text) (0x0A ∷ line),
        length-append (bytes (c ∷ text)) (bytes (0x0A ∷ line)),
      )
      (omega arith)

append_response_line-le :
    (reply : Reply) (line : Text)
    → length (bytes reply.0) ≤ max_response_bytes
    → length (bytes (append_response_line reply line).0) ≤ max_response_bytes
unfolding append_response_line
append_response_line-le (text, true) line h = h
append_response_line-le (text, false) line h =
    let remaining = max_response_bytes - (length (bytes text) + length (separator text)) in
    elim (Bool-cases (remaining == 0)) [
      | inl e ↦ rw (e, append_response_line) h
      | inr e ↦ elim (Bool-cases (leb (length (bytes line)) remaining)) [
        | inl f ↦ rw (e, f, append_response_line, length-separated text line) (ground arith)
        | inr f ↦
            rw (e, f, append_response_line, length-separated text (floor_prefix remaining line))
              (ground (arith, floor_prefix-le remaining line))
      ]
    ]

append_lines-le :
    (reply : Reply) (seen : List Text)
    → length (bytes reply.0) ≤ max_response_bytes
    → length (bytes (append_lines reply seen).0) ≤ max_response_bytes
unfolding append_lines
append_lines-le reply [] h = h
append_lines-le reply (line ∷ rest) h =
    append_lines-le (append_response_line reply line) rest (append_response_line-le reply line h)

module _ (texts : AtTexts) where
  close-le :
      (succeeded : Bool) (reply : Reply)
      → length (bytes reply.0) ≤ max_response_bytes
      → length (bytes (close texts succeeded reply).text)
        ≤ max_response_bytes + length (bytes texts.at_response_truncated) + 6
  unfolding close bytes encode_utf8
  close-le succeeded (text, false) h = omega arith
  close-le true (text, true) h =
      rw
        (
          bytes-append text (texts.at_response_truncated ++ codes "\nOK"),
          length-append (bytes text) (bytes (texts.at_response_truncated ++ codes "\nOK")),
          bytes-append texts.at_response_truncated (codes "\nOK"),
          length-append (bytes texts.at_response_truncated) (bytes (codes "\nOK")),
        )
        (omega arith)
  close-le false (text, true) h =
      rw
        (
          bytes-append text (texts.at_response_truncated ++ codes "\nERROR"),
          length-append (bytes text) (bytes (texts.at_response_truncated ++ codes "\nERROR")),
          bytes-append texts.at_response_truncated (codes "\nERROR"),
          length-append (bytes texts.at_response_truncated) (bytes (codes "\nERROR")),
        )
        (omega arith)

  -- An answer takes at most 3500 bytes, with the note that it was cut and six more behind that.
  pub reply_of-le :
      (heard : List Text × Option ModemError)
      → length (bytes (reply_of texts heard).text)
        ≤ max_response_bytes + length (bytes texts.at_response_truncated) + 6
  unfolding reply_of close bytes encode_utf8
  reply_of-le (seen, error) =
      let whole = append_response_line (append_lines ([], false) seen) (closing_line texts error) in
      let small : length (bytes whole.0) ≤ max_response_bytes =
        append_response_line-le (append_lines ([], false) seen) (closing_line texts error)
          (append_lines-le ([], false) seen (omega arith)) in
      close-le (has_succeeded texts error) whole small
