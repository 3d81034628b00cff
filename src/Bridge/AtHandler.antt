-- ===== src/Bridge/AtHandler.antt =====
-- The diagnostic AT commands of the messenger's chat: src/bridge/at_handler.rs.
pub mod Allowed
use smsgate.Base.{
  ℕ, ◌+◌, ◌-◌, ltb, leb, ◌==◌, in_range, not, ◌&&◌, ◌||◌, if◌then◌else◌, Bool, true, false, List,
  [], ◌∷◌, ◌++◌, map, Option, none, some, ◌>>=◌, Text, codes, text_eq, length, take, drop, any, all,
  bytes, trim, is_whitespace, strip_prefix, split,
}
use smsgate.Locale.{Locale}
use smsgate.Modem.{AtTransport, ModemError, at_error, error_text}
use smsgate.Modem.Status.{floor_prefix}
use smsgate.Commands.{first_piece}

pub data AtRequestError : Type 0 where
  missing_command : AtRequestError
  invalid_command : AtRequestError
  command_too_long : AtRequestError
  unsupported_command : AtRequestError

-- What `/at` asks for, or what is wrong with it.
pub data Request : Type 0 where
  rejected : AtRequestError → Request
  accepted : Text → Request

abbrev pub to_ascii_upper : ℕ → ℕ
to_ascii_upper c = if in_range 0x61 0x7A c then c - 32 else c

abbrev pub diagnostic_commands : List Text
diagnostic_commands =
    codes "AT"
    ∷ codes "ATI"
    ∷ codes "AT+SIMCOMATI"
    ∷ codes "AT+CSQ"
    ∷ codes "AT+CREG?"
    ∷ codes "AT+CGREG?"
    ∷ codes "AT+CEREG?"
    ∷ codes "AT+CIREG?"
    ∷ codes "AT+COPS?"
    ∷ codes "AT+CPIN?"
    ∷ codes "AT+CCLK?"
    ∷ codes "AT+CNMI?"
    ∷ codes "AT+CMGF?"
    ∷ codes "AT+CPMS?"
    ∷ codes "AT+CGATT?"
    ∷ codes "AT+CGACT?"
    ∷ codes "AT+CGDCONT?"
    ∷ codes "AT+CPSI?"
    ∷ codes "AT+CEER"
    ∷ codes "AT+CBC"
    ∷ codes "AT+CCID"
    ∷ codes "AT+CLCC"
    ∷ codes "AT+CGMI"
    ∷ codes "AT+CGMM"
    ∷ codes "AT+CGMR"
    ∷ codes "AT+CGSN"
    ∷ codes "AT+GMI"
    ∷ codes "AT+GMM"
    ∷ codes "AT+GMR"
    ∷ codes "AT+GSN"
    ∷ []

unfoldable pub is_diagnostic_command : Text → Bool
unfolding any text_eq
is_diagnostic_command command = any (text_eq command) diagnostic_commands

-- The text up to the first white space, and the rest with it.
unfoldable pub first_word : Text → Text × Text
unfolding is_whitespace
first_word [] = ([], [])
first_word (c ∷ s) =
    let (word, rest) = first_word s in if is_whitespace c then ([], c ∷ s) else (c ∷ word, rest)

abbrev pub is_ascii_control : ℕ → Bool
is_ascii_control c = ltb c 0x20 || c == 0x7F

-- The first two characters are AT, in any case.
unfoldable pub begins_with_at : Text → Bool
unfolding text_eq
begins_with_at command = text_eq (map to_ascii_upper (take 2 command)) (codes "AT")

unfoldable pub check_command : Text → Request
unfolding is_diagnostic_command begins_with_at bytes any all
check_command command =
    if length command == 0
    then rejected missing_command
    else if ltb 128 (length (bytes command))
    then rejected command_too_long
    else if not (all (λ c. ltb c 0x80) command)
        || any is_ascii_control command
        || any (λ c. c == 0x3B) command
        || not (begins_with_at command)
    then rejected invalid_command
    else if not (is_diagnostic_command (map to_ascii_upper command))
    then rejected unsupported_command
    else accepted (drop 2 command)

-- The first word is `/at`, with the bot's name behind it or not.
unfoldable pub names_at : Text → Bool
unfolding strip_prefix split text_eq
names_at word = elim (strip_prefix (0x2F ∷ []) word) [
  | none ↦ false
  | some name ↦ text_eq (first_piece (split 0x40 name)) (codes "at")
]

unfoldable pub parse_hidden_at_command : Text → Option Request
unfolding trim first_word check_command names_at
parse_hidden_at_command text =
    let (word, rest) = first_word (trim text) in
    if names_at word then some (check_command (trim rest)) else none

pub record AtCommandReply : Type 0 where
  pub text : Text
  pub succeeded : Bool

-- The text so far, and whether some was left out.
abbrev pub Reply : Type 0
Reply = Text × Bool

abbrev pub separator : Text → Text
separator [] = []
separator (c ∷ s) = 0x0A ∷ []

abbrev pub max_response_bytes : ℕ
max_response_bytes = 3500

unfoldable pub append_response_line : Reply → Text → Reply
unfolding floor_prefix bytes
append_response_line (text, true) line = (text, true)
append_response_line (text, false) line =
    let remaining = max_response_bytes - (length (bytes text) + length (separator text)) in
    if remaining == 0
    then (text, true)
    else if leb (length (bytes line)) remaining
    then (text ++ (separator text ++ line), false)
    else (text ++ (separator text ++ floor_prefix remaining line), true)

unfoldable pub append_lines : Reply → List Text → Reply
unfolding append_response_line
append_lines reply [] = reply
append_lines reply (line ∷ rest) = append_lines (append_response_line reply line) rest

-- The texts of the locale that only this handler uses.
pub record AtTexts : Type 0 where
  pub at_transport_error : Text → Text
  pub at_response_truncated : Text
  pub at_usage : Text
  pub at_invalid_command : Text
  pub at_command_too_long : Text
  pub at_unsupported_command : Text

module _ (texts : AtTexts) where
  unfoldable pub reply : AtRequestError → Text
  reply missing_command = texts.at_usage
  reply invalid_command = texts.at_invalid_command
  reply command_too_long = texts.at_command_too_long
  reply unsupported_command = texts.at_unsupported_command

  -- The last line: OK, the modem's error or that of the line.
  unfoldable pub closing_line : Option ModemError → Text
  unfolding error_text
  closing_line none = codes "OK"
  closing_line (some (at_error error)) = error
  closing_line (some error) = texts.at_transport_error (error_text error)

  abbrev pub has_succeeded : Option ModemError → Bool
  has_succeeded none = true
  has_succeeded (some error) = false

  unfoldable pub close : Bool → Reply → AtCommandReply
  close succeeded (text, false) = record { text = text; succeeded = succeeded }
  close succeeded (text, true) = record {
    text =
        text
        ++ (texts.at_response_truncated ++ (if succeeded then codes "\nOK" else codes "\nERROR"));
    succeeded = succeeded;
  }

  -- The modem's lines and error, as `send_at_streaming` gave them.
  unfoldable pub reply_of : List Text × Option ModemError → AtCommandReply
  unfolding append_lines append_response_line closing_line close
  reply_of (seen, error) =
      close (has_succeeded error)
        (append_response_line (append_lines ([], false) seen) (closing_line error))

  unfoldable pub execute_at_command {ℓ} :
      {M : Type ℓ} → AtTransport M → Text → M → M × AtCommandReply
  unfolding reply_of
  execute_at_command at suffix m =
      let (m', heard) = at.send_at_streaming m suffix in (m', reply_of heard)
