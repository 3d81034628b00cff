-- ===== src/Commands.antt =====
-- src/commands/mod.rs: the lines by which a command's reply asks for an effect, the escaping of a
-- message in such a line, and the registry of commands.
pub mod Encoded
pub mod Builtin
pub mod Page
use smsgate.Base.{
  ℕ, zero, suc, ◌+◌, ltb, ◌==◌, ◌||◌, if◌then◌else◌, Bool, true, false, List, [], ◌∷◌, ◌++◌, map,
  Option, none, some, Text, codes, text_eq, length, trim, split, split_once, is_whitespace, bytes,
}
use smsgate.Modem.Status.{ModemStatus}
use smsgate.Sms.Sender.Queue.{SmsSender}

abbrev pub send_sentinel : Text
send_sentinel = codes "__SEND__:"

abbrev pub block_sentinel : Text
block_sentinel = codes "__BLOCK__:"

abbrev pub unblock_sentinel : Text
unblock_sentinel = codes "__UNBLOCK__:"

abbrev pub pause_sentinel : Text
pause_sentinel = codes "__PAUSE__:"

abbrev pub resume_sentinel : Text
resume_sentinel = codes "__RESUME__"

abbrev pub restart_sentinel : Text
restart_sentinel = codes "__RESTART__"

abbrev pub encoded_char : ℕ → Text
encoded_char c =
    if c == 0x5C
    then codes "\\\\"
    else if c == 0x0A
    then codes "\\n"
    else if c == 0x0D
    then codes "\\r"
    else c ∷ []

-- What `push_encoded_sentinel_body` appends.
unfoldable pub encoded_sentinel_body : Text → Text
encoded_sentinel_body [] = []
encoded_sentinel_body (c ∷ body) = encoded_char c ++ encoded_sentinel_body body

abbrev pub is_escaped : ℕ → Bool
is_escaped c = c == 0x5C || c == 0x0A || c == 0x0D

-- The bytes, and one more for each character that is escaped.
unfoldable pub escapes : Text → ℕ
escapes [] = 0
escapes (c ∷ body) = (if is_escaped c then 1 else 0) + escapes body

unfoldable pub encoded_sentinel_body_len : Text → ℕ
unfolding escapes bytes
encoded_sentinel_body_len body = length (bytes body) + escapes body

-- What stands for a backslash and the character behind it.
abbrev pub decoded_pair : ℕ → Text
decoded_pair c =
    if c == 0x6E
    then 0x0A ∷ []
    else if c == 0x72
    then 0x0D ∷ []
    else if c == 0x5C
    then 0x5C ∷ []
    else 0x5C ∷ c ∷ []

unfoldable pub decode_sentinel_body : Text → Text
decode_sentinel_body [] = []
decode_sentinel_body (c ∷ []) = c ∷ []
decode_sentinel_body (c ∷ d ∷ s) = elim (c == 0x5C) [
  | true ↦ decoded_pair d ++ decode_sentinel_body s
  | false ↦ c ∷ decode_sentinel_body (d ∷ s)
]

-- What a command may read.
pub record CommandContext {ℓ} (L S : Type ℓ) : Type ℓ where
  pub store : S
  pub modem_status : ModemStatus
  pub log_ring : L
  pub send_queue : SmsSender
  pub uptime_ms : ℕ
  pub free_heap_bytes : ℕ
  pub min_free_heap_bytes : ℕ
  pub wifi_info : Text

pub record Command {ℓ} (L S : Type ℓ) : Type ℓ where
  pub name : Text
  pub description : Text
  pub handle : Text → CommandContext L S → Text

unfoldable pub trim_slashes : Text → Text
trim_slashes [] = []
trim_slashes (c ∷ s) = let rest = trim_slashes s in if c == 0x2F then rest else c ∷ s

abbrev pub first_piece : List Text → Text
first_piece [] = []
first_piece (piece ∷ rest) = piece

-- A word and the text behind it, without the bot's name and without white space around the text.
unfoldable pub name_and_args : Text → Text × Text
unfolding split_once is_whitespace split trim
name_and_args text = elim (split_once is_whitespace text) [
  | none ↦ (first_piece (split 0x40 text), trim [])
  | some (name, args) ↦ (first_piece (split 0x40 name), trim args)
]

module _ {ℓ} {L S : Type ℓ} where
  -- `none` is the panic of the assertion.
  unfoldable pub register : List (Command L S) → Command L S → Option (List (Command L S))
  register commands cmd = if ltb (length commands) 10 then some (commands ++ (cmd ∷ [])) else none

  unfoldable pub find_command : List (Command L S) → Text → Option (Command L S)
  unfolding text_eq
  find_command [] name = none
  find_command (cmd ∷ rest) name =
      let later = find_command rest name in if text_eq cmd.name name then some cmd else later

  unfoldable pub dispatch : List (Command L S) → Text → CommandContext L S → Option Text
  unfolding trim_slashes name_and_args find_command
  dispatch commands text ctx =
      let (name, args) = name_and_args (trim_slashes text) in
      elim (find_command commands name) [ none ↦ none | some cmd ↦ some (cmd.handle args ctx) ]

  abbrev pub command_list : List (Command L S) → List (Text × Text)
  command_list commands = map (λ cmd. (cmd.name, cmd.description)) commands

  unfoldable pub help_lines : List (Command L S) → Text
  help_lines [] = []
  help_lines (cmd ∷ rest) =
      0x2F ∷ cmd.name ++ (codes " — " ++ (cmd.description ++ (0x0A ∷ help_lines rest)))

  unfoldable pub help_text : List (Command L S) → Text
  unfolding help_lines
  help_text commands = codes "Commands:\n" ++ help_lines commands
