-- ===== src/Modem/Urc.antt =====
-- The modem's unsolicited lines: src/modem/urc.rs.
use smsgate.Base.{
  ℕ, ◌==◌, any, if◌then◌else◌, Bool, List, [], ◌∷◌, Option, none, some, Text, codes, trim,
  trim_start, has_prefix, strip_prefix, split_once, parse_uint,
}
use smsgate.Sms.Codec.Clip.{parse_clip_line}

abbrev pub urc_prefixes : List Text
urc_prefixes =
    codes "+CMTI:"
    ∷ codes "+CMT:"
    ∷ codes "+CDSI:"
    ∷ codes "+CDS:"
    ∷ codes "+CGEV:"
    ∷ codes "+CLIP:"
    ∷ codes "RING"
    ∷ codes "NO CARRIER"
    ∷ codes "+CUSD:"
    ∷ []

unfoldable pub is_urc : Text → Bool
unfolding any has_prefix
is_urc line = any (λ prefix. has_prefix prefix line) urc_prefixes

pub data Urc : Type 0 where
  new_sms : Text → ℕ → Urc
  sms_delivery : Urc
  ring : Urc
  clip : Text → Urc
  status_report : Urc
  other : Text → Urc

-- `trim_matches` of one character.
unfoldable pub strip_leading : ℕ → Text → Text
strip_leading c [] = []
strip_leading c (d ∷ s) = let rest = strip_leading c s in if d == c then rest else d ∷ s

unfoldable pub strip_trailing : ℕ → Text → Text
strip_trailing c [] = []
strip_trailing c (d ∷ s) = elim (strip_trailing c s) [
  | [] ↦ if d == c then [] else d ∷ []
  | x ∷ xs ↦ d ∷ x ∷ xs
]

abbrev pub or_first : Option ℕ → ℕ
or_first none = 0
or_first (some index) = index

-- The storage and the place in it.
unfoldable pub new_sms_of : Text → Urc
unfolding split_once trim strip_leading strip_trailing parse_uint
new_sms_of rest = elim (split_once (λ c. c == 0x2C) rest) [
  | none ↦ new_sms (strip_trailing 0x22 (strip_leading 0x22 (trim rest))) 0
  | some (mem, index) ↦
      new_sms (strip_trailing 0x22 (strip_leading 0x22 (trim mem)))
        (or_first (parse_uint 65_535 (trim index)))
]

abbrev pub or_empty : Option Text → Text
or_empty none = []
or_empty (some text) = text

-- The lines other than those about a new message.
unfoldable pub parse_other : Text → Urc
unfolding has_prefix parse_clip_line
parse_other line =
    if has_prefix (codes "+CMT:") line
    then sms_delivery
    else if has_prefix (codes "RING") line
    then ring
    else if has_prefix (codes "+CLIP:") line
    then clip (or_empty (parse_clip_line line))
    else if has_prefix (codes "+CDS:") line
    then status_report
    else if has_prefix (codes "+CDSI:") line
    then status_report
    else other line

unfoldable pub parse_urc : Text → Urc
unfolding strip_prefix trim_start new_sms_of parse_other
parse_urc line = elim (strip_prefix (codes "+CMTI:") line) [
  | some rest ↦ new_sms_of (trim_start rest)
  | none ↦ parse_other line
]
