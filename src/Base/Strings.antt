-- ===== src/Base/Strings.antt =====
-- The text functions of Rust's `str` that several modules use.
use Prim.Native.Nat.{ℕ, zero, suc, ◌+◌, ◌-◌, ◌*◌, ◌/◌, ◌%◌}
use mathlib.Core.Bool.{Bool, true, false, ◌||◌}
use mathlib.Core.Option.{Option, none, some}
use mathlib.Core.List.{List, [], ◌∷◌, ◌++◌, append_assoc}
use mathlib.Core.Path.{◌≡◌, refl, sym, ap, ◌∙◌}
use mathlib.Core.Logic.{◌≢◌}
use native.Mathlib.Omega.{arith}
use smsgate.Base.Preds.{All}
use smsgate.Base.Tests.{ltb, leb, ◌==◌, in_range, if◌then◌else◌, ◌>>=◌}
use smsgate.Base.Lists.{length, take, drop}
use smsgate.Base.Texts.{Text, text_eq, is_ascii_digit, encode_utf8, bytes}

-- `char::is_whitespace`.
unfoldable pub is_whitespace : ℕ → Bool
is_whitespace c =
    in_range 0x09 0x0D c
    || c == 0x20
    || c == 0x85
    || c == 0xA0
    || c == 0x1680
    || in_range 0x2000 0x200A c
    || in_range 0x2028 0x2029 c
    || c == 0x202F
    || c == 0x205F
    || c == 0x3000

unfoldable pub trim_start : Text → Text
unfolding is_whitespace
trim_start [] = []
trim_start (c ∷ s) = if is_whitespace c then trim_start s else c ∷ s

-- A character is kept if it is none of white space or one behind it is kept.
unfoldable pub trim_end : Text → Text
unfolding is_whitespace
trim_end [] = []
trim_end (c ∷ s) = elim (trim_end s) [
  | [] ↦ if is_whitespace c then [] else c ∷ []
  | x ∷ xs ↦ c ∷ x ∷ xs
]

unfoldable pub trim : Text → Text
unfolding trim_start trim_end
trim s = trim_end (trim_start s)

unfoldable pub has_prefix : Text → Text → Bool
unfolding text_eq
has_prefix prefix s = text_eq (take (length prefix) s) prefix

unfoldable pub strip_prefix : Text → Text → Option Text
unfolding has_prefix
strip_prefix prefix s = if has_prefix prefix s then some (drop (length prefix) s) else none

-- The character goes in front of the first piece.
abbrev pub onto_first : ℕ → List Text → List Text
onto_first c [] = (c ∷ []) ∷ []
onto_first c (piece ∷ pieces) = (c ∷ piece) ∷ pieces

-- `str::split` at one character; there is always a first piece.
unfoldable pub split : ℕ → Text → List Text
split sep [] = [] ∷ []
split sep (c ∷ s) = let rest = split sep s in if c == sep then [] ∷ rest else onto_first c rest

-- `str::split_once` at the first character that passes the test.
unfoldable pub split_once : (ℕ → Bool) → Text → Option (Text × Text)
split_once test [] = none
split_once test (c ∷ s) =
    let rest = split_once test s in
    if test c then some ([], s) else (do (before, after) ← rest; some (c ∷ before, after))

abbrev pub strip_cr : Text → Text
strip_cr [] = []
strip_cr (c ∷ []) = if c == 0x0D then [] else c ∷ []
strip_cr (c ∷ d ∷ s) = c ∷ strip_cr (d ∷ s)

-- A line that a line feed ends loses a carriage return; nothing behind the last one is no line.
unfoldable pub lines_of : List Text → List Text
lines_of [] = []
lines_of ([] ∷ []) = []
lines_of ((c ∷ line) ∷ []) = (c ∷ line) ∷ []
lines_of (line ∷ next ∷ rest) = strip_cr line ∷ lines_of (next ∷ rest)

-- `str::lines`.
unfoldable pub lines : Text → List Text
unfolding split lines_of
lines s = lines_of (split 0x0A s)

-- The decimal digits of a number below 10 ^ fuel, before `acc`.
unfoldable pub digits_onto : ℕ → ℕ → Text → Text
digits_onto zero n acc = acc
digits_onto (suc fuel) n acc =
    let rest = digits_onto fuel (n / 10) ((0x30 + n % 10) ∷ acc) in
    if ltb n 10 then (0x30 + n) ∷ acc else rest

-- `{}` of an unsigned integer of up to 64 bits, which has at most 20 digits.
unfoldable pub decimal_text : ℕ → Text
unfolding digits_onto
decimal_text n = digits_onto 20 n []

-- `{:02}`.
unfoldable pub padded_text : ℕ → Text
unfolding decimal_text
padded_text n = if ltb n 10 then 0x30 ∷ decimal_text n else decimal_text n

unfoldable pub parse_digits : ℕ → Text → Option ℕ
parse_digits acc [] = some acc
parse_digits acc (c ∷ s) =
    let rest = parse_digits (acc * 10 + (c - 0x30)) s in if is_ascii_digit c then rest else none

-- `parse` of an unsigned integer that is at most `limit`; a plus sign may stand before the digits.
unfoldable pub parse_uint : ℕ → Text → Option ℕ
unfolding parse_digits
parse_uint limit [] = none
parse_uint limit (c ∷ []) = if is_ascii_digit c then some (c - 0x30) else none
parse_uint limit (c ∷ d ∷ s) = do
  n ← parse_digits 0 (if c == 0x2B then d ∷ s else c ∷ d ∷ s)
  if leb n limit then some n else none

-- The text split after its first `n` bytes: none, a panic in a slice, if a character stands there.
unfoldable pub split_at_byte : ℕ → Text → Option (Text × Text)
split_at_byte zero s = some ([], s)
split_at_byte (suc n) [] = none
split_at_byte (suc n) (c ∷ s) =
    let size = length (encode_utf8 c) in
    let rest = split_at_byte (suc n - size) s in
    if leb size (suc n) then (do (before, after) ← rest; some (c ∷ before, after)) else none

-- `&s[from..to]`.
unfoldable pub str_slice : ℕ → ℕ → Text → Option Text
unfolding split_at_byte
str_slice from to s = do
  (before, rest) ← split_at_byte from s
  (piece, after) ← split_at_byte (to - from) rest
  some piece

-- `str::contains`.
unfoldable pub contains : Text → Text → Bool
unfolding has_prefix
contains [] needle = has_prefix needle []
contains (c ∷ s) needle = has_prefix needle (c ∷ s) || contains s needle

-- `strip_suffix` of one character.
unfoldable pub strip_last : ℕ → Text → Option Text
strip_last c [] = none
strip_last c (d ∷ []) = if d == c then some [] else none
strip_last c (d ∷ e ∷ s) = do rest ← strip_last c (e ∷ s); some (d ∷ rest)

module _ (sep : ℕ) where
  -- The piece up to a separator, where that does not occur in the piece.
  pub split-append :
      (piece rest : Text)
      → All (λ c. c ≢ sep) piece
      → split sep (piece ++ (sep ∷ rest)) ≡ piece ∷ split sep rest
  unfolding split
  split-append [] rest h = let same : sep == sep ≡ true = ground arith in rw same refl
  split-append (c ∷ piece) rest (n, h) =
      let other : c == sep ≡ false = ground arith in rw (other, split-append piece rest h) refl

  -- A text without the separator is one piece.
  pub split_whole : (piece : Text) → All (λ c. c ≢ sep) piece → split sep piece ≡ piece ∷ []
  unfolding split
  split_whole [] h = refl
  split_whole (c ∷ piece) (n, h) =
      let other : c == sep ≡ false = ground arith in rw (other, split_whole piece h) refl

pub bytes-append : (s t : Text) → bytes (s ++ t) ≡ bytes s ++ bytes t
unfolding bytes
bytes-append [] t = refl
bytes-append (c ∷ s) t =
    ap (λ bs. encode_utf8 c ++ bs) (bytes-append s t)
    ∙ sym (append_assoc (encode_utf8 c) (bytes s) (bytes t))

-- `All` of what follows from it.
pub All-map {κ μ} :
    {P : ℕ → Type κ} {Q : ℕ → Type μ} → ((c : ℕ) → P c → Q c) → (s : Text) → All P s → All Q s
All-map f [] h = tt
All-map f (c ∷ s) (p, h) = (f c p, All-map f s h)
