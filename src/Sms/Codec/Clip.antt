-- ===== src/Sms/Codec/Clip.antt =====
-- `parse_clip_line` of src/sms/codec.rs: the number in the notice of an incoming call.
use smsgate.Base.{
  ◌==◌, ◌≡◌, refl, not, if◌then◌else◌, true, false, [], ◌∷◌, ◌++◌, Option, none, some, ◌>>=◌, Text,
  codes, any, text_eq, inl, inr, Bool-cases,
}
use smsgate.Sms.Codec.Phone.{starts_with}

-- The text before the first double quote and the text behind it.
unfoldable pub split_quote : Text → Option (Text × Text)
split_quote [] = none
split_quote (c ∷ s) = do
  let rest = split_quote s
  if c == 0x22 then some ([], s) else (do (before, after) ← rest; some (c ∷ before, after))

unfoldable pub parse_clip_line : Text → Option Text
unfolding starts_with split_quote
parse_clip_line line = if not (starts_with (codes "+CLIP:") line) then none else (do
  (before, rest) ← split_quote line
  (number, after) ← split_quote rest
  if starts_with (codes ",") after then some number else none)

split_quote-append :
    (before after : Text)
    → any (λ c. c == 0x22) before ≡ false
    → split_quote (before ++ (0x22 ∷ after)) ≡ some (before, after)
unfolding split_quote any
split_quote-append [] after h = refl
split_quote-append (c ∷ before) after h = elim (Bool-cases (c == 0x22)) [
  | inl e ↦ let quoted : true ≡ false = rw e at h in cc
  | inr e ↦ let ih = split_quote-append before after (rw e at h) in rw (e, ih) refl
]

-- A notice with a quoted number, whatever stands between and behind, gives that number.
pub parse_clip_line-quoted :
    (between number more : Text)
    → any (λ c. c == 0x22) between ≡ false
    → any (λ c. c == 0x22) number ≡ false
    → parse_clip_line (codes "+CLIP:" ++ (between ++ (0x22 ∷ number ++ (0x22 ∷ 0x2C ∷ more))))
      ≡ some number
unfolding parse_clip_line starts_with any text_eq
parse_clip_line-quoted between number more h k =
    let first : split_quote (codes "+CLIP:" ++ (between ++ (0x22 ∷ number ++ (0x22 ∷ 0x2C ∷ more))))
        ≡ some (codes "+CLIP:" ++ between, number ++ (0x22 ∷ 0x2C ∷ more)) =
      split_quote-append (codes "+CLIP:" ++ between) (number ++ (0x22 ∷ 0x2C ∷ more)) h in
    rw (first, split_quote-append number (0x2C ∷ more) k) refl
