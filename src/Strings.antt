-- ===== src/Strings.antt =====
-- src/text.rs: the first characters of a text, and whether more follow.
use smsgate.Base.{ℕ, ltb, if◌then◌else◌, Bool, true, false, Text, length, take}

unfoldable pub char_prefix : Text → ℕ → Text × Bool
char_prefix s max_chars = if ltb max_chars (length s) then (take max_chars s, true) else (s, false)
