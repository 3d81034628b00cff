-- ===== src/Bridge/Poller/Queued/OneLine.antt =====
-- Texts of one line, and the line that src/commands/builtin/send.rs shows.
use smsgate.Base.{
  ℕ, zero, suc, ◌+◌, ◌/◌, ◌%◌, digits_onto, decimal_text, ◌≡◌, ◌≢◌, ◌⊎◌, refl, codes, inl, inr,
  ◌==◌, if◌then◌else◌, Bool, true, false, Bool-cases, Option-cases, List, [], ◌∷◌, none, some, Text,
  text_eq, arith, All, All-append, split, split_once, lines, lines_of, trim, trim_start, trim_end,
  is_whitespace, has_prefix, strip_prefix, ltb,
}
use smsgate.Locale.{Locale}
use smsgate.Locale.En.{english, send_queued}

abbrev pub InLine : ℕ → Type 0
InLine c = c ≢ 0x0A

module _ {ℓ} (P : ℕ → Type ℓ) where
  All-trim_start : (s : Text) → All P s → All P (trim_start s)
  unfolding trim_start
  All-trim_start [] h = tt
  All-trim_start (c ∷ s) (a, h) = elim (Bool-cases (is_whitespace c)) [
    | inl e ↦ rw (e, trim_start) (All-trim_start s h)
    | inr e ↦ rw (e, trim_start) (a, h)
  ]

  List-cases : (s : Text) → (s ≡ []) ⊎ ((c : ℕ) × (r : Text) × (s ≡ c ∷ r))
  List-cases [] = inl refl
  List-cases (c ∷ r) = inr (c, r, refl)

  All-trim_end : (s : Text) → All P s → All P (trim_end s)
  unfolding trim_end
  All-trim_end [] h = tt
  All-trim_end (c ∷ s) (a, h) = elim (List-cases (trim_end s)) [
    | inl e ↦ elim (Bool-cases (is_whitespace c)) [
      | inl w ↦ rw (e, w, trim_end) tt
      | inr w ↦ rw (e, w, trim_end) (a, tt)
    ]
    | inr (x, xs, e) ↦
        let rest : All P (x ∷ xs) = rw e at (All-trim_end s h) in rw (e, trim_end) (a, rest)
  ]

  pub All-trim : (s : Text) → All P s → All P (trim s)
  unfolding trim
  All-trim s h = All-trim_end (trim_start s) (All-trim_start s h)

  pub All-split_once :
      (test : ℕ → Bool) (s before after : Text)
      → split_once test s ≡ some (before, after)
      → All P s
      → All P after
  unfolding split_once
  All-split_once test [] before after e h = cc
  All-split_once test (c ∷ s) before after e (a, h) = elim (Bool-cases (test c)) [
    | inl t ↦
        let found : some ([], s) ≡ some (before, after) = rw (t, split_once) at e in
        let same : s ≡ after = cc in rw⁻¹ same h
    | inr t ↦ elim (Option-cases (split_once test s)) [
      | inl n ↦ let lost : none ≡ some (before, after) = rw (t, n, split_once) at e in cc
      | inr ((b, r), q) ↦
          let found : some (c ∷ b, r) ≡ some (before, after) = rw (t, q, split_once) at e in
          let same : r ≡ after = cc in rw⁻¹ same (All-split_once test s b r q h)
    ]
  ]

abbrev pub one_line : Text → List Text
one_line [] = []
one_line (c ∷ s) = (c ∷ s) ∷ []

split-InLine : (s : Text) → All InLine s → split 0x0A s ≡ s ∷ []
unfolding split
split-InLine [] h = refl
split-InLine (c ∷ s) (a, h) =
    let other : c == 0x0A ≡ false = ground arith in rw (other, split, split-InLine s h) refl

pub lines-InLine : (s : Text) → All InLine s → lines s ≡ one_line s
unfolding lines lines_of
lines-InLine [] h = unfold split in refl
lines-InLine (c ∷ s) h = rw (split-InLine (c ∷ s) h) refl

-- A text that does not start with the character that all marks start with.
abbrev pub StartsPlain : Text → Type 0
StartsPlain [] = Unit
StartsPlain (c ∷ s) = c ≢ 0x5F

pub has_prefix-StartsPlain : (mark s : Text) → StartsPlain s → has_prefix (0x5F ∷ mark) s ≡ false
unfolding has_prefix text_eq
has_prefix-StartsPlain mark [] h = refl
has_prefix-StartsPlain mark (c ∷ s) h =
    let other : c == 0x5F ≡ false = ground arith in rw other refl

pub strip_prefix-StartsPlain : (mark s : Text) → StartsPlain s → strip_prefix (0x5F ∷ mark) s ≡ none
unfolding strip_prefix
strip_prefix-StartsPlain mark s h = rw (has_prefix-StartsPlain mark s h) refl

-- What the text about a queued message is in any language: one line without a mark, if the number and
-- the message's beginning have no line feed.
pub record IsOneLine (locale : Locale) : Type 0 where
  pub in_line :
      (phone preview : Text) (truncated : Bool) (parts : ℕ)
      → All InLine phone
      → All InLine preview
      → All InLine (locale.send_queued phone preview truncated parts)
  pub unmarked :
      (phone preview : Text) (truncated : Bool) (parts : ℕ)
      → StartsPlain (locale.send_queued phone preview truncated parts)

digits_onto-InLine :
    (fuel n : ℕ) (acc : Text) → All InLine acc → All InLine (digits_onto fuel n acc)
unfolding digits_onto
digits_onto-InLine zero n acc h = h
digits_onto-InLine (suc fuel) n acc h = elim (Bool-cases (ltb n 10)) [
  | inl e ↦ rw (e, digits_onto) (omega arith, h)
  | inr e ↦
      rw (e, digits_onto)
        (digits_onto-InLine fuel (n / 10) ((0x30 + n % 10) ∷ acc) (omega arith, h))
]

if-InLine : (b : Bool) (s t : Text) → All InLine s → All InLine t → All InLine (if b then s else t)
if-InLine true s t h k = h
if-InLine false s t h k = k

send_queued-InLine :
    (phone preview : Text) (truncated : Bool) (parts : ℕ)
    → All InLine phone
    → All InLine preview
    → All InLine (send_queued phone preview truncated parts)
unfolding send_queued decimal_text
send_queued-InLine phone preview truncated parts p q =
    All-append InLine (codes "Queued: ") _ (ground arith) (
      All-append InLine phone _ p (
        All-append InLine (codes " → \"") _ (ground arith) (
          All-append InLine preview _ q (
            All-append InLine (if truncated then codes "…" else []) _
              (if-InLine truncated (codes "…") [] (ground arith) tt)
              (All-append InLine (codes "\" (") _ (ground arith) (
                All-append InLine (decimal_text parts) (codes " part(s))")
                  (digits_onto-InLine 20 parts [] tt) (ground arith)))))))

-- The English text is such a line.
pub english-IsOneLine : (format_bytes : ℕ → Text) → IsOneLine (english format_bytes)
unfolding english send_queued
english-IsOneLine format_bytes = record {
  in_line = send_queued-InLine;
  unmarked = λ phone preview truncated parts. omega arith;
}
