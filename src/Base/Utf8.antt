-- ===== src/Base/Utf8.antt =====
-- `str::from_utf8`: strict UTF-8.
use Prim.Native.Nat.{ℕ, zero, suc, ◌+◌, ◌-◌, ◌*◌, ◌%◌, ◌/◌, ◌<◌, ◌≤◌}
use mathlib.Core.Path.{◌≡◌, refl, ap, sym, subst, ◌∙◌}
use mathlib.Core.Logic.{inl, inr}
use mathlib.Core.Bool.{Bool, true, false, ◌&&◌, ◌||◌}
use mathlib.Core.Option
use mathlib.Core.Option.{Option, none, some}
use mathlib.Core.List.{List, [], ◌∷◌, ◌++◌}
use native.Mathlib.Omega.{arith}
use smsgate.Base.Tests.{ltb, leb, ◌==◌, in_range, if◌then◌else◌, Bool-cases}
use smsgate.Base.Texts.{Text, bytes, encode_utf8}
use smsgate.Base.Preds.{All}

-- `char::from_u32`: no surrogate, and at most 0x10FFFF.
abbrev pub is_scalar : ℕ → Bool
is_scalar c = ltb c 0xD800 || in_range 0xE000 0x10FFFF c

abbrev pub IsScalar : ℕ → Type 0
IsScalar c = is_scalar c ≡ true

-- The bytes that follow the leading byte, its bits and the least character of that length.
record Lead : Type 0 where
  valid : Bool
  trailing : ℕ
  bits : ℕ
  least : ℕ

lead : ℕ → Lead
lead b =
    if ltb b 0x80
    then record { valid = true; trailing = 0; bits = b; least = 0 }
    else if in_range 0xC2 0xDF b
    then record { valid = true; trailing = 1; bits = b - 0xC0; least = 0x80 }
    else if in_range 0xE0 0xEF b
    then record { valid = true; trailing = 2; bits = b - 0xE0; least = 0x800 }
    else if in_range 0xF0 0xF4 b
    then record { valid = true; trailing = 3; bits = b - 0xF0; least = 0x10000 }
    else record { valid = false; trailing = 0; bits = 0; least = 0 }

-- Whole characters are put out; `n` bytes of the one that has `acc` so far are still to come.
decode_utf8 : ℕ → ℕ → ℕ → List ℕ → Option Text
unfolding lead
decode_utf8 zero acc low [] = some []
decode_utf8 (suc n) acc low [] = none
decode_utf8 zero acc low (b ∷ bs) =
    let l = lead b in
    let rest = decode_utf8 l.trailing l.bits l.least bs in
    if l.valid then (if l.trailing == 0 then Option.map (◌∷◌ b) rest else rest) else none
decode_utf8 (suc n) acc low (b ∷ bs) =
    let acc' = acc * 64 + b % 64 in
    let rest = decode_utf8 n acc' low bs in
    if in_range 0x80 0xBF b
    then (if n == 0
        then (if leb low acc' && is_scalar acc' then Option.map (◌∷◌ acc') rest else none)
        else rest)
    else none

unfoldable pub from_utf8 : List ℕ → Option Text
unfolding decode_utf8
from_utf8 bs = decode_utf8 0 0 0 bs

decode_utf8-zero : (acc low : ℕ) (bs : List ℕ) → decode_utf8 0 acc low bs ≡ decode_utf8 0 0 0 bs
unfolding decode_utf8
decode_utf8-zero acc low [] = refl
decode_utf8-zero acc low (b ∷ bs) = refl

trailing_bits : (x : ℕ) → x < 64 → (0x80 + x) % 64 ≡ x
trailing_bits x h = omega arith

trailing_range : (x : ℕ) → x < 64 → in_range 0x80 0xBF (0x80 + x) ≡ true
trailing_range x h = ground arith

suc_not_zero : (n : ℕ) → (suc n == 0) ≡ false
suc_not_zero n = ground arith

le→leb : (a b : ℕ) → a ≤ b → leb a b ≡ true
le→leb a b h = ground arith

-- One trailing byte that is not the last, and the last.
decode_utf8-more :
    (n acc low x : ℕ) (bs : List ℕ)
    → x < 64
    → decode_utf8 (suc (suc n)) acc low ((0x80 + x) ∷ bs)
      ≡ decode_utf8 (suc n) (acc * 64 + x) low bs
unfolding decode_utf8
decode_utf8-more n acc low x bs h = rw (trailing_bits x h, trailing_range x h, suc_not_zero n)

decode_utf8-last :
    (acc low x : ℕ) (bs : List ℕ)
    → x < 64
    → low ≤ acc * 64 + x
    → IsScalar (acc * 64 + x)
    → decode_utf8 1 acc low ((0x80 + x) ∷ bs)
      ≡ Option.map (◌∷◌ (acc * 64 + x)) (decode_utf8 0 0 0 bs)
unfolding decode_utf8
decode_utf8-last acc low x bs h k s = rw (
  trailing_bits x h,
  trailing_range x h,
  le→leb low (acc * 64 + x) k,
  s,
  decode_utf8-zero (acc * 64 + x) low bs,
)

decode_utf8-ascii :
    (c : ℕ) (bs : List ℕ)
    → c < 0x80
    → decode_utf8 0 0 0 (c ∷ bs) ≡ Option.map (◌∷◌ c) (decode_utf8 0 0 0 bs)
unfolding decode_utf8
decode_utf8-ascii c bs h = ground (arith, decode_utf8-zero c 0 bs)

decode_utf8-lead :
    (n b x low : ℕ) (bs : List ℕ)
    → lead b ≡ record { valid = true; trailing = suc n; bits = x; least = low }
    → decode_utf8 0 0 0 (b ∷ bs) ≡ decode_utf8 (suc n) x low bs
unfolding decode_utf8
decode_utf8-lead n b x low bs e = rw (e, suc_not_zero n)

-- The leading bytes of two, three and four bytes.
lead_two :
    (x : ℕ)
    → 2 ≤ x
    → x < 32
    → lead (0xC0 + x) ≡ record { valid = true; trailing = 1; bits = x; least = 0x80 }
unfolding lead
lead_two x h k = ground arith

lead_three :
    (x : ℕ)
    → x < 16
    → lead (0xE0 + x) ≡ record { valid = true; trailing = 2; bits = x; least = 0x800 }
unfolding lead
lead_three x h = ground arith

lead_four :
    (x : ℕ)
    → x < 5
    → lead (0xF0 + x) ≡ record { valid = true; trailing = 3; bits = x; least = 0x10000 }
unfolding lead
lead_four x h = ground arith

decode_utf8-two :
    (c x y : ℕ) (bs : List ℕ)
    → 2 ≤ x
    → x < 32
    → y < 64
    → c ≡ x * 64 + y
    → IsScalar c
    → decode_utf8 0 0 0 ((0xC0 + x) ∷ (0x80 + y) ∷ bs) ≡ Option.map (◌∷◌ c) (decode_utf8 0 0 0 bs)
decode_utf8-two c x y bs hx kx hy e s =
    decode_utf8-lead 0 (0xC0 + x) x 0x80 ((0x80 + y) ∷ bs) (lead_two x hx kx)
    ∙ decode_utf8-last x 0x80 y bs hy (omega arith) (subst IsScalar e s)
    ∙ ap (λ d. Option.map (◌∷◌ d) (decode_utf8 0 0 0 bs)) (sym e)

decode_utf8-three :
    (c x y z : ℕ) (bs : List ℕ)
    → x < 16
    → y < 64
    → z < 64
    → c ≡ (x * 64 + y) * 64 + z
    → 0x800 ≤ c
    → IsScalar c
    → decode_utf8 0 0 0 ((0xE0 + x) ∷ (0x80 + y) ∷ (0x80 + z) ∷ bs)
      ≡ Option.map (◌∷◌ c) (decode_utf8 0 0 0 bs)
decode_utf8-three c x y z bs hx hy hz e k s =
    decode_utf8-lead 1 (0xE0 + x) x 0x800 ((0x80 + y) ∷ (0x80 + z) ∷ bs) (lead_three x hx)
    ∙ decode_utf8-more 0 x 0x800 y ((0x80 + z) ∷ bs) hy
    ∙ decode_utf8-last (x * 64 + y) 0x800 z bs hz (omega arith) (subst IsScalar e s)
    ∙ ap (λ d. Option.map (◌∷◌ d) (decode_utf8 0 0 0 bs)) (sym e)

decode_utf8-four :
    (c x y z w : ℕ) (bs : List ℕ)
    → x < 5
    → y < 64
    → z < 64
    → w < 64
    → c ≡ ((x * 64 + y) * 64 + z) * 64 + w
    → 0x10000 ≤ c
    → IsScalar c
    → decode_utf8 0 0 0 ((0xF0 + x) ∷ (0x80 + y) ∷ (0x80 + z) ∷ (0x80 + w) ∷ bs)
      ≡ Option.map (◌∷◌ c) (decode_utf8 0 0 0 bs)
decode_utf8-four c x y z w bs hx hy hz hw e k s =
    decode_utf8-lead 2 (0xF0 + x) x 0x10000 ((0x80 + y) ∷ (0x80 + z) ∷ (0x80 + w) ∷ bs)
      (lead_four x hx)
    ∙ decode_utf8-more 1 x 0x10000 y ((0x80 + z) ∷ (0x80 + w) ∷ bs) hy
    ∙ decode_utf8-more 0 (x * 64 + y) 0x10000 z ((0x80 + w) ∷ bs) hz
    ∙ decode_utf8-last ((x * 64 + y) * 64 + z) 0x10000 w bs hw (omega arith) (subst IsScalar e s)
    ∙ ap (λ d. Option.map (◌∷◌ d) (decode_utf8 0 0 0 bs)) (sym e)

scalar-lt : (c : ℕ) → IsScalar c → c < 0x110000
scalar-lt c s = ground arith

-- One character is read back from its encoding, whatever follows.
decode_utf8-encode :
    (c : ℕ) (bs : List ℕ)
    → IsScalar c
    → decode_utf8 0 0 0 (encode_utf8 c ++ bs) ≡ Option.map (◌∷◌ c) (decode_utf8 0 0 0 bs)
unfolding encode_utf8
decode_utf8-encode c bs s = elim (Bool-cases (ltb c 0x80)) [
  | inl e ↦ rw (e, encode_utf8) (decode_utf8-ascii c bs (ground arith))
  | inr e ↦ elim (Bool-cases (ltb c 0x800)) [
    | inl f ↦
        rw (e, f, encode_utf8)
          (decode_utf8-two c (c / 64) (c % 64) bs (ground arith) (ground arith) (omega arith)
            (omega arith) s)
    | inr f ↦ elim (Bool-cases (ltb c 0x10000)) [
      | inl g ↦
          rw (e, f, g, encode_utf8)
            (decode_utf8-three c (c / 4096) (c / 64 % 64) (c % 64) bs (ground arith) (omega arith)
              (omega arith) (omega arith) (ground arith) s)
      | inr g ↦
          rw (e, f, g, encode_utf8)
            (decode_utf8-four c (c / 262144) (c / 4096 % 64) (c / 64 % 64) (c % 64) bs
              (omega (arith, scalar-lt c s)) (omega arith) (omega arith) (omega arith) (omega arith)
              (ground arith) s)
    ]
  ]
]

-- UTF-8 is read back.
pub from_utf8-bytes : (s : Text) → All IsScalar s → from_utf8 (bytes s) ≡ some s
unfolding from_utf8 bytes
from_utf8-bytes [] h = unfold decode_utf8 in refl
from_utf8-bytes (c ∷ s) (hc, h) =
    decode_utf8-encode c (bytes s) hc ∙ ap (Option.map (◌∷◌ c)) (from_utf8-bytes s h)
