-- ===== src/Base/Bits.antt =====
-- Lemmas on `bit_or`.
use Prim.Native.Nat.{
  ℕ, zero, suc, ◌+◌, ◌*◌, ◌/◌, ◌%◌, ◌^◌, ◌≤◌, ◌<◌, max, bit_or, digits, bit_or-bitwise,
}
use mathlib.Core.Path.{◌≡◌, refl}
use native.Mathlib.Omega.{arith}
use native.Mathlib.Nat.{pow-suc}

abbrev or_with : ℕ → ℕ → ℕ → ℕ
or_with fuel a b = digits (λ rest. rest) max fuel a b

-- More fuel than the first number changes nothing.
or_with-enough : (a b fuel more : ℕ) → a ≤ fuel → a ≤ more → or_with fuel a b ≡ or_with more a b
or_with-enough zero b zero zero h k = refl
or_with-enough zero b zero (suc more) h k = refl
or_with-enough zero b (suc fuel) zero h k = refl
or_with-enough zero b (suc fuel) (suc more) h k = refl
or_with-enough (suc a) b zero more h k = absurd (omega arith)
or_with-enough (suc a) b (suc fuel) zero h k = absurd (omega arith)
or_with-enough (suc a) b (suc fuel) (suc more) h k =
    omega (arith, or_with-enough (suc a / 2) (b / 2) fuel more (omega arith) (omega arith))

pub bit_or-zero_left : (b : ℕ) → bit_or 0 b ≡ b
bit_or-zero_left b = bit_or-bitwise 0 b

bit_or-halves : (a b : ℕ) → bit_or a b ≡ bit_or (a / 2) (b / 2) * 2 + max (a % 2) (b % 2)
bit_or-halves zero b = omega (arith, bit_or-zero_left b, bit_or-zero_left (b / 2))
bit_or-halves (suc a) b = omega (
  arith,
  bit_or-bitwise (suc a) b,
  bit_or-bitwise (suc a / 2) (b / 2),
  or_with-enough (suc a / 2) (b / 2) a (suc a / 2) (omega arith) (omega arith),
)

bit_or-none : (fuel a : ℕ) → a ≤ fuel → bit_or a 0 ≡ a
bit_or-none fuel zero h = bit_or-zero_left 0
bit_or-none zero (suc a) h = absurd (omega arith)
bit_or-none (suc fuel) (suc a) h =
    omega (arith, bit_or-halves (suc a) 0, bit_or-none fuel (suc a / 2) (omega arith))

bit_or-double : (p b : ℕ) → bit_or (p * 2) b ≡ bit_or p (b / 2) * 2 + b % 2
bit_or-double p b =
    let half : p * 2 / 2 ≡ p = omega arith in
    let even : p * 2 % 2 ≡ 0 = omega arith in
    let step : bit_or (p * 2) b ≡ bit_or p (b / 2) * 2 + max 0 (b % 2) =
      rw (half, even) at (bit_or-halves (p * 2) b) in
    omega (arith, step)

-- The second number is below the lowest bit of the first.
pub bit_or-disjoint : (k a b : ℕ) → b < 2 ^ k → bit_or (a * 2 ^ k) b ≡ a * 2 ^ k + b
bit_or-disjoint zero a b h =
    let none_left : b ≡ 0 = omega arith in
    let one : a * 1 ≡ a = omega arith in
    rw (none_left, one) (omega (arith, bit_or-none a a (omega arith)))
bit_or-disjoint (suc k) a b h =
    let wide : a * 2 ^ suc k ≡ a * 2 ^ k * 2 = rw (pow-suc 2 k) (omega arith) in
    rw wide (
      omega (
        arith,
        bit_or-double (a * 2 ^ k) b,
        bit_or-disjoint k a (b / 2) (omega (arith, pow-suc 2 k)),
      ))
