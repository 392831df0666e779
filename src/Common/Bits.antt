-- ===== src/Common/Bits.antt =====
-- `|` of fields of bits that do not overlap, as a sum.
use Prim.Native.Nat.{
  ℕ, zero, suc, ◌+◌, ◌*◌, ◌/◌, ◌%◌, ◌^◌, ◌≤◌, ◌<◌, max, digits, bit_or, bit_or-bitwise,
}
use mathlib.Core.Path.{◌≡◌, refl}
use native.Mathlib.Nat.{pow-suc}
use native.Mathlib.Omega.{arith}

-- The digits of `bit_or`, with more fuel than there are.
or_digits : ℕ → ℕ → ℕ → ℕ
or_digits fuel a b = digits (λ y. y) max fuel a b

or_digits_enough : (m n a b : ℕ) → a ≤ m → a ≤ n → or_digits m a b ≡ or_digits n a b
unfolding or_digits
or_digits_enough zero zero a b h k = refl
or_digits_enough zero (suc n) zero b h k = refl
or_digits_enough zero (suc n) (suc a) b h k = absurd (omega arith)
or_digits_enough (suc m) zero zero b h k = refl
or_digits_enough (suc m) zero (suc a) b h k = absurd (omega arith)
or_digits_enough (suc m) (suc n) zero b h k = refl
or_digits_enough (suc m) (suc n) (suc a) b h k =
    omega (arith, or_digits_enough m n (suc a / 2) (b / 2) (omega arith) (omega arith))

bit_or_halves : (a b : ℕ) → bit_or a b ≡ bit_or (a / 2) (b / 2) * 2 + max (a % 2) (b % 2)
unfolding or_digits
bit_or_halves zero b = simp bit_or-bitwise (omega arith)
bit_or_halves (suc a) b = omega (
  arith,
  bit_or-bitwise (suc a) b,
  bit_or-bitwise (suc a / 2) (b / 2),
  or_digits_enough a (suc a / 2) (suc a / 2) (b / 2) (omega arith) (omega arith),
)

bit_or-zero : (fuel a : ℕ) → a ≤ fuel → bit_or a 0 ≡ a
bit_or-zero fuel zero h = refl
bit_or-zero zero (suc a) h = absurd (omega arith)
bit_or-zero (suc fuel) (suc a) h =
    omega (arith, bit_or_halves (suc a) 0, bit_or-zero fuel (suc a / 2) (omega arith))

doubled : (high k : ℕ) → high * 2 ^ suc k ≡ 2 * (high * 2 ^ k)
doubled high k = rw (pow-suc 2 k) (omega arith)

-- `low` has at most `k` bits.
pub bit_or_lem : (k high low : ℕ) → low < 2 ^ k → bit_or (high * 2 ^ k) low ≡ high * 2 ^ k + low
bit_or_lem zero high low h = ground (arith, bit_or-zero high high (omega arith))
bit_or_lem (suc k) high low h = ground (
  arith,
  pow-suc 2 k,
  doubled high k,
  bit_or_halves (high * 2 ^ suc k) low,
  bit_or_lem k high (low / 2) (omega (arith, pow-suc 2 k)),
)
