-- ===== src/Base/Bits.antt =====
-- `&` with a mask and `|` of disjoint fields, as arithmetic, at every width.
use Prim.Native.Nat.{
  ℕ, zero, suc, ◌+◌, ◌-◌, ◌*◌, ◌/◌, ◌%◌, ◌^◌, ◌≤◌, ◌<◌, min, max, bit_and, bit_or, digits,
  bit_and-bitwise, bit_or-bitwise,
}
use mathlib.Core.Path.{◌≡◌, refl, ap, ◌∙◌}
use native.Mathlib.Nat.{pow-suc, one-le-pow}
use native.Mathlib.Omega.{arith}

-- The native operations stand for `digits`, a recursion on fuel. Any fuel from the first
-- argument on gives the same digits.
module _ (z : ℕ → ℕ) (f : ℕ → ℕ → ℕ) where
  enough_digits : (n m a b : ℕ) → a ≤ n → a ≤ m → digits z f n a b ≡ digits z f m a b
  enough_digits zero zero zero b p q = refl
  enough_digits zero zero (suc a) b p q = absurd (omega arith)
  enough_digits zero (suc m) zero b p q = refl
  enough_digits zero (suc m) (suc a) b p q = absurd (omega arith)
  enough_digits (suc n) zero zero b p q = refl
  enough_digits (suc n) zero (suc a) b p q = absurd (omega arith)
  enough_digits (suc n) (suc m) zero b p q = refl
  enough_digits (suc n) (suc m) (suc a) b p q =
      omega (arith, enough_digits n m (suc a / 2) (b / 2) (omega arith) (omega arith))

-- The lowest digit, and the rest.
pub bit_and_low : (a b : ℕ) → bit_and a b ≡ bit_and (a / 2) (b / 2) * 2 + min (a % 2) (b % 2)
bit_and_low zero b = omega (arith, bit_and-bitwise 0 b, bit_and-bitwise 0 (b / 2))
bit_and_low (suc a) b = omega (
  arith,
  bit_and-bitwise (suc a) b,
  bit_and-bitwise (suc a / 2) (b / 2),
  enough_digits (λ y. zero) min a (suc a / 2) (suc a / 2) (b / 2) (omega arith) (omega arith),
)

bit_or_low : (a b : ℕ) → bit_or a b ≡ bit_or (a / 2) (b / 2) * 2 + max (a % 2) (b % 2)
bit_or_low zero b = omega (arith, bit_or-bitwise 0 b, bit_or-bitwise 0 (b / 2))
bit_or_low (suc a) b = omega (
  arith,
  bit_or-bitwise (suc a) b,
  bit_or-bitwise (suc a / 2) (b / 2),
  enough_digits (λ y. y) max a (suc a / 2) (suc a / 2) (b / 2) (omega arith) (omega arith),
)

and_zero_below : (n a : ℕ) → a ≤ n → bit_and a 0 ≡ 0
and_zero_below n zero h = refl
and_zero_below zero (suc a) h = absurd (omega arith)
and_zero_below (suc n) (suc a) h =
    omega (arith, bit_and_low (suc a) 0, and_zero_below n (suc a / 2) (omega arith))

pub bit_and-zero : (a : ℕ) → bit_and a 0 ≡ 0
bit_and-zero a = and_zero_below a a (omega arith)

or_zero_below : (n a : ℕ) → a ≤ n → bit_or a 0 ≡ a
or_zero_below n zero h = refl
or_zero_below zero (suc a) h = absurd (omega arith)
or_zero_below (suc n) (suc a) h =
    omega (arith, bit_or_low (suc a) 0, or_zero_below n (suc a / 2) (omega arith))

pub bit_or-zero : (a : ℕ) → bit_or a 0 ≡ a
bit_or-zero a = or_zero_below a a (omega arith)

mul-two-pow_suc : (q k : ℕ) → q * 2 ^ suc k ≡ 2 * (q * 2 ^ k)
mul-two-pow_suc q k = omega (arith, ap (λ (t : ℕ). q * t) (pow-suc 2 k))

-- `(q << k) | r` for `r` of `k` bits
pub bit_or_fields : (k q r : ℕ) → r < 2 ^ k → bit_or (q * 2 ^ k) r ≡ q * 2 ^ k + r
bit_or_fields zero q r h = ground (arith, bit_or-zero q)
bit_or_fields (suc k) q r h = ground (
  arith,
  pow-suc 2 k,
  mul-two-pow_suc q k,
  bit_or_low (q * 2 ^ suc k) r,
  bit_or_fields k q (r / 2) (omega (arith, pow-suc 2 k)),
)

-- `((q << k) | r) & m` for a mask `m` of the `k` low bits: `r`
low_fields : (k q r : ℕ) → r < 2 ^ k → bit_and (q * 2 ^ k + r) (2 ^ k - 1) ≡ r
low_fields zero q r h = omega (arith, bit_and-zero (q * 1 + r))
low_fields (suc k) q r h = ground (
  arith,
  pow-suc 2 k,
  one-le-pow k 2,
  mul-two-pow_suc q k,
  bit_and_low (q * 2 ^ suc k + r) (2 ^ suc k - 1),
  low_fields k q (r / 2) (omega (arith, pow-suc 2 k)),
)

-- the same for a mask of bits from `k` on
high_fields : (k q r m : ℕ) → r < 2 ^ k → bit_and (q * 2 ^ k + r) (m * 2 ^ k) ≡ bit_and q m * 2 ^ k
high_fields zero q zero m h = ground arith
high_fields zero q (suc r) m h = absurd (omega arith)
high_fields (suc k) q r m h = ground (
  arith,
  pow-suc 2 k,
  mul-two-pow_suc q k,
  mul-two-pow_suc m k,
  mul-two-pow_suc (bit_and q m) k,
  bit_and_low (q * 2 ^ suc k + r) (m * 2 ^ suc k),
  high_fields k q (r / 2) m (omega (arith, pow-suc 2 k)),
)

split_at : (k a : ℕ) → (a ≡ a / 2 ^ k * 2 ^ k + a % 2 ^ k) × (a % 2 ^ k < 2 ^ k)
split_at k a = grind (arith, one-le-pow k 2)

-- `a & (2 ^ k - 1)`
pub bit_and_low_mask : (k a : ℕ) → bit_and a (2 ^ k - 1) ≡ a % 2 ^ k
bit_and_low_mask k a =
    ap (λ (t : ℕ). bit_and t (2 ^ k - 1)) (split_at k a).0
    ∙ low_fields k (a / 2 ^ k) (a % 2 ^ k) (split_at k a).1

-- `a & (m << k)`
pub bit_and_high_mask : (k a m : ℕ) → bit_and a (m * 2 ^ k) ≡ bit_and (a / 2 ^ k) m * 2 ^ k
bit_and_high_mask k a m =
    ap (λ (t : ℕ). bit_and t (m * 2 ^ k)) (split_at k a).0
    ∙ high_fields k (a / 2 ^ k) (a % 2 ^ k) m (split_at k a).1

pub bit_and-one : (a : ℕ) → bit_and a 1 ≡ a % 2
bit_and-one a = omega (arith, bit_and_low a 1, bit_and-zero (a / 2))

-- `a & (1 << k)`
pub bit_and_bit : (k a : ℕ) → bit_and a (1 * 2 ^ k) ≡ a / 2 ^ k % 2 * 2 ^ k
bit_and_bit k a = bit_and_high_mask k a 1 ∙ ap (λ (t : ℕ). t * 2 ^ k) (bit_and-one (a / 2 ^ k))

-- `((q << k) | r) | s` for `r` and `s` of `k` bits
pub bit_or_low_field :
    (k q r s : ℕ) → r < 2 ^ k → s < 2 ^ k → bit_or (q * 2 ^ k + r) s ≡ q * 2 ^ k + bit_or r s
bit_or_low_field zero q zero zero h g = ground (arith, bit_or-zero q)
bit_or_low_field zero q zero (suc s) h g = absurd (omega arith)
bit_or_low_field zero q (suc r) s h g = absurd (omega arith)
bit_or_low_field (suc k) q r s h g = ground (
  arith,
  pow-suc 2 k,
  mul-two-pow_suc q k,
  bit_or_low (q * 2 ^ suc k + r) s,
  bit_or_low r s,
  bit_or_low_field k q (r / 2) (s / 2) (omega (arith, pow-suc 2 k)) (omega (arith, pow-suc 2 k)),
)

pub bit_or-lt : (k r s : ℕ) → r < 2 ^ k → s < 2 ^ k → bit_or r s < 2 ^ k
bit_or-lt zero zero zero h g = omega arith
bit_or-lt zero zero (suc s) h g = absurd (omega arith)
bit_or-lt zero (suc r) s h g = absurd (omega arith)
bit_or-lt (suc k) r s h g = ground (
  arith,
  pow-suc 2 k,
  bit_or_low r s,
  bit_or-lt k (r / 2) (s / 2) (omega (arith, pow-suc 2 k)) (omega (arith, pow-suc 2 k)),
)

pub bit_or-one : (r : ℕ) → bit_or r 1 % 2 ≡ 1
bit_or-one r = omega (arith, bit_or_low r 1)
