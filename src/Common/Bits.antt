-- ===== src/Common/Bits.antt =====
-- `&` with a mask of low bits, and `|` of fields that do not overlap, as arithmetic.
use Prim.Native.Nat.{
  ℕ, zero, suc, ◌+◌, ◌-◌, ◌*◌, ◌/◌, ◌%◌, ◌^◌, ◌≤◌, ◌<◌, min, max, bit_and, bit_or, digits,
  bit_and-bitwise, bit_or-bitwise,
}
use mathlib.Core.Path.{◌≡◌, refl, ap}
use native.Mathlib.Nat.{pow-suc, one-le-pow}
use native.Mathlib.Omega.{arith}

-- The digit recursion behind the native operations does not depend on its fuel, once there is enough.
enough :
    (z : ℕ → ℕ) (f : ℕ → ℕ → ℕ) (n m a b : ℕ) → a ≤ n → a ≤ m → digits z f n a b ≡ digits z f m a b
enough z f zero zero a b hn hm = refl
enough z f zero (suc m) zero b hn hm = refl
enough z f zero (suc m) (suc a) b hn hm = absurd (omega arith)
enough z f (suc n) zero zero b hn hm = refl
enough z f (suc n) zero (suc a) b hn hm = absurd (omega arith)
enough z f (suc n) (suc m) zero b hn hm = refl
enough z f (suc n) (suc m) (suc a) b hn hm =
    omega (arith, enough z f n m (suc a / 2) (b / 2) (omega arith) (omega arith))

-- One binary digit.
and_digit : (a b : ℕ) → bit_and a b ≡ 2 * bit_and (a / 2) (b / 2) + min (a % 2) (b % 2)
and_digit zero b = omega (arith, bit_and-bitwise 0 b, bit_and-bitwise 0 (b / 2))
and_digit (suc a) b = omega (
  arith,
  bit_and-bitwise (suc a) b,
  bit_and-bitwise (suc a / 2) (b / 2),
  enough (λ y. 0) min a (suc a / 2) (suc a / 2) (b / 2) (omega arith) (omega arith),
)

or_digit : (a b : ℕ) → bit_or a b ≡ 2 * bit_or (a / 2) (b / 2) + max (a % 2) (b % 2)
or_digit zero b = omega (arith, bit_or-bitwise 0 b, bit_or-bitwise 0 (b / 2))
or_digit (suc a) b = omega (
  arith,
  bit_or-bitwise (suc a) b,
  bit_or-bitwise (suc a / 2) (b / 2),
  enough (λ y. y) max a (suc a / 2) (suc a / 2) (b / 2) (omega arith) (omega arith),
)

-- With `bound` on the first operand, so that the recursion goes down.
and_zero : (bound a : ℕ) → a ≤ bound → bit_and a 0 ≡ 0
and_zero bound zero h = refl
and_zero zero (suc a) h = absurd (omega arith)
and_zero (suc bound) (suc a) h =
    omega (arith, and_digit (suc a) 0, and_zero bound (suc a / 2) (omega arith))

or_zero : (bound a : ℕ) → a ≤ bound → bit_or a 0 ≡ a
or_zero bound zero h = refl
or_zero zero (suc a) h = absurd (omega arith)
or_zero (suc bound) (suc a) h =
    omega (arith, or_digit (suc a) 0, or_zero bound (suc a / 2) (omega arith))

double_pow : (k q : ℕ) → q * 2 ^ suc k ≡ 2 * (q * 2 ^ k)
double_pow k q = omega (arith, ap (λ (t : ℕ). q * t) (pow-suc 2 k))

and_low_digits : (k q r : ℕ) → r < 2 ^ k → bit_and (q * 2 ^ k + r) (2 ^ k - 1) ≡ r
and_low_digits zero q r h = ground (arith, and_zero (q + r) (q + r))
and_low_digits (suc k) q r h = ground (
  arith,
  pow-suc 2 k,
  double_pow k q,
  and_digit (q * 2 ^ suc k + r) (2 ^ suc k - 1),
  and_low_digits k q (r / 2) (omega arith),
)

-- `a & (2^k - 1)` is `a % 2^k`.
pub bit_and_low : (k a : ℕ) → bit_and a (2 ^ k - 1) ≡ a % 2 ^ k
bit_and_low k a = ground (arith, one-le-pow k 2, and_low_digits k (a / 2 ^ k) (a % 2 ^ k))

-- `q << k | r` is the sum, for `r` below `2^k`.
pub bit_or_add : (k q r : ℕ) → r < 2 ^ k → bit_or (q * 2 ^ k) r ≡ q * 2 ^ k + r
bit_or_add zero q r h = ground (arith, or_zero q q)
bit_or_add (suc k) q r h = ground (
  arith,
  pow-suc 2 k,
  double_pow k q,
  or_digit (q * 2 ^ suc k) r,
  bit_or_add k q (r / 2) (omega arith),
)
