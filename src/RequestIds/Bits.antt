-- ===== src/RequestIds/Bits.antt =====
-- `|` of a high and a low part, and `&` with a mask of ones, as sums and remainders.
use Prim.Native.Nat.{bit_and, bit_or, min, max, digits, bit_and-bitwise, bit_or-bitwise}
use native.Mathlib.Nat.{pow-suc, one-le-pow}
use rmw_microxrcedds.Base.{
  ℕ, zero, suc, ◌+◌, ◌-◌, ◌*◌, ◌/◌, ◌%◌, ◌^◌, ◌≤◌, ◌<◌, ◌≡◌, refl, ap, arith,
}

-- The digit recursion behind `bit_or`, on fuel.
abbrev or_rounds : ℕ → ℕ → ℕ → ℕ
or_rounds fuel a b = digits (λ c. c) max fuel a b

or_rounds-enough :
    (fuel more a b : ℕ) → a ≤ fuel → a ≤ more → or_rounds fuel a b ≡ or_rounds more a b
or_rounds-enough zero zero a b p q = refl
or_rounds-enough zero (suc more) zero b p q = refl
or_rounds-enough zero (suc more) (suc a) b p q = absurd (omega arith)
or_rounds-enough (suc fuel) zero zero b p q = refl
or_rounds-enough (suc fuel) zero (suc a) b p q = absurd (omega arith)
or_rounds-enough (suc fuel) (suc more) zero b p q = refl
or_rounds-enough (suc fuel) (suc more) (suc a) b p q =
    omega (arith, or_rounds-enough fuel more (suc a / 2) (b / 2) (omega arith) (omega arith))

zero-bit_or : (b : ℕ) → bit_or 0 b ≡ b
zero-bit_or b = bit_or-bitwise 0 b

bit_or_halves : (a b : ℕ) → bit_or a b ≡ bit_or (a / 2) (b / 2) * 2 + max (a % 2) (b % 2)
bit_or_halves zero b = omega (arith, zero-bit_or b, zero-bit_or (b / 2))
bit_or_halves (suc a) b = omega (
  arith,
  bit_or-bitwise (suc a) b,
  bit_or-bitwise (suc a / 2) (b / 2),
  or_rounds-enough a (suc a / 2) (suc a / 2) (b / 2) (omega arith) (omega arith),
)

bit_or-zero : (fuel a : ℕ) → a ≤ fuel → bit_or a 0 ≡ a
bit_or-zero fuel zero h = refl
bit_or-zero zero (suc a) h = absurd (omega arith)
bit_or-zero (suc fuel) (suc a) h =
    omega (arith, bit_or_halves (suc a) 0, bit_or-zero fuel (suc a / 2) (omega arith))

double_power : (q k : ℕ) → q * 2 ^ suc k ≡ 2 * (q * 2 ^ k)
double_power q k = omega (arith, ap (λ (t : ℕ). q * t) (pow-suc 2 k))

-- The low bits of the left part are zero, so `|` adds.
pub bit_or-add : (k q r : ℕ) → r < 2 ^ k → bit_or (q * 2 ^ k) r ≡ q * 2 ^ k + r
bit_or-add zero q r h = ground (arith, bit_or-zero q q)
bit_or-add (suc k) q r h = ground (
  arith,
  bit_or_halves (q * 2 ^ suc k) r,
  double_power q k,
  bit_or-add k q (r / 2) (omega (arith, pow-suc 2 k)),
)

abbrev and_rounds : ℕ → ℕ → ℕ → ℕ
and_rounds fuel a b = digits (λ c. zero) min fuel a b

and_rounds-enough :
    (fuel more a b : ℕ) → a ≤ fuel → a ≤ more → and_rounds fuel a b ≡ and_rounds more a b
and_rounds-enough zero zero a b p q = refl
and_rounds-enough zero (suc more) zero b p q = refl
and_rounds-enough zero (suc more) (suc a) b p q = absurd (omega arith)
and_rounds-enough (suc fuel) zero zero b p q = refl
and_rounds-enough (suc fuel) zero (suc a) b p q = absurd (omega arith)
and_rounds-enough (suc fuel) (suc more) zero b p q = refl
and_rounds-enough (suc fuel) (suc more) (suc a) b p q =
    omega (arith, and_rounds-enough fuel more (suc a / 2) (b / 2) (omega arith) (omega arith))

zero-bit_and : (b : ℕ) → bit_and 0 b ≡ 0
zero-bit_and b = bit_and-bitwise 0 b

bit_and_halves : (a b : ℕ) → bit_and a b ≡ bit_and (a / 2) (b / 2) * 2 + min (a % 2) (b % 2)
bit_and_halves zero b = omega (arith, zero-bit_and b, zero-bit_and (b / 2))
bit_and_halves (suc a) b = omega (
  arith,
  bit_and-bitwise (suc a) b,
  bit_and-bitwise (suc a / 2) (b / 2),
  and_rounds-enough a (suc a / 2) (suc a / 2) (b / 2) (omega arith) (omega arith),
)

bit_and-zero : (fuel a : ℕ) → a ≤ fuel → bit_and a 0 ≡ 0
bit_and-zero fuel zero h = refl
bit_and-zero zero (suc a) h = absurd (omega arith)
bit_and-zero (suc fuel) (suc a) h =
    omega (arith, bit_and_halves (suc a) 0, bit_and-zero fuel (suc a / 2) (omega arith))

-- A mask of `k` ones keeps a number of `k` bits.
pub bit_and-ones : (k a : ℕ) → a < 2 ^ k → bit_and a (2 ^ k - 1) ≡ a
bit_and-ones zero a h = ground (arith, bit_and-zero a a)
bit_and-ones (suc k) a h = ground (
  arith,
  bit_and_halves a (2 ^ suc k - 1),
  pow-suc 2 k,
  one-le-pow k 2,
  bit_and-ones k (a / 2) (omega (arith, pow-suc 2 k)),
)
