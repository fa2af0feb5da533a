-- ===== src/Base/Bits.antt =====
-- The bits of a number: `&`, `|` and the complement at every position, and equality bit by bit.
mod Step
use Step.{bit_or_halves, bit_and_halves}
use Prim.Native.Nat.{ℕ, zero, suc, ◌+◌, ◌-◌, ◌*◌, ◌/◌, ◌%◌, ◌^◌, ◌≤◌, ◌<◌, bit_and, bit_or}
use mathlib.Core.Path.{◌≡◌, refl, ap, ◌∙◌}
use mathlib.Core.Bool.{Bool, true, false, not, ◌&&◌, ◌||◌}
use native.Mathlib.Nat.{pow-suc, one-le-pow}
use native.Mathlib.Omega.{arith}
use vaidcord.Base.Tests.{ltb, ◌==◌, if◌then◌else◌}

-- `(n >> i) & 1`
unfoldable pub test_bit : ℕ → ℕ → Bool
test_bit zero n = n % 2 == 1
test_bit (suc i) n = test_bit i (n / 2)

pub bit_or_half : (a b : ℕ) → bit_or a b / 2 ≡ bit_or (a / 2) (b / 2)
bit_or_half a b = omega (arith, bit_or_halves a b)

pub test_bit-bit_or : (i a b : ℕ) → test_bit i (bit_or a b) ≡ (test_bit i a || test_bit i b)
unfolding test_bit
test_bit-bit_or zero a b = ground (arith, bit_or_halves a b)
test_bit-bit_or (suc i) a b = ap (test_bit i) (bit_or_half a b) ∙ test_bit-bit_or i (a / 2) (b / 2)

pub test_bit-bit_and : (i a b : ℕ) → test_bit i (bit_and a b) ≡ (test_bit i a && test_bit i b)
unfolding test_bit
test_bit-bit_and zero a b = ground (arith, bit_and_halves a b)
test_bit-bit_and (suc i) a b =
    let e : bit_and a b / 2 ≡ bit_and (a / 2) (b / 2) = omega (arith, bit_and_halves a b) in
    ap (test_bit i) e ∙ test_bit-bit_and i (a / 2) (b / 2)

pub test_bit-zero : (i : ℕ) → test_bit i 0 ≡ false
unfolding test_bit
test_bit-zero zero = refl
test_bit-zero (suc i) = test_bit-zero i

-- A number below `2 ^ w` has no bit at `w` or above.
pub test_bit_above : (w i n : ℕ) → n < 2 ^ w → w ≤ i → test_bit i n ≡ false
unfolding test_bit
test_bit_above zero i n small h = let e : n ≡ 0 = omega arith in ap (test_bit i) e ∙ test_bit-zero i
test_bit_above (suc w) zero n small h = absurd (omega arith)
test_bit_above (suc w) (suc i) n small h =
    test_bit_above w i (n / 2) (omega (arith, pow-suc 2 w)) (omega arith)

-- The complement in `w` bits.
pub test_bit_complement :
    (w i n : ℕ)
    → n < 2 ^ w
    → test_bit i (2 ^ w - 1 - n) ≡ (if ltb i w then not (test_bit i n) else false)
unfolding test_bit
test_bit_complement zero i n small =
    let e : 2 ^ 0 - 1 - n ≡ 0 = omega arith in ap (test_bit i) e ∙ (test_bit-zero i ∙ ground arith)
test_bit_complement (suc w) zero n small = ground (arith, pow-suc 2 w, one-le-pow w 2)
test_bit_complement (suc w) (suc i) n small =
    let e : (2 ^ suc w - 1 - n) / 2 ≡ 2 ^ w - 1 - n / 2 = omega (arith, pow-suc 2 w) in
    ap (test_bit i) e
    ∙ (test_bit_complement w i (n / 2) (omega (arith, pow-suc 2 w)) ∙ ground arith)

bits_ext_fuel : (n a b : ℕ) → a ≤ n → b ≤ n → ((i : ℕ) → test_bit i a ≡ test_bit i b) → a ≡ b
unfolding test_bit
bits_ext_fuel zero a b p q h = omega arith
bits_ext_fuel (suc n) a b p q h =
    ground
      (arith, h 0, bits_ext_fuel n (a / 2) (b / 2) (omega arith) (omega arith) (λ i. h (suc i)))

-- Numbers with the same bits are equal.
pub bits_ext : (a b : ℕ) → ((i : ℕ) → test_bit i a ≡ test_bit i b) → a ≡ b
bits_ext a b h = bits_ext_fuel (a + b) a b (omega arith) (omega arith) h

-- `1 << k` has the bit at `k` and no other.
pub test_bit_power : (k i : ℕ) → test_bit i (2 ^ k) ≡ (i == k)
unfolding test_bit
test_bit_power zero zero = refl
test_bit_power zero (suc i) = test_bit-zero i ∙ ground arith
test_bit_power (suc k) zero = ground (arith, pow-suc 2 k)
test_bit_power (suc k) (suc i) =
    let e : 2 ^ suc k / 2 ≡ 2 ^ k = omega (arith, pow-suc 2 k) in
    ap (test_bit i) e ∙ (test_bit_power k i ∙ ground arith)

bit_length_fuel : ℕ → ℕ → ℕ
bit_length_fuel zero n = 0
bit_length_fuel (suc fuel) n = elim (n == 0) [
  | true ↦ 0
  | false ↦ suc (bit_length_fuel fuel (n / 2))
]

-- Python's `int.bit_length` of a natural number; the number itself is fuel enough.
unfoldable pub bit_length : ℕ → ℕ
unfolding bit_length_fuel
bit_length n = bit_length_fuel n n

bit_length_fuel_bound : (fuel n : ℕ) → n ≤ fuel → n < 2 ^ bit_length_fuel fuel n
unfolding bit_length_fuel
bit_length_fuel_bound zero n h = omega arith
bit_length_fuel_bound (suc fuel) n h =
    ground (arith, bit_length_fuel_bound fuel (n / 2), pow-suc 2 (bit_length_fuel fuel (n / 2)))

pub lt_two_pow_bit_length : (n : ℕ) → n < 2 ^ bit_length n
unfolding bit_length
lt_two_pow_bit_length n = bit_length_fuel_bound n n (omega arith)

bit_length_fuel_le : (fuel k n : ℕ) → n < 2 ^ k → bit_length_fuel fuel n ≤ k
unfolding bit_length_fuel
bit_length_fuel_le zero k n h = omega arith
bit_length_fuel_le (suc fuel) zero n h = ground arith
bit_length_fuel_le (suc fuel) (suc k) n h =
    ground (arith, bit_length_fuel_le fuel k (n / 2), pow-suc 2 k)

pub bit_length-le : (k n : ℕ) → n < 2 ^ k → bit_length n ≤ k
unfolding bit_length
bit_length-le k n h = bit_length_fuel_le n k n h

mod_double : (a m : ℕ) → 0 < m → a % (2 * m) ≡ a / 2 % m * 2 + a % 2
mod_double a m h = grind arith

bit_and-zero : (a : ℕ) → bit_and a 0 ≡ 0
bit_and-zero a =
    bits_ext (bit_and a 0) 0 λ i. ground (arith, test_bit-bit_and i a 0, test_bit-zero i)

-- A mask of `w` low bits is the remainder by `2 ^ w`.
pub bit_and_mask : (w a : ℕ) → bit_and a (2 ^ w - 1) ≡ a % 2 ^ w
bit_and_mask zero a = rw bit_and-zero (omega arith)
bit_and_mask (suc w) a = ground (
  arith,
  bit_and_halves a (2 ^ suc w - 1),
  bit_and_mask w (a / 2),
  pow-suc 2 w,
  one-le-pow w 2,
  mod_double a (2 ^ w),
)
