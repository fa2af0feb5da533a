-- ===== src/Base/Bits/Step.antt =====
-- The native `bit_or` and `bit_and` mean a recursion on binary digits with fuel. Here the fuel is
-- dropped: one equation for the lowest digit of each.
use Prim.Native.Nat.{ℕ, zero, suc, ◌+◌, ◌*◌, ◌/◌, ◌%◌, ◌≤◌, min, max, bit_and, bit_or}
use Prim.Native.Nat.{digits, bitwise, bit_and-bitwise, bit_or-bitwise}
use mathlib.Core.Path.{◌≡◌, refl}
use native.Mathlib.Omega.{arith}

module _ (tail : ℕ → ℕ) (op : ℕ → ℕ → ℕ) where
  enough_digits : (x y k l : ℕ) → x ≤ l → x ≤ k → digits tail op k x y ≡ digits tail op l x y
  enough_digits zero y zero zero small_l small_k = refl
  enough_digits zero y zero (suc l) small_l small_k = refl
  enough_digits zero y (suc k) zero small_l small_k = refl
  enough_digits zero y (suc k) (suc l) small_l small_k = refl
  enough_digits (suc x) y zero l small_l small_k = absurd (omega arith)
  enough_digits (suc x) y (suc k) zero small_l small_k = absurd (omega arith)
  enough_digits (suc x) y (suc k) (suc l) small_l small_k =
      rw (enough_digits (suc x / 2) (y / 2) k l (omega arith) (omega arith))

  lowest_digit :
      (x y : ℕ)
      → op (suc x % 2) (y % 2) + bitwise tail op (suc x / 2) (y / 2) * 2 ≡ bitwise tail op (suc x) y
  lowest_digit x y =
      omega (arith, enough_digits (suc x / 2) (y / 2) x (suc x / 2) (omega arith) (omega arith))

pub bit_and_halves : (x y : ℕ) → min (x % 2) (y % 2) + bit_and (x / 2) (y / 2) * 2 ≡ bit_and x y
bit_and_halves zero y = simp bit_and-bitwise (omega arith)
bit_and_halves (suc x) y = simp bit_and-bitwise (lowest_digit (λ y. 0) min x y)

pub bit_or_halves : (x y : ℕ) → max (x % 2) (y % 2) + bit_or (x / 2) (y / 2) * 2 ≡ bit_or x y
bit_or_halves zero y = simp bit_or-bitwise (omega arith)
bit_or_halves (suc x) y = simp bit_or-bitwise (lowest_digit (λ y. y) max x y)
