-- ===== src/Permissions/BitLaws.antt =====
-- The operations of `class Permissions`, read at each bit.
use vaidcord.Base.{
  ℕ, ◌+◌, ◌^◌, ◌≤◌, ◌<◌, max, ◌≡◌, ◌↔◌, true, false, not, ◌&&◌, ◌||◌, arith, ltb, ◌==◌, ◌∙◌, ap,
  if◌then◌else◌, ==_iff, Bool-cases, inl, inr, bit_and,
}
use vaidcord.Base.Bits.{
  test_bit, test_bit-bit_or, test_bit-bit_and, test_bit_complement, test_bit_power, bits_ext,
  bit_length, lt_two_pow_bit_length, bit_length-le,
}
use vaidcord.Permissions.Flags.{Flag, position, flag, has, add, width, invert, remove}
use native.Mathlib.Nat.{pow-le-pow_right}

pub test_bit-add : (i p o : ℕ) → test_bit i (add p o) ≡ (test_bit i p || test_bit i o)
unfolding add
test_bit-add i p o = test_bit-bit_or i p o

two_pow_mono : (a b : ℕ) → a ≤ b → 2 ^ a ≤ 2 ^ b
two_pow_mono a b h = pow-le-pow_right {n = 2} (omega arith) h

pub lt_two_pow_width : (o : ℕ) → o < 2 ^ width o
unfolding width
lt_two_pow_width o = omega (
  arith,
  lt_two_pow_bit_length (o + 1),
  two_pow_mono (bit_length (o + 1)) (max 53 (bit_length (o + 1))) (omega arith),
)

pub test_bit-remove :
    (i p o : ℕ)
    → test_bit i (remove p o)
      ≡ (test_bit i p && (if ltb i (width o) then not (test_bit i o) else false))
unfolding remove
test_bit-remove i p o =
    test_bit-bit_and i p (invert o)
    ∙ unfold invert in
      ap (λ b. test_bit i p && b) (test_bit_complement (width o) i o (lt_two_pow_width o))

-- On the 53 bits that Discord names, `remove` is set difference.
pub test_bit-remove_named :
    (i p o : ℕ) → i < 53 → test_bit i (remove p o) ≡ (test_bit i p && not (test_bit i o))
unfolding width
test_bit-remove_named i p o small = ground (arith, test_bit-remove i p o)

-- `remove` of a set with no bit at 53 or above clears every bit of the first set at 53 or above, so
-- permissions newer than the enumeration are lost, whether or not they were asked to be removed.
pub remove_clears_unnamed : (p o i : ℕ) → o + 1 < 2 ^ 53 → 53 ≤ i → test_bit i (remove p o) ≡ false
unfolding width
remove_clears_unnamed p o i small above =
    ground (arith, test_bit-remove i p o, bit_length-le 53 (o + 1) small)

pub test_bit-flag : (f : Flag) (i : ℕ) → test_bit i (flag f) ≡ (i == position f)
test_bit-flag f i = test_bit_power (position f) i

-- `has` holds exactly if every bit of the second set is in the first.
pub has_iff : (p o : ℕ) → (has p o ≡ true) ↔ ((i : ℕ) → test_bit i o ≡ true → test_bit i p ≡ true)
unfolding has
has_iff p o = (
  λ h i b. ground (arith, test_bit-bit_and i p o, ap (test_bit i) ((==_iff (bit_and p o) o).0 h)),
  λ h.
      (==_iff (bit_and p o) o).1
        (bits_ext (bit_and p o) o λ i. ground (arith, test_bit-bit_and i p o, h i)),
)

pub has-flag : (p : ℕ) (f : Flag) → has p (flag f) ≡ test_bit (position f) p
has-flag p f = elim (Bool-cases (test_bit (position f) p)) [
  | inl on ↦ rw on ((has_iff p (flag f)).1 (λ i b. ground (arith, test_bit-flag f i)))
  | inr off ↦ elim (Bool-cases (has p (flag f))) [
    | inl h ↦
        absurd (
          cc ((has_iff p (flag f)).0 h (position f) (ground (arith, test_bit-flag f (position f)))))
    | inr no_flag ↦ rw (off, no_flag)
  ]
]
