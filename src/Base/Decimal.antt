-- ===== src/Base/Decimal.antt =====
-- `str(n)` of a natural number, and `int(s)` of a text of plain ASCII digits, as character codes.
use vaidcord.Base.{
  ℕ, zero, suc, ◌+◌, ◌-◌, ◌*◌, ◌/◌, ◌%◌, ◌≤◌, ◌≡◌, refl, true, false, ◌∙◌, ap, ◌<◌, ◌&&◌, List, [],
  ◌∷◌, arith, ltb, leb, if◌then◌else◌, Bool-cases, inl, inr,
}
use vaidcord.Base.Result.{Result, ok, err, value_error}

digits_from : ℕ → ℕ → List ℕ → List ℕ
digits_from zero n rest = (48 + n % 10) ∷ rest
digits_from (suc fuel) n rest = elim (ltb n 10) [
  | true ↦ (48 + n) ∷ rest
  | false ↦ digits_from fuel (n / 10) ((48 + n % 10) ∷ rest)
]

-- The number itself is fuel enough, since it is divided by ten in each round.
unfoldable pub decimal : ℕ → List ℕ
unfolding digits_from
decimal n = digits_from n n []

read_from : ℕ → List ℕ → Result ℕ
read_from acc [] = ok acc
read_from acc (c ∷ cs) =
    let rest = read_from (acc * 10 + (c - 48)) cs in
    if leb 48 c && leb c 57 then rest else err value_error

unfoldable pub read_decimal : List ℕ → Result ℕ
unfolding read_from
read_decimal [] = err value_error
read_decimal (c ∷ cs) = read_from 0 (c ∷ cs)

digits_small :
    (fuel n : ℕ) (rest : List ℕ) → ltb n 10 ≡ true → digits_from (suc fuel) n rest ≡ (48 + n) ∷ rest
unfolding digits_from
digits_small fuel n rest h = rw (h, digits_from)

digits_large :
    (fuel n : ℕ) (rest : List ℕ)
    → ltb n 10 ≡ false
    → digits_from (suc fuel) n rest ≡ digits_from fuel (n / 10) ((48 + n % 10) ∷ rest)
unfolding digits_from
digits_large fuel n rest h = rw (h, digits_from)

read_digit :
    (acc d : ℕ) (cs : List ℕ) → d < 10 → read_from acc ((48 + d) ∷ cs) ≡ read_from (acc * 10 + d) cs
unfolding read_from
read_digit acc d cs h =
    let e : 48 + d - 48 ≡ d = omega arith in
    let test : (leb 48 (48 + d) && leb (48 + d) 57) ≡ true = ground arith in rw (test, e)

read_digits_from :
    (fuel n : ℕ) (rest : List ℕ)
    → n ≤ fuel
    → read_from 0 (digits_from fuel n rest) ≡ read_from n rest
unfolding digits_from
read_digits_from zero n rest h =
    let e : n ≡ 0 = omega arith in rw (e, digits_from) (read_digit 0 0 rest (omega arith))
read_digits_from (suc fuel) n rest h = elim (Bool-cases (ltb n 10)) [
  | inl small ↦
      ap (read_from 0) (digits_small fuel n rest small)
      ∙ read_digit 0 n rest (ground arith)
      ∙ ap (λ k. read_from k rest) (omega arith)
  | inr large ↦
      let e : n / 10 * 10 + n % 10 ≡ n = omega arith in
      ap (read_from 0) (digits_large fuel n rest large)
      ∙ read_digits_from fuel (n / 10) ((48 + n % 10) ∷ rest) (ground arith)
      ∙ read_digit (n / 10) (n % 10) rest (omega arith)
      ∙ ap (λ k. read_from k rest) e
]

digits_nonempty :
    (fuel n : ℕ) (rest : List ℕ)
    → read_decimal (digits_from fuel n rest) ≡ read_from 0 (digits_from fuel n rest)
unfolding read_decimal digits_from
digits_nonempty zero n rest = refl
digits_nonempty (suc fuel) n rest = elim (Bool-cases (ltb n 10)) [
  | inl small ↦ rw (small, digits_from)
  | inr large ↦ rw (large, digits_from) (digits_nonempty fuel (n / 10) ((48 + n % 10) ∷ rest))
]

-- A number printed in decimal is read back as itself.
pub read_decimal-decimal : (n : ℕ) → read_decimal (decimal n) ≡ ok n
unfolding decimal
read_decimal-decimal n =
    digits_nonempty n n [] ∙ read_digits_from n n [] (omega arith) ∙ (unfold read_from in refl)
