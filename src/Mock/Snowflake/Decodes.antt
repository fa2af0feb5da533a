-- ===== src/Mock/Snowflake/Decodes.antt =====
-- The time that an id carries.
use vaidcord.Base.{
  ℕ, zero, suc, ◌+◌, ◌-◌, ◌*◌, ◌/◌, ◌^◌, ◌≤◌, ◌<◌, ◌≡◌, refl, sym, ap, ◌∙◌, bit_and, bit_or, arith,
  leb, Bool-cases, inl, inr,
}
use vaidcord.Base.Bits.{test_bit-bit_or, test_bit-zero, bits_ext, bit_or_half, bit_and_mask}
use native.Mathlib.Nat.{pow-suc}
use vaidcord.Mock.Snowflake.{
  SnowflakeGenerator, discord_epoch_ms, shift_left, shift_right, compose, generate, snowflake_time,
}

shift_right-bit_or :
    (k a b : ℕ) → shift_right k (bit_or a b) ≡ bit_or (shift_right k a) (shift_right k b)
unfolding shift_right
shift_right-bit_or zero a b = refl
shift_right-bit_or (suc k) a b =
    ap (λ n. n / 2) (shift_right-bit_or k a b) ∙ bit_or_half (shift_right k a) (shift_right k b)

shift_right-half : (k n : ℕ) → shift_right k (n / 2) ≡ shift_right k n / 2
unfolding shift_right
shift_right-half zero n = refl
shift_right-half (suc k) n = ap (λ m. m / 2) (shift_right-half k n)

-- What is shifted to the left comes back.
shift_right-shift_left : (k n : ℕ) → shift_right k (shift_left k n) ≡ n
unfolding shift_right shift_left
shift_right-shift_left zero n = refl
shift_right-shift_left (suc k) n =
    sym (shift_right-half k (shift_left k n * 2))
    ∙ ap (shift_right k) (omega arith)
    ∙ shift_right-shift_left k n

shift_right_small : (k n : ℕ) → n < 2 ^ k → shift_right k n ≡ 0
unfolding shift_right
shift_right_small zero n h = omega arith
shift_right_small (suc k) n h =
    sym (shift_right-half k n) ∙ shift_right_small k (n / 2) (omega (arith, pow-suc 2 k))

shift_right_mono : (k a b : ℕ) → a ≤ b → shift_right k a ≤ shift_right k b
unfolding shift_right
shift_right_mono zero a b h = h
shift_right_mono (suc k) a b h = omega (arith, shift_right_mono k a b h)

bit_or_none : (n : ℕ) → bit_or n 0 ≡ n
bit_or_none n =
    bits_ext (bit_or n 0) n (λ i. ground (arith, test_bit-bit_or i n 0, test_bit-zero i))

ap2 : (f : ℕ → ℕ → ℕ) {a b c d : ℕ} → a ≡ b → c ≡ d → f a c ≡ f b d
ap2 f e h = cc

-- The low parts of an id lie below the timestamp.
compose_time :
    (t worker_id process_id increment : ℕ)
    → worker_id < 32
    → process_id < 32
    → increment < 4096
    → shift_right 22 (compose t worker_id process_id increment) ≡ t
unfolding compose shift_right
compose_time t w p i hw hp hi =
    let high = shift_left 22 t in
    let worker : shift_right 22 (shift_left 17 w) ≡ 0 =
      ap (shift_right 5) (shift_right-shift_left 17 w) ∙ shift_right_small 5 w (omega arith) in
    let process : shift_right 22 (shift_left 12 p) ≡ 0 =
      ap (shift_right 10) (shift_right-shift_left 12 p) ∙ shift_right_small 10 p (omega arith) in
    let low = shift_right_small 22 i (omega arith) in
    let or3 = shift_right-bit_or 22 (bit_or (bit_or high (shift_left 17 w)) (shift_left 12 p)) i in
    let or2 = shift_right-bit_or 22 (bit_or high (shift_left 17 w)) (shift_left 12 p) in
    let or1 = shift_right-bit_or 22 high (shift_left 17 w) in
    or3
    ∙ ap2 bit_or
        (or2
          ∙ ap2 bit_or (or1 ∙ ap2 bit_or (shift_right-shift_left 22 t) worker ∙ bit_or_none t)
              process
          ∙ bit_or_none t)
        low
    ∙ bit_or_none t

-- Where the clock has moved on since the last id was minted, the next id carries the time of the
-- clock to the millisecond, for every generator whose worker and process fit in five bits.
pub snowflake_time-generate :
    (now : ℕ) (g : SnowflakeGenerator)
    → discord_epoch_ms ≤ now
    → g.worker_id < 32
    → g.process_id < 32
    → snowflake_time g.last_id < now
    → snowflake_time (generate now g).0 ≡ now
unfolding snowflake_time generate
snowflake_time-generate now g epoch hw hp moved =
    let increment = bit_and (g.increment + 1) 0xfff in
    let raw = compose (now - discord_epoch_ms) g.worker_id g.process_id increment in
    let time =
      compose_time (now - discord_epoch_ms) g.worker_id g.process_id increment hw hp
        (omega (arith, bit_and_mask 12 (g.increment + 1))) in
    elim (Bool-cases (leb raw g.last_id)) [
      | inl stuck ↦ absurd (
          let less = shift_right_mono 22 raw g.last_id (ground (arith, stuck)) in
          omega (arith, less, time))
      | inr grows ↦ rw grows (omega (arith, time))
    ]
