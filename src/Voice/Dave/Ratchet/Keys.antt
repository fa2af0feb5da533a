-- ===== src/Voice/Dave/Ratchet/Keys.antt =====
-- `derive_for` gives the key of the chain for the generation it is asked for, or raises.
use vaidcord.Base.{
  ℕ, suc, ◌+◌, ◌-◌, ◌^◌, ◌≤◌, ◌<◌, ◌≡◌, refl, ◌∙◌, true, false, Option, none, some, arith, ltb,
  Option-cases, inl, inr,
}
use vaidcord.Base.Bytes.{Bytes}
use vaidcord.Base.Dict.{nat_key, lookup, erase, lookup-erase, length-erase}
use vaidcord.Base.Result.{Result, ok, err, value_error, key_error}
use vaidcord.Voice.Dave.Kdf.{HkdfExpand}
use vaidcord.Voice.Dave.Ratchet.{
  RatchetKey, DaveRatchet, loop, asserted, pop_skipped, derive_for, initial,
}
use vaidcord.Voice.Dave.Ratchet.Invariant.{chain_at, key_at, IsValid}
use vaidcord.Voice.Dave.Ratchet.Reaches.{Reaches, loop-Reaches}

pop_gone :
    (g : ℕ) (r : DaveRatchet) → lookup g r.skipped ≡ none → pop_skipped g r ≡ (err key_error, r)
pop_gone g r h = ground arith

pop_found :
    (g : ℕ) (r : DaveRatchet) {k : RatchetKey}
    → lookup g r.skipped ≡ some k
    → pop_skipped g r ≡ (ok k, record r { skipped = erase g r.skipped })
pop_found g r h = ground arith

module _ (hkdf : HkdfExpand) where
  -- What `derive_for` has done for a generation within reach.
  abbrev pub Derives : Bytes → ℕ → Result RatchetKey × DaveRatchet → Type 0
  Derives base target (ok k, r) =
      IsValid hkdf base r
      × (r.generation ≡ target + 1)
      × (key_at hkdf base target ≡ ok k)
      × (derive_for hkdf target r ≡ (err key_error, r))
  Derives base target (err e, r) = IsValid hkdf base r × (256 ^ 4 ≤ target)

  -- What `derive_for` has done for a past generation.
  abbrev pub Recalls : Bytes → ℕ → DaveRatchet → Result RatchetKey × DaveRatchet → Type 0
  Recalls base target r (ok k, r') =
      IsValid hkdf base r'
      × (r'.generation ≡ r.generation)
      × (r'.chain ≡ r.chain)
      × (key_at hkdf base target ≡ ok k)
      × (derive_for hkdf target r' ≡ (err key_error, r'))
  Recalls base target r (err e, r') = (e ≡ key_error) × (r' ≡ r) × (lookup target r.skipped ≡ none)

  derive_for_gone :
      (g : ℕ) (r : DaveRatchet)
      → g < r.generation
      → lookup g r.skipped ≡ none
      → derive_for hkdf g r ≡ (err key_error, r)
  unfolding derive_for
  derive_for_gone g r past absent = ground arith

  asserted-Derives :
      (base : Bytes) (target : ℕ) (p : Result (Option RatchetKey) × DaveRatchet)
      → Reaches hkdf base target p
      → Derives base target (asserted p)
  asserted-Derives base target (ok (some k), r) (v, moved, true_key, absent) =
      (v, moved, true_key, derive_for_gone target r (omega arith) absent)
  asserted-Derives base target (ok none, r) h = absurd h
  asserted-Derives base target (err e, r) h = h

  absent_ahead :
      (base : Bytes) (target : ℕ) (r : DaveRatchet)
      → IsValid hkdf base r
      → r.generation ≤ target
      → lookup target r.skipped ≡ none
  absent_ahead base target r v low = elim (Option-cases (lookup target r.skipped)) [
    | inl e ↦ e
    | inr (k, e) ↦ absurd (omega (arith, (v.fresh target k e).0))
  ]

  -- From a ratchet of a base secret, asked for a generation that is not past, nor further ahead than
  -- `max_skip`: `derive_for` returns the key of that generation, derived from the base secret alone,
  -- the ratchet stays valid and its next generation is the one after, and asked for the same
  -- generation again it raises `KeyError`; or it raises and leaves a valid ratchet, which happens only
  -- for a generation that does not fit four bytes.
  pub derive_for_future :
      (base : Bytes) (target : ℕ) (r : DaveRatchet)
      → IsValid hkdf base r
      → r.generation ≤ target
      → target - r.generation ≤ r.max_skip
      → Derives base target (derive_for hkdf target r)
  unfolding derive_for
  derive_for_future base target r v low near =
      let past : ltb target r.generation ≡ false = ground arith in
      let far : ltb r.max_skip (target - r.generation) ≡ false = ground arith in
      let rounds : target + 1 - r.generation ≡ suc (target - r.generation) = omega arith in
      rw (past, far, rounds)
        (asserted-Derives base target (loop hkdf (suc (target - r.generation)) target none r) (
          loop-Reaches hkdf base (suc (target - r.generation)) target none r tt (omega arith) v near
            (absent_ahead base target r v low)))

  erased-IsValid :
      (base : Bytes) (target : ℕ) (r : DaveRatchet)
      → IsValid hkdf base r
      → IsValid hkdf base (record r { skipped = erase target r.skipped })
  erased-IsValid base target r v = record {
    chain = v.chain;
    bounded = omega (arith, v.bounded, length-erase target r.skipped);
    fresh = λ j k h. ground (arith, lookup-erase target j r.skipped, v.fresh j k);
  }

  -- Asked for a past generation, a valid ratchet gives the key of that generation if it is in the skip
  -- cache, keeps its chain and stays valid, and then raises `KeyError` for it; if the key is not in the
  -- cache it raises `KeyError` and is unchanged.
  pub derive_for_past :
      (base : Bytes) (target : ℕ) (r : DaveRatchet)
      → IsValid hkdf base r
      → target < r.generation
      → Recalls base target r (derive_for hkdf target r)
  unfolding derive_for
  derive_for_past base target r v past =
      let e : ltb target r.generation ≡ true = ground arith in
      elim (Option-cases (lookup target r.skipped)) [
        | inl gone ↦ rw (e, pop_gone target r gone) (refl, refl, gone)
        | inr (k, found) ↦
            rw (e, pop_found target r found)
              (
                erased-IsValid base target r v,
                refl,
                refl,
                (v.fresh target k found).1,
                derive_for_gone target (record r { skipped = erase target r.skipped }) past
                    (lookup-erase target target r.skipped ∙ ground arith),
              )
      ]

  -- Asked for a generation more than `max_skip` ahead, `derive_for` raises `ValueError` and leaves the
  -- ratchet as it was.
  pub derive_for_far :
      (target : ℕ) (r : DaveRatchet)
      → r.generation + r.max_skip < target
      → derive_for hkdf target r ≡ (err value_error, r)
  unfolding derive_for
  derive_for_far target r h = ground arith

  -- The ratchet made from a secret is valid for it.
  pub initial-IsValid : (base : Bytes) (max_skip : ℕ) → IsValid hkdf base (initial base max_skip)
  unfolding chain_at
  initial-IsValid base max_skip = record {
    chain = refl;
    bounded = omega arith;
    fresh = λ g k h. absurd (cc h);
  }
