-- ===== src/Voice/Dave/Ratchet/Reaches.antt =====
-- The loop of `derive_for` reaches a generation that is not past, with the key of that generation.
use native.Mathlib.Numerals.{add-one}
use vaidcord.Base.{
  ℕ, zero, suc, ◌+◌, ◌-◌, ◌^◌, ◌≤◌, ◌<◌, ◌≡◌, refl, true, Option, none, some, List, length, arith,
  leb, ltb, Bool-cases, inl, inr, ◌⊎◌,
}
use vaidcord.Base.Bytes.{Bytes}
use vaidcord.Base.Dict.{nat_key, lookup, insert, lookup-insert, length-insert}
use vaidcord.Base.Result.{Result, ok, err}
use vaidcord.Voice.Dave.Kdf.{HkdfExpand}
use vaidcord.Voice.Dave.Ratchet.{
  RatchetKey, DaveRatchet, derive_step, advance, step, stash, round, loop,
}
use vaidcord.Voice.Dave.Ratchet.Invariant.{
  chain_at, key_at, IsValid, Advances, evict_room, derive_step_total,
}

module _ (hkdf : HkdfExpand) where
  chain_at_next :
      (base : Bytes) (g : ℕ) {chain next : Bytes} {key : RatchetKey}
      → chain_at hkdf base g ≡ ok chain
      → derive_step hkdf chain g ≡ ok (key, next)
      → (chain_at hkdf base (g + 1) ≡ ok next) × (key_at hkdf base g ≡ ok key)
  unfolding chain_at key_at
  chain_at_next base g c d = (rw add-one (rw c (rw d)), rw c (rw d))

  add_sub_one : {g : ℕ} → g + 1 - 1 ≡ g
  add_sub_one {g} = omega arith

  -- The ratchet after `_step`, before anything is stashed.
  stepped-IsValid :
      (base : Bytes) (r : DaveRatchet) {next : Bytes} {key : RatchetKey}
      → IsValid hkdf base r
      → derive_step hkdf r.chain r.generation ≡ ok (key, next)
      → IsValid hkdf base (record r { chain = next; generation = r.generation + 1 })
  stepped-IsValid base r v d = record {
    chain = (chain_at_next base r.generation v.chain d).0;
    bounded = v.bounded;
    fresh = λ g k h. (omega (arith, (v.fresh g k h).0), (v.fresh g k h).1);
  }

  -- Stashing a true key of an earlier generation, where there is room.
  stashed-IsValid :
      (base : Bytes) (r : DaveRatchet) (g : ℕ) (key : RatchetKey) (kept : List (ℕ × RatchetKey))
      → IsValid hkdf base r
      → g < r.generation
      → key_at hkdf base g ≡ ok key
      → length kept + 1 ≤ r.max_skip
      → ((j : ℕ) → (lookup j kept ≡ none) ⊎ (lookup j kept ≡ lookup j r.skipped))
      → IsValid hkdf base (record r { skipped = insert g key kept })
  stashed-IsValid base r g key kept v past true_key room sub = record {
    chain = v.chain;
    bounded = omega (arith, length-insert g key kept);
    fresh = λ j k h. ground (arith, lookup-insert g j key kept, sub j, v.fresh j k);
  }

  Advances-stash :
      (base : Bytes) (target : ℕ) (r : DaveRatchet) (d : Result (RatchetKey × Bytes))
      → IsValid hkdf base r
      → derive_step hkdf r.chain r.generation ≡ d
      → r.generation ≤ target
      → target - r.generation ≤ r.max_skip
      → lookup target r.skipped ≡ none
      → Advances hkdf base target r (stash target (advance r d))
  Advances-stash base target r (err e) v d low near absent =
      (refl, ground (arith, derive_step_total hkdf r.chain r.generation))
  Advances-stash base target r (ok (key, next)) v d low near absent =
      let true_key = (chain_at_next base r.generation v.chain d).1 in
      elim (Bool-cases (ltb (r.generation + 1 - 1) target)) [
        | inr last ↦ rw last (stepped-IsValid base r v d, refl, refl, true_key, absent)
        | inl more ↦
            let (kept, e, room, sub) = evict_room r.max_skip r.skipped v.bounded (ground arith) in
            rw (more, e)
              (
                stashed-IsValid base (record r { chain = next; generation = r.generation + 1 })
                    (r.generation + 1 - 1) key kept (stepped-IsValid base r v d) (omega arith)
                    (rw add_sub_one true_key) room sub,
                refl,
                refl,
                true_key,
                ground (arith, lookup-insert (r.generation + 1 - 1) target key kept, sub target),
              )
      ]

  round-Advances :
      (base : Bytes) (target : ℕ) (r : DaveRatchet)
      → IsValid hkdf base r
      → r.generation ≤ target
      → target - r.generation ≤ r.max_skip
      → lookup target r.skipped ≡ none
      → Advances hkdf base target r (round hkdf target r)
  unfolding round step
  round-Advances base target r v low near absent =
      Advances-stash base target r (derive_step hkdf r.chain r.generation) v refl low near absent

  -- The loop up to a generation within reach returns its key, unless a number does not fit.
  abbrev pub Reaches : Bytes → ℕ → Result (Option RatchetKey) × DaveRatchet → Type 0
  Reaches base target (ok (some k), r) =
      IsValid hkdf base r
      × (r.generation ≡ target + 1)
      × (key_at hkdf base target ≡ ok k)
      × (lookup target r.skipped ≡ none)
  Reaches base target (ok none, r) = ⊥
  Reaches base target (err e, r) = IsValid hkdf base r × (256 ^ 4 ≤ target)

  -- With no round left, the last key is the one that was asked for.
  abbrev LastFits : Bytes → ℕ → ℕ → Option RatchetKey → Type 0
  LastFits base target zero none = ⊥
  LastFits base target zero (some k) = key_at hkdf base target ≡ ok k
  LastFits base target (suc rounds) last = Unit {0}

  last_fits :
      (base : Bytes) (target rounds g : ℕ) (k : RatchetKey)
      → g + suc rounds ≡ target + 1
      → key_at hkdf base g ≡ ok k
      → LastFits base target rounds (some k)
  last_fits base target zero g k count h = let e : g ≡ target = omega arith in rw (← e) h
  last_fits base target (suc rounds) g k count h = tt

  after_round :
      (base : Bytes) (rounds target : ℕ) (r : DaveRatchet) (p : Result RatchetKey × DaveRatchet)
      → Advances hkdf base target r p
      → IsValid hkdf base r
      → r.generation + suc rounds ≡ target + 1
      → target - r.generation ≤ r.max_skip
      → ((last : Option RatchetKey) (r' : DaveRatchet)
          → LastFits base target rounds last
          → r'.generation + rounds ≡ target + 1
          → IsValid hkdf base r'
          → target - r'.generation ≤ r'.max_skip
          → lookup target r'.skipped ≡ none
          → Reaches base target (loop hkdf rounds target last r'))
      → Reaches base target
          (elim p.0 [ ok key ↦ loop hkdf rounds target (some key) p.1 | err e ↦ (err e, p.1) ])
  after_round base rounds target r (ok key, r') (v, moved, same, true_key, absent) v₀ count near
        next =
      next (some key) r' (last_fits base target rounds r.generation key count true_key)
        (omega arith) v (omega arith) absent
  after_round base rounds target r (err e, r') (same, large) v₀ count near next =
      (rw same v₀, omega arith)

  loop_step :
      (rounds target : ℕ) (last : Option RatchetKey) (r : DaveRatchet)
      → leb r.generation target ≡ true
      → loop hkdf (suc rounds) target last r ≡ elim (round hkdf target r).0 [
        | ok key ↦ loop hkdf rounds target (some key) (round hkdf target r).1
        | err e ↦ (err e, (round hkdf target r).1)
      ]
  unfolding loop
  loop_step rounds target last r h = rw (h, loop)

  pub loop-Reaches :
      (base : Bytes) (rounds target : ℕ) (last : Option RatchetKey) (r : DaveRatchet)
      → LastFits base target rounds last
      → r.generation + rounds ≡ target + 1
      → IsValid hkdf base r
      → target - r.generation ≤ r.max_skip
      → lookup target r.skipped ≡ none
      → Reaches base target (loop hkdf rounds target last r)
  loop-Reaches base zero target none r fits count v near absent = absurd fits
  loop-Reaches base zero target (some k) r fits count v near absent =
      unfold loop in (v, omega arith, fits, absent)
  loop-Reaches base (suc rounds) target last r fits count v near absent =
      let low : leb r.generation target ≡ true = ground arith in
      rw (loop_step rounds target last r low) (
        after_round base rounds target r (round hkdf target r)
          (round-Advances base target r v (omega arith) near absent) v count near
          (λ last' r' f c v' n a. loop-Reaches base rounds target last' r' f c v' n a))
