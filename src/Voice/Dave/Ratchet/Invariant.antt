-- ===== src/Voice/Dave/Ratchet/Invariant.antt =====
-- What every ratchet holds: the chain of its base secret, and a bounded cache of true keys.
use vaidcord.Base.{
  ℕ, zero, suc, ◌+◌, ◌^◌, ◌≤◌, ◌<◌, ◌≡◌, refl, ◌∙◌, true, none, some, List, [], ◌∷◌, length, arith,
  leb, ◌==◌, is_some, Bool-cases, inl, inr, ◌⊎◌,
}
use vaidcord.Base.Bytes.{Bytes, to_bytes, length-low_bytes}
use vaidcord.Base.Dict.{lookup, erase, nat_key, lookup-erase, length-erase_found}
use vaidcord.Base.Result.{Result, ok, err, ◌>>=◌, is_ok}
use vaidcord.Voice.Dave.Kdf.{HkdfExpand, hkdf_expand, hkdf_expand_label}
use vaidcord.Voice.Dave.Ratchet.{RatchetKey, DaveRatchet, oldest_from, evict, derive_step}

-- The smallest key of the dict is one of its keys.
oldest_found :
    (m : ℕ) (k : RatchetKey) (rest : List (ℕ × RatchetKey))
    → is_some (lookup (oldest_from m rest) ((m, k) ∷ rest)) ≡ true
unfolding oldest_from
oldest_found m k [] = ground arith
oldest_found m k ((g, j) ∷ rest) = ground (arith, oldest_found g j rest, oldest_found m k rest)

lookup-erase_cases :
    (k j : ℕ) (s : List (ℕ × RatchetKey))
    → (lookup j (erase k s) ≡ none) ⊎ (lookup j (erase k s) ≡ lookup j s)
lookup-erase_cases k j s = elim (Bool-cases (k == j)) [
  | inl e ↦ inl (lookup-erase k j s ∙ rw e)
  | inr e ↦ inr (lookup-erase k j s ∙ rw e)
]

-- The eviction of a cache within its bound leaves room for one key, and adds none.
pub evict_room :
    (m : ℕ) (s : List (ℕ × RatchetKey))
    → length s ≤ m
    → 0 < m
    → (kept : List (ℕ × RatchetKey)) × (evict m s ≡ ok kept)
      × (length kept + 1 ≤ m)
      × ((g : ℕ) → (lookup g kept ≡ none) ⊎ (lookup g kept ≡ lookup g s))
unfolding evict
evict_room m [] bound pos = ([], ground arith, ground arith, λ g. inl refl)
evict_room m ((g, k) ∷ rest) bound pos = elim (Bool-cases (leb m (length ((g, k) ∷ rest)))) [
  | inl full ↦ (
    erase (oldest_from g rest) ((g, k) ∷ rest),
    ground arith,
    omega (arith, length-erase_found (oldest_from g rest) ((g, k) ∷ rest) (oldest_found g k rest)),
    λ j. lookup-erase_cases (oldest_from g rest) j ((g, k) ∷ rest),
  )
  | inr room ↦ ((g, k) ∷ rest, ground arith, ground arith, λ j. inr refl)
]

module _ (hkdf : HkdfExpand) where
  -- The chain secret and the key of each generation, from the base secret alone.
  unfoldable pub chain_at : Bytes → ℕ → Result Bytes
  chain_at base zero = ok base
  chain_at base (suc n) = do
    chain ← chain_at base n
    derived ← derive_step hkdf chain n
    ok derived.1

  unfoldable pub key_at : Bytes → ℕ → Result RatchetKey
  key_at base n = do chain ← chain_at base n; derived ← derive_step hkdf chain n; ok derived.0

  pub record IsValid (base : Bytes) (r : DaveRatchet) : Type 0 where
    pub chain : chain_at base r.generation ≡ ok r.chain
    pub bounded : length r.skipped ≤ r.max_skip
    pub fresh :
        (g : ℕ) (k : RatchetKey)
        → lookup g r.skipped ≡ some k
        → (g < r.generation) × (key_at base g ≡ ok k)

  -- A round from a valid ratchet gives the key of its generation and moves to the next; it fails, and
  -- changes nothing, only where the generation does not fit four bytes.
  abbrev pub Advances : Bytes → ℕ → DaveRatchet → Result RatchetKey × DaveRatchet → Type 0
  Advances base target r (ok k, r') =
      IsValid base r'
      × (r'.generation ≡ r.generation + 1)
      × (r'.max_skip ≡ r.max_skip)
      × (key_at base r.generation ≡ ok k)
      × (lookup target r'.skipped ≡ none)
  Advances base target r (err e, r') = (r' ≡ r) × (256 ^ 4 ≤ r.generation)

  pub derive_step_total :
      (chain : Bytes) (g : ℕ) → g < 256 ^ 4 → is_ok (derive_step hkdf chain g) ≡ true
  unfolding derive_step hkdf_expand_label hkdf_expand to_bytes
  derive_step_total chain g h = ground (arith, length-low_bytes 4 g)
