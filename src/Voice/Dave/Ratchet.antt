-- ===== src/Voice/Dave/Ratchet.antt =====
-- `class DaveRatchet` of vaidcord-py/src/vaidcord/voice/dave/crypto/ratchet.py. A method returns its
-- result beside the state, since what it wrote before a raise stays written.
pub mod Invariant
pub mod Keys
pub mod Reaches
mod Examples
use vaidcord.Base.{
  ℕ, zero, suc, ◌+◌, ◌-◌, true, false, Option, none, some, List, [], ◌∷◌, ◌++◌, length, take, drop,
  leb, ltb, ◌==◌, if◌then◌else◌,
}
use vaidcord.Base.Bytes.{Bytes, to_bytes}
use vaidcord.Base.Dict.{lookup, insert, erase, nat_key}
use vaidcord.Base.Result.{Result, ok, err, value_error, key_error, assertion_error, ◌>>=◌}
use vaidcord.Voice.Dave.Kdf.{HkdfExpand, hkdf_expand_label, ratchet_label}

abbrev pub chain_secret_bytes : ℕ
chain_secret_bytes = 32

abbrev pub aes128_key_bytes : ℕ
aes128_key_bytes = 16

abbrev pub nonce_seed_bytes : ℕ
nonce_seed_bytes = 12

-- The labels with the suffixes `-key` and `-chain`.
abbrev pub key_label : Bytes
key_label = ratchet_label ++ (45 ∷ 107 ∷ 101 ∷ 121 ∷ [])

abbrev pub chain_label : Bytes
chain_label = ratchet_label ++ (45 ∷ 99 ∷ 104 ∷ 97 ∷ 105 ∷ 110 ∷ [])

pub record RatchetKey : Type 0 where
  pub generation : ℕ
  pub key : Bytes
  pub nonce_seed : Bytes

pub record DaveRatchet : Type 0 where
  pub chain : Bytes
  pub generation : ℕ
  pub max_skip : ℕ
  pub skipped : List (ℕ × RatchetKey)

-- The state that `__init__` sets up.
abbrev pub initial : Bytes → ℕ → DaveRatchet
initial base_secret max_skip = record {
  chain = base_secret;
  generation = 0;
  max_skip = max_skip;
  skipped = [];
}

-- `__init__`
unfoldable pub create : Bytes → ℕ → Result DaveRatchet
create base_secret max_skip =
    if length base_secret == chain_secret_bytes
    then ok (initial base_secret max_skip)
    else err value_error

-- `min(self._skipped)` over the keys of a dict with at least one entry.
unfoldable pub oldest_from : ℕ → List (ℕ × RatchetKey) → ℕ
oldest_from m [] = m
oldest_from m ((g, k) ∷ rest) = oldest_from (if ltb g m then g else m) rest

-- The eviction before a key is stashed; `min` of no keys raises.
unfoldable pub evict : ℕ → List (ℕ × RatchetKey) → Result (List (ℕ × RatchetKey))
evict max_skip skipped =
    if leb max_skip (length skipped)
    then (elim skipped [
      | [] ↦ err value_error
      | (g, k) ∷ rest ↦ ok (erase (oldest_from g rest) ((g, k) ∷ rest))
    ])
    else ok skipped

abbrev pub advance : DaveRatchet → Result (RatchetKey × Bytes) → Result RatchetKey × DaveRatchet
advance r (ok (key, next)) = (ok key, record r { chain = next; generation = r.generation + 1 })
advance r (err e) = (err e, r)

-- The key of the round goes into the skip cache that `evict` leaves.
abbrev pub keep_skipped :
    RatchetKey → DaveRatchet → Result (List (ℕ × RatchetKey)) → Result RatchetKey × DaveRatchet
keep_skipped key r (ok kept) = (ok key, record r { skipped = insert (r.generation - 1) key kept })
keep_skipped key r (err e) = (err e, r)

-- What follows `last = self._step()` in the loop's body.
abbrev pub stash : ℕ → Result RatchetKey × DaveRatchet → Result RatchetKey × DaveRatchet
stash target (ok key, r) =
    if ltb (r.generation - 1) target
    then keep_skipped key r (evict r.max_skip r.skipped)
    else (ok key, r)
stash target (err e, r) = (err e, r)

-- `assert last is not None`
abbrev pub asserted : Result (Option RatchetKey) × DaveRatchet → Result RatchetKey × DaveRatchet
asserted (ok (some key), r) = (ok key, r)
asserted (ok none, r) = (err assertion_error, r)
asserted (err e, r) = (err e, r)

-- `self._skipped.pop(generation)`
abbrev pub pop_skipped : ℕ → DaveRatchet → Result RatchetKey × DaveRatchet
pop_skipped generation r = elim (lookup generation r.skipped) [
  | none ↦ (err key_error, r)
  | some key ↦ (ok key, record r { skipped = erase generation r.skipped })
]

module _ (hkdf : HkdfExpand) where
  -- The two derivations of `_step`: the key material and the next chain secret.
  unfoldable pub derive_step : Bytes → ℕ → Result (RatchetKey × Bytes)
  derive_step chain generation = do
    context ← to_bytes generation 4
    derived ← hkdf_expand_label hkdf chain key_label context (aes128_key_bytes + nonce_seed_bytes)
    next ← hkdf_expand_label hkdf chain chain_label context chain_secret_bytes
    ok (
      record {
        generation = generation;
        key = take aes128_key_bytes derived;
        nonce_seed = drop aes128_key_bytes derived;
      },
      next,
    )

  unfoldable pub step : DaveRatchet → Result RatchetKey × DaveRatchet
  step r = advance r (derive_step r.chain r.generation)

  unfoldable pub derive_next : DaveRatchet → Result RatchetKey × DaveRatchet
  derive_next r = step r

  unfoldable pub round : ℕ → DaveRatchet → Result RatchetKey × DaveRatchet
  round target r = stash target (step r)

  -- `while self._generation <= generation`, for at most so many rounds.
  unfoldable pub loop :
      ℕ → ℕ → Option RatchetKey → DaveRatchet → Result (Option RatchetKey) × DaveRatchet
  loop zero target last r = (ok last, r)
  loop (suc rounds) target last r = elim (leb r.generation target) [
    | false ↦ (ok last, r)
    | true ↦
        let (result, r') = round target r in
        elim result [ ok key ↦ loop rounds target (some key) r' | err e ↦ (err e, r') ]
  ]

  unfoldable pub derive_for : ℕ → DaveRatchet → Result RatchetKey × DaveRatchet
  derive_for generation r =
      if ltb generation r.generation
      then pop_skipped generation r
      else if ltb r.max_skip (generation - r.generation)
      then (err value_error, r)
      else asserted (loop (generation + 1 - r.generation) generation none r)
