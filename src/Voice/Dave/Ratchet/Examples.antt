-- ===== src/Voice/Dave/Ratchet/Examples.antt =====
-- The ratchet over a stand-in for HKDF, and its theorems at concrete inputs.
use vaidcord.Base.{◌≡◌, refl, length, replicate, length-replicate, arith}
use vaidcord.Base.Bytes.{Bytes, to_bytes, low_bytes}
use vaidcord.Base.Result.{ok}
use vaidcord.Voice.Dave.Kdf.{HkdfExpand, hkdf_expand, hkdf_expand_label}
use vaidcord.Voice.Dave.Ratchet.{
  DaveRatchet, initial, create, step, round, loop, derive_step, derive_for, evict, oldest_from,
}
use vaidcord.Voice.Dave.Ratchet.Invariant.{IsValid}
use vaidcord.Voice.Dave.Ratchet.Keys.{initial-IsValid, derive_for_future, Derives}

-- A function with the length that HKDF-Expand documents.
abbrev zeros : HkdfExpand
zeros = record {
  derive = λ prk info n. replicate n 0;
  derive_length = λ prk info n pos. length-replicate n 0;
}

abbrev secret : Bytes
secret = replicate 32 7

abbrev start : DaveRatchet
start = initial secret 2

create-start : create secret 2 ≡ ok start
unfolding create
create-start = refl

-- Generation 2 is asked for first: 0 and 1 go to the cache.
abbrev later : DaveRatchet
later = (derive_for zeros 2 start).1

later_cache : (later.generation ≡ 3) × (length later.skipped ≡ 2)
unfolding derive_for loop round step derive_step hkdf_expand_label hkdf_expand to_bytes low_bytes
    evict oldest_from
later_cache = (refl, refl)

later-IsValid : IsValid zeros secret later
unfolding derive_for loop round step derive_step hkdf_expand_label hkdf_expand to_bytes low_bytes
    evict oldest_from
later-IsValid =
    (derive_for_future zeros secret 2 start (initial-IsValid zeros secret 2) (omega arith)
      (omega arith)).0

derive_for_future_example : Derives zeros secret 2 (derive_for zeros 2 start)
derive_for_future_example =
    derive_for_future zeros secret 2 start (initial-IsValid zeros secret 2) (omega arith)
      (omega arith)
