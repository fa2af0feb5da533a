-- ===== src/Voice/Dave/Kdf.antt =====
-- vaidcord-py/src/vaidcord/voice/dave/crypto/kdf.py. The HKDF-Expand of the `cryptography` package
-- is a parameter; of it the code relies on the documented length of the output.
use vaidcord.Base.{ℕ, ◌≡◌, ◌<◌, [], ◌∷◌, ◌++◌, length, ◌==◌, if◌then◌else◌}
use vaidcord.Base.Bytes.{Bytes, to_bytes}
use vaidcord.Base.Result.{Result, ok, err, value_error, ◌>>=◌}

-- `HKDFExpand(SHA256, length, info).derive(prk)`
pub record HkdfExpand : Type 0 where
  pub derive : Bytes → Bytes → ℕ → Bytes
  pub derive_length : (prk info : Bytes) (n : ℕ) → 0 < n → length (derive prk info n) ≡ n

-- The text `DAVE-ratchet`.
abbrev pub ratchet_label : Bytes
ratchet_label = 68 ∷ 65 ∷ 86 ∷ 69 ∷ 45 ∷ 114 ∷ 97 ∷ 116 ∷ 99 ∷ 104 ∷ 101 ∷ 116 ∷ []

module _ (hkdf : HkdfExpand) where
  unfoldable pub hkdf_expand : Bytes → Bytes → ℕ → Result Bytes
  hkdf_expand prk info n = if n == 0 then err value_error else ok (hkdf.derive prk info n)

  unfoldable pub hkdf_expand_label : Bytes → Bytes → Bytes → ℕ → Result Bytes
  unfolding hkdf_expand
  hkdf_expand_label secret label context n = do
    size ← to_bytes n 2
    label_size ← to_bytes (length label) 1
    context_size ← to_bytes (length context) 2
    hkdf_expand secret (size ++ (label_size ++ (label ++ (context_size ++ context)))) n
