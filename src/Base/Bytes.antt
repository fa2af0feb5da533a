-- ===== src/Base/Bytes.antt =====
-- `bytes` as lists of numbers, with `int.to_bytes(w, "big")` and `int.from_bytes(bs, "big")`.
use Prim.Native.Nat.{ℕ, zero, suc, ◌+◌, ◌*◌, ◌/◌, ◌%◌, ◌^◌, ◌<◌}
use mathlib.Core.List.{List, [], ◌∷◌, ◌++◌}
use mathlib.Core.Path.{◌≡◌, refl, ◌∙◌}
use native.Mathlib.Nat.{pow-suc}
use native.Mathlib.Omega.{arith}
use vaidcord.Base.Lists.{length, length-append}
use vaidcord.Base.Result.{Result, ok, err, overflow_error}
use vaidcord.Base.Tests.{ltb, if◌then◌else◌}

abbrev pub Bytes : Type 0
Bytes = List ℕ

-- The `w` lowest bytes of a number, the highest first.
unfoldable pub low_bytes : ℕ → ℕ → Bytes
low_bytes zero n = []
low_bytes (suc w) n = low_bytes w (n / 256) ++ (n % 256) ∷ []

-- `n.to_bytes(w, "big")`
unfoldable pub to_bytes : ℕ → ℕ → Result Bytes
to_bytes n w = if ltb n (256 ^ w) then ok (low_bytes w n) else err overflow_error

read_bytes : ℕ → Bytes → ℕ
read_bytes acc [] = acc
read_bytes acc (b ∷ bs) = read_bytes (acc * 256 + b) bs

-- `int.from_bytes(bs, "big")`
unfoldable pub from_bytes : Bytes → ℕ
unfolding read_bytes
from_bytes bs = read_bytes 0 bs

read_bytes-snoc :
    (acc : ℕ) (bs : Bytes) (b : ℕ) → read_bytes acc (bs ++ b ∷ []) ≡ read_bytes acc bs * 256 + b
unfolding read_bytes
read_bytes-snoc acc [] b = refl
read_bytes-snoc acc (c ∷ bs) b = read_bytes-snoc (acc * 256 + c) bs b

-- A number that fits is read back from its bytes.
pub from_bytes-low_bytes : (w n : ℕ) → n < 256 ^ w → from_bytes (low_bytes w n) ≡ n
unfolding from_bytes low_bytes
from_bytes-low_bytes zero n h = omega arith
from_bytes-low_bytes (suc w) n h =
    read_bytes-snoc 0 (low_bytes w (n / 256)) (n % 256)
    ∙ omega (arith, from_bytes-low_bytes w (n / 256) (omega (arith, pow-suc 256 w)))

pub length-low_bytes : (w n : ℕ) → length (low_bytes w n) ≡ w
unfolding low_bytes
length-low_bytes zero n = refl
length-low_bytes (suc w) n =
    length-append (low_bytes w (n / 256)) ((n % 256) ∷ [])
    ∙ omega (arith, length-low_bytes w (n / 256))
