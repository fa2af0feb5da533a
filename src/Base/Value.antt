-- ===== src/Base/Value.antt =====
-- A value of unknown type in the payload of the gateway, as far as `int(value)` tells values apart: a
-- natural number, a text by its character codes, or one that `int` does not take.
use Prim.Native.Nat.{ℕ}
use mathlib.Core.List.{List}

pub data Value : Type 0 where
  null : Value
  number : ℕ → Value
  text : List ℕ → Value
  other : List ℕ → Value
