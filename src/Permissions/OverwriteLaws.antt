-- ===== src/Permissions/OverwriteLaws.antt =====
-- What the methods of `class PermissionOverwrite` do to each bit of an overwrite.
use vaidcord.Base.{ℕ, ◌<◌, ◌≡◌, Bool, false, not, ◌&&◌, ◌||◌, List, [], ◌∷◌, arith}
use vaidcord.Base.Bits.{test_bit}
use vaidcord.Base.Result.{ok}
use vaidcord.Base.Decimal.{read_decimal-decimal}
use vaidcord.Permissions.Flags.{Permissions, add, remove}
use vaidcord.Permissions.BitLaws.{test_bit-add, test_bit-remove, test_bit-remove_named}
use vaidcord.Permissions.Overwrite.{
  PermissionOverwrite, to_int, from_int, to_string, from_dict, to_dict, set_allow, set_deny, reset,
}

-- Some set of the list has the bit.
abbrev pub any_bit : ℕ → List Permissions → Bool
any_bit i [] = false
any_bit i (p ∷ ps) = test_bit i p || any_bit i ps

-- No bit is both allowed and denied.
abbrev pub IsConsistent : PermissionOverwrite → Type 0
IsConsistent o = (i : ℕ) → (test_bit i o.allow && test_bit i o.deny) ≡ false

-- An overwrite written for the API is read back as it was.
pub from_dict-to_dict : (o : PermissionOverwrite) → from_dict (to_dict o) ≡ ok o
unfolding from_dict to_dict from_int to_int to_string
from_dict-to_dict o = simp read_decimal-decimal

-- After `set_allow` a bit is allowed exactly if it was allowed or one of the given sets has it, and,
-- among the 53 bits that Discord names, it is denied exactly if it was denied and no set has it.
pub set_allow_bits :
    (i : ℕ) (o : PermissionOverwrite) (ps : List Permissions)
    → i < 53
    → (test_bit i (set_allow o ps).allow ≡ (test_bit i o.allow || any_bit i ps))
      × (test_bit i (set_allow o ps).deny ≡ (test_bit i o.deny && not (any_bit i ps)))
unfolding set_allow
set_allow_bits i o [] named = ground arith
set_allow_bits i o (p ∷ ps) named = ground (
  arith,
  set_allow_bits i (record o { allow = add o.allow p; deny = remove o.deny p }) ps named,
  test_bit-add i o.allow p,
  test_bit-remove_named i o.deny p named,
)

pub set_deny_bits :
    (i : ℕ) (o : PermissionOverwrite) (ps : List Permissions)
    → i < 53
    → (test_bit i (set_deny o ps).deny ≡ (test_bit i o.deny || any_bit i ps))
      × (test_bit i (set_deny o ps).allow ≡ (test_bit i o.allow && not (any_bit i ps)))
unfolding set_deny
set_deny_bits i o [] named = ground arith
set_deny_bits i o (p ∷ ps) named = ground (
  arith,
  set_deny_bits i (record o { deny = add o.deny p; allow = remove o.allow p }) ps named,
  test_bit-add i o.deny p,
  test_bit-remove_named i o.allow p named,
)

set_allow-IsConsistent :
    (o : PermissionOverwrite) (ps : List Permissions)
    → IsConsistent o
    → IsConsistent (set_allow o ps)
unfolding set_allow
set_allow-IsConsistent o [] h = h
set_allow-IsConsistent o (p ∷ ps) h =
    set_allow-IsConsistent (record o { allow = add o.allow p; deny = remove o.deny p }) ps
      λ i. ground (arith, h i, test_bit-add i o.allow p, test_bit-remove i o.deny p)

set_deny-IsConsistent :
    (o : PermissionOverwrite) (ps : List Permissions)
    → IsConsistent o
    → IsConsistent (set_deny o ps)
unfolding set_deny
set_deny-IsConsistent o [] h = h
set_deny-IsConsistent o (p ∷ ps) h =
    set_deny-IsConsistent (record o { deny = add o.deny p; allow = remove o.allow p }) ps
      λ i. ground (arith, h i, test_bit-add i o.deny p, test_bit-remove i o.allow p)

reset-IsConsistent :
    (o : PermissionOverwrite) (ps : List Permissions) → IsConsistent o → IsConsistent (reset o ps)
unfolding reset
reset-IsConsistent o [] h = h
reset-IsConsistent o (p ∷ ps) h =
    reset-IsConsistent (record o { allow = remove o.allow p; deny = remove o.deny p }) ps
      λ i. ground (arith, h i, test_bit-remove i o.allow p, test_bit-remove i o.deny p)

-- Each of `set_allow`, `set_deny` and `reset`, with any arguments, keeps an overwrite in which no
-- bit is both allowed and denied such an overwrite.
pub updates-IsConsistent :
    (o : PermissionOverwrite) (ps : List Permissions)
    → IsConsistent o
    → IsConsistent (set_allow o ps) × IsConsistent (set_deny o ps) × IsConsistent (reset o ps)
updates-IsConsistent o ps h =
    (set_allow-IsConsistent o ps h, set_deny-IsConsistent o ps h, reset-IsConsistent o ps h)
