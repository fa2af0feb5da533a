-- ===== src/Permissions/Overwrite.antt =====
-- `from_int` and `to_string` of `class Permissions`, `class PermissionOverwrite`, and the payloads
-- that both are read from.
use vaidcord.Base.{ℕ, Option, none, some, List, [], ◌∷◌}
use vaidcord.Base.Result.{Result, ok, err, key_error, ◌>>=◌}
use vaidcord.Base.Decimal.{decimal, read_decimal}
use vaidcord.Permissions.Flags.{Permissions, add, remove}

-- `int | str`: a natural number, or a text by its character codes.
pub data IntOrText : Type 0 where
  int : ℕ → IntOrText
  text : List ℕ → IntOrText

-- `int(value)`
unfoldable pub to_int : IntOrText → Result ℕ
to_int (int n) = ok n
to_int (text cs) = read_decimal cs

-- `cls(value)` keeps every bit of the number.
unfoldable pub from_int : IntOrText → Result Permissions
unfolding to_int
from_int value = do n ← to_int value; ok n

unfoldable pub to_string : Permissions → List ℕ
to_string p = decimal p

pub record PermissionOverwrite : Type 0 where
  pub id : ℕ
  pub type : ℕ
  pub allow : Permissions
  pub deny : Permissions

-- The dict of the API: `none` is a missing key.
pub record OverwriteData : Type 0 where
  pub id : Option IntOrText
  pub type : Option ℕ
  pub allow : Option IntOrText
  pub deny : Option IntOrText

-- `data.get(key, 0)`
abbrev pub or_zero : Option IntOrText → IntOrText
or_zero none = int 0
or_zero (some v) = v

abbrev pub type_or_role : Option ℕ → ℕ
type_or_role none = 0
type_or_role (some t) = t

-- `data["id"]`
abbrev pub required : Option IntOrText → Result IntOrText
required none = err key_error
required (some v) = ok v

-- With `__post_init__`, which reads the id.
unfoldable pub from_dict : OverwriteData → Result PermissionOverwrite
from_dict d = do
  raw_id ← required d.id
  allow ← from_int (or_zero d.allow)
  deny ← from_int (or_zero d.deny)
  id ← to_int raw_id
  ok (record { id = id; type = type_or_role d.type; allow = allow; deny = deny })

unfoldable pub to_dict : PermissionOverwrite → OverwriteData
to_dict o = record {
  id = some (text (decimal o.id));
  type = some o.type;
  allow = some (text (to_string o.allow));
  deny = some (text (to_string o.deny));
}

unfoldable pub set_allow : PermissionOverwrite → List Permissions → PermissionOverwrite
set_allow o [] = o
set_allow o (p ∷ ps) = set_allow (record o { allow = add o.allow p; deny = remove o.deny p }) ps

unfoldable pub set_deny : PermissionOverwrite → List Permissions → PermissionOverwrite
set_deny o [] = o
set_deny o (p ∷ ps) = set_deny (record o { deny = add o.deny p; allow = remove o.allow p }) ps

unfoldable pub reset : PermissionOverwrite → List Permissions → PermissionOverwrite
reset o [] = o
reset o (p ∷ ps) = reset (record o { allow = remove o.allow p; deny = remove o.deny p }) ps
