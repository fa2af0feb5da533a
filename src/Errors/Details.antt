-- ===== src/Errors/Details.antt =====
-- Which of Discord's nested errors reach the flat list.
use Prim.Native.String.{String}
use vaidcord.Base.{
  ◌≡◌, refl, ap, Bool, true, false, ◌&&◌, Option, none, some, List, [], ◌∷◌, ◌++◌, arith,
}
use vaidcord.Errors.{
  Entry, ErrorDetails, Errors, errors, Fields, no_fields, scalar, nested, details_at, own_details,
  parse_errors, parse_fields,
}

-- Every error of every dict, each with the keys that lead to it.
unfoldable mutual
  pub all_errors : List String → Errors → List ErrorDetails
  all_errors path (errors own fs) = own_details path own ++ all_fields path fs

  pub all_fields : List String → Fields → List ErrorDetails
  all_fields path no_fields = []
  all_fields path (scalar key fs) = all_fields path fs
  all_fields path (nested key e fs) = all_errors (path ++ key ∷ []) e ++ all_fields path fs

-- No dict stands among the fields.
abbrev pub are_flat : Fields → Bool
are_flat no_fields = true
are_flat (scalar key fs) = are_flat fs
are_flat (nested key e fs) = false

-- No nested dict has both errors of its own and further dicts.
abbrev pub are_layered : Fields → Bool
are_layered no_fields = true
are_layered (scalar key fs) = are_layered fs
are_layered (nested key (errors none inner) fs) = are_layered inner && are_layered fs
are_layered (nested key (errors (some es) inner) fs) = are_flat inner && are_layered fs

both_true : (a b : Bool) → (a && b) ≡ true → (a ≡ true) × (b ≡ true)
both_true a b h = ground (arith, h)

all_fields_flat : (path : List String) (fs : Fields) → are_flat fs ≡ true → all_fields path fs ≡ []
unfolding all_fields
all_fields_flat path no_fields h = refl
all_fields_flat path (scalar key fs) h = all_fields_flat path fs h
all_fields_flat path (nested key e fs) h = cc

append_nil : (ds : List ErrorDetails) → ds ++ [] ≡ ds
append_nil [] = refl
append_nil (d ∷ ds) = ap (λ (r : List ErrorDetails). d ∷ r) (append_nil ds)

parse_fields-all_fields :
    (path : List String) (fs : Fields)
    → are_layered fs ≡ true
    → parse_fields path fs ≡ all_fields path fs
unfolding parse_fields all_fields all_errors
parse_fields-all_fields path no_fields h = refl
parse_fields-all_fields path (scalar key fs) h = parse_fields-all_fields path fs h
parse_fields-all_fields path (nested key (errors none inner) fs) h =
    let (a, b) = both_true (are_layered inner) (are_layered fs) h in
    rw (parse_fields-all_fields (path ++ key ∷ []) inner a, parse_fields-all_fields path fs b) refl
parse_fields-all_fields path (nested key (errors (some es) inner) fs) h =
    let (a, b) = both_true (are_flat inner) (are_layered fs) h in
    rw
      (
        all_fields_flat (path ++ key ∷ []) inner a,
        append_nil (details_at (path ++ key ∷ []) es),
        parse_fields-all_fields path fs b,
      )
      refl

-- Where no nested dict has both errors of its own and dicts inside, the flat list has every error of
-- Discord's answer once, in order, each with the keys that lead to it; the errors of the answer itself
-- come first, with an empty path, and may stand beside dicts.
pub parse_errors-all_errors :
    (own : Option (List Entry)) (fs : Fields)
    → are_layered fs ≡ true
    → parse_errors [] (errors own fs) ≡ all_errors [] (errors own fs)
unfolding parse_errors all_errors
parse_errors-all_errors own fs h =
    ap (λ ds. own_details [] own ++ ds) (parse_fields-all_fields [] fs h)
