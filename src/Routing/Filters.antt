-- ===== src/Routing/Filters.antt =====
-- vaidcord-py/src/vaidcord/filters/base.py: what a filter answers, and how filters combine. A filter may
-- read and change a world of type `W`, and raise.
pub mod Algebra
use Prim.Native.String.{String}
use vaidcord.Base.{Bool, true, false, not, List, [], ◌∷◌, if◌then◌else◌}
use vaidcord.Base.Action.{Action, pure, ◌>>=◌}
use vaidcord.Base.Items.{insert_all}
use vaidcord.Base.Names.{name_key}

-- `bool | dict[str, Any]`
pub data Answer (V : Type 0) : Type 0 where
  flag : Bool → Answer V
  matched : List (String × V) → Answer V

abbrev pub Filter : Type 0 → Type 0 → Type 0 → Type 0
Filter W E V = E → Action W (Answer V)

-- `_to_pass_and_data`, also the end of `run_filter_with_data`.
abbrev pub passed : {V : Type 0} → Answer V → Bool
passed (flag b) = b
passed (matched d) = true

abbrev pub data_of : {V : Type 0} → Answer V → List (String × V)
data_of (flag b) = []
data_of (matched d) = d

-- `bool(answer)`, and `data or True`.
abbrev pub truthy : {V : Type 0} → Answer V → Bool
truthy (flag b) = b
truthy (matched []) = false
truthy (matched (x ∷ d)) = true

abbrev pub or_true : {V : Type 0} → List (String × V) → Answer V
or_true [] = flag true
or_true (x ∷ d) = matched (x ∷ d)

module _ {W E V : Type 0} where
  unfoldable pub run_filter : Filter W E V → E → Action W Bool
  run_filter f event = do answer ← f event; pure (passed answer)

  -- `FilterExpr.__and__`
  unfoldable pub and_filter : Filter W E V → Filter W E V → Filter W E V
  and_filter f g event = do
    left ← f event
    if passed left
        then (do
          right ← g event
          pure (
              if passed right
              then or_true (insert_all (data_of right) (insert_all (data_of left) []))
              else flag false))
        else pure (flag false)

  -- `FilterExpr.__or__`
  unfoldable pub or_filter : Filter W E V → Filter W E V → Filter W E V
  or_filter f g event = do
    left ← f event
    if passed left then pure (or_true (data_of left)) else (do
      right ← g event
      pure (if passed right then or_true (data_of right) else flag false))

  -- `FilterExpr.__invert__`
  unfoldable pub invert_filter : Filter W E V → Filter W E V
  invert_filter f event = do answer ← f event; pure (flag (not (truthy answer)))
