-- ===== src/Commands/Options/Required.antt =====
-- Which lists of options are accepted.
use vaidcord.Base.{◌≡◌, refl, Bool, true, false, not, ◌&&◌, ◌||◌, if◌then◌else◌, arith}
use vaidcord.Base.Result.{Result, ok, err, value_error}
use vaidcord.Commands.Options.{
  CommandOption, leaf, group, CommandOptions, no_options, more_options, is_required, validate_from,
  validate_option, validate_options,
}

abbrev pub none_required : {V : Type 0} → CommandOptions V → Bool
none_required no_options = true
none_required (more_options option options) = not (is_required option) && none_required options

-- The required options stand before all others, here and in every nested list.
unfoldable mutual
  pub required_first : {V : Type 0} → CommandOptions V → Bool
  required_first no_options = true
  required_first (more_options option options) =
      (is_required option || none_required options)
      && (nested_first option && required_first options)

  pub nested_first : {V : Type 0} → CommandOption V → Bool
  nested_first (leaf required entries) = true
  nested_first (group required entries nested) = required_first nested

abbrev pub accepted : {A : Type 0} → Bool → A → Result A
accepted true a = ok a
accepted false a = err value_error

mutual
  unfolding validate_from validate_option required_first nested_first

  validate_from_lem :
      {V : Type 0} (seen : Bool) (options : CommandOptions V)
      → validate_from seen options
        ≡ accepted (required_first options && (not seen || none_required options)) options
  validate_from_lem seen no_options = ground arith
  validate_from_lem seen (more_options option options) =
      let a = validate_option_lem option in
      let b = validate_from_lem (if is_required option then seen else true) options in ground arith

  validate_option_lem :
      {V : Type 0} (option : CommandOption V)
      → validate_option option ≡ accepted (nested_first option) option
  validate_option_lem (leaf required entries) = refl
  validate_option_lem (group required entries nested) =
      let a = validate_from_lem false nested in ground arith

-- A list of options is returned as it is where the required options stand before all others, in it and
-- in every nested list, and refused with ValueError otherwise.
pub validate_options_lem :
    {V : Type 0} (options : CommandOptions V)
    → validate_options options ≡ (if required_first options then ok options else err value_error)
unfolding validate_options
validate_options_lem options = let a = validate_from_lem false options in ground arith
