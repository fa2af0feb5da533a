-- ===== src/Commands/Examples.antt =====
-- Options and payloads with numbers for values; the number 9 is the name "ping".
use Prim.Native.String.{String}
use vaidcord.Base.{ℕ, ◌==◌, ◌≡◌, refl, true, false, [], ◌∷◌, if◌then◌else◌}
use vaidcord.Base.Result.{ok, err, value_error}
use vaidcord.Commands.Options.{
  leaf, group, CommandOptions, no_options, more_options, validate_options,
}
use vaidcord.Commands.Options.Required.{required_first, validate_options_lem}
use vaidcord.Commands.Sync.{Payload, command_key}

-- A group whose nested options put an optional one first.
abbrev unordered : CommandOptions ℕ
unordered =
    more_options
      (group false [] (more_options (leaf false []) (more_options (leaf true []) no_options)))
      no_options

validate_options_lem_example :
    validate_options unordered
    ≡ (if required_first unordered then ok unordered else err value_error)
validate_options_lem_example = validate_options_lem unordered

refused : required_first unordered ≡ false
unfolding required_first
refused = refl

abbrev to_str : ℕ → String
to_str v = if v == 9 then "ping" else ""

abbrev old_ping : Payload ℕ
old_ping = ("id", 5) ∷ ("type", 1) ∷ ("name", 9) ∷ ("description", 3) ∷ []

abbrev new_ping : Payload ℕ
new_ping = ("type", 1) ∷ ("name", 9) ∷ ("description", 4) ∷ []
