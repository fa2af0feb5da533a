-- ===== src/Errors/Examples.antt =====
-- Errors of Discord flattened, and close codes.
use vaidcord.Base.{◌≡◌, refl, none, some, [], ◌∷◌}
use vaidcord.Errors.{Entry, errors, Fields, no_fields, nested, details_at, parse_errors}
use vaidcord.Errors.Details.{all_errors, parse_errors-all_errors}
use vaidcord.Voice.Connection.Policy.{resume_action, classify_voice_close_code}

abbrev too_long : Entry
too_long = record { code = "BASE_TYPE_MAX_LENGTH"; message = "Must be 100 or fewer in length." }

-- An embed's title is too long, and the message has an error of its own.
abbrev fields : Fields
fields =
    nested "embeds"
      (errors none (
        nested "0"
          (errors none (nested "title" (errors (some (too_long ∷ [])) no_fields) no_fields))
          no_fields))
      no_fields

parse_errors-all_errors_example :
    parse_errors [] (errors (some (too_long ∷ [])) fields)
    ≡ record {
      code = "BASE_TYPE_MAX_LENGTH";
      message = "Must be 100 or fewer in length.";
      path = [];
    }
      ∷ record {
        code = "BASE_TYPE_MAX_LENGTH";
        message = "Must be 100 or fewer in length.";
        path = "embeds" ∷ "0" ∷ "title" ∷ [];
      }
      ∷ []
unfolding all_errors details_at
parse_errors-all_errors_example = parse_errors-all_errors (some (too_long ∷ [])) fields refl

-- The error of a dict inside a dict that has errors is lost.
inner_lost :
    parse_errors [] (
      errors none (
        nested "a"
          (errors (some []) (nested "b" (errors (some (too_long ∷ [])) no_fields) no_fields))
          no_fields))
    ≡ []
unfolding parse_errors details_at
inner_lost = refl

-- The voice connection resumes after a code that errors.py gives up at.
terminated_resumes : classify_voice_close_code (some 4022) ≡ resume_action
unfolding classify_voice_close_code
terminated_resumes = refl
