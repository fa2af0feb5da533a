-- ===== src/Errors.antt =====
-- vaidcord-py/src/vaidcord/errors.py: the details of an error that Discord sends, flattened, and what
-- the close codes of the gateways mean. `create_discord_error` stands in Http.Request.
pub mod Details
pub mod Codes
mod Examples
use Prim.Native.String.{String}
use vaidcord.Base.{
  ℕ, Bool, true, false, not, ◌||◌, Option, none, some, List, [], ◌∷◌, ◌++◌, ◌==◌, if◌then◌else◌,
  contains,
}

-- An entry of an "_errors" list, with the defaults "UNKNOWN" and "Unknown error" filled in.
pub record Entry : Type 0 where
  pub code : String
  pub message : String

pub record ErrorDetails : Type 0 where
  pub code : String
  pub message : String
  pub path : List String

-- Discord's nested errors: a dict with its "_errors", if it has that key, and the other keys in order.
-- A value that is no dict is a scalar.
mutual
  pub data Errors : Type 0 where
    errors : Option (List Entry) → Fields → Errors

  pub data Fields : Type 0 where
    no_fields : Fields
    scalar : String → Fields → Fields
    nested : String → Errors → Fields → Fields

unfoldable pub details_at : List String → List Entry → List ErrorDetails
details_at path [] = []
details_at path (e ∷ es) =
    record { code = e.code; message = e.message; path = path } ∷ details_at path es

abbrev pub own_details : List String → Option (List Entry) → List ErrorDetails
own_details path none = []
own_details path (some es) = details_at path es

-- `_parse_errors`: of a nested dict that has errors of its own, only those are taken.
unfoldable mutual
  pub parse_errors : List String → Errors → List ErrorDetails
  parse_errors path (errors own fields) = own_details path own ++ parse_fields path fields

  pub parse_fields : List String → Fields → List ErrorDetails
  parse_fields path no_fields = []
  parse_fields path (scalar key fields) = parse_fields path fields
  parse_fields path (nested key (errors (some es) inner) fields) =
      details_at (path ++ key ∷ []) es ++ parse_fields path fields
  parse_fields path (nested key (errors none inner) fields) =
      parse_fields (path ++ key ∷ []) inner ++ parse_fields path fields

-- The values of `GatewayCloseCode` and `VoiceGatewayCloseCode`, and those of them after which the client
-- should not reconnect.
abbrev pub gateway_close_codes : List ℕ
gateway_close_codes =
    4000 ∷ 4001 ∷ 4002 ∷ 4003 ∷ 4004 ∷ 4005 ∷ 4007 ∷ 4008 ∷ 4009 ∷ 4010 ∷ 4011 ∷ 4012 ∷ 4013 ∷ 4014
    ∷ []

abbrev pub voice_close_codes : List ℕ
voice_close_codes =
    4001 ∷ 4002 ∷ 4003 ∷ 4004 ∷ 4005 ∷ 4006 ∷ 4009 ∷ 4011 ∷ 4012 ∷ 4014 ∷ 4015 ∷ 4016 ∷ 4017 ∷ 4020
    ∷ 4021 ∷ 4022 ∷ []

abbrev pub no_reconnect_codes : List ℕ
no_reconnect_codes = 4004 ∷ 4010 ∷ 4011 ∷ 4012 ∷ 4013 ∷ 4014 ∷ []

abbrev pub no_voice_reconnect_codes : List ℕ
no_voice_reconnect_codes = 4014 ∷ 4021 ∷ 4022 ∷ []

-- The close code that `create_gateway_error` and `create_voice_gateway_error` keep: none for a code
-- that the enum does not know.
unfoldable pub known_code : List ℕ → ℕ → Option ℕ
known_code codes code = if contains code codes then some code else none

-- `GatewayError.should_reconnect` and `VoiceGatewayError.should_reconnect` of an error so made.
unfoldable pub should_reconnect : List ℕ → Option ℕ → Bool
should_reconnect refused none = true
should_reconnect refused (some code) = not (contains code refused)

unfoldable pub gateway_should_reconnect : ℕ → Bool
unfolding known_code should_reconnect
gateway_should_reconnect code =
    should_reconnect no_reconnect_codes (known_code gateway_close_codes code)

unfoldable pub voice_should_reconnect : ℕ → Bool
unfolding known_code should_reconnect
voice_should_reconnect code =
    should_reconnect no_voice_reconnect_codes (known_code voice_close_codes code)
