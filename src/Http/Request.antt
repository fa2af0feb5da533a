-- ===== src/Http/Request.antt =====
-- `HTTPClient.request` of vaidcord-py/src/vaidcord/http/client.py, with the errors that it makes of a
-- response, `create_discord_error` of vaidcord-py/src/vaidcord/errors.py. `V` is the type of the values
-- of a JSON object, and `loads` the json module.
pub mod Answers
mod Examples
use Prim.Native.String.{String}
use vaidcord.Base.{
  ℕ, ◌==◌, Bool, true, false, Option, none, some, List, [], ◌∷◌, if◌then◌else◌, leb,
}
use vaidcord.Base.Bytes.{Bytes}
use vaidcord.Base.Dict.{lookup}
use vaidcord.Base.Names.{name_key}
use vaidcord.Http.Retry.{
  RetryPolicy, Exchange, Outcome, returned, raised, unexpected, request_with_retry,
}

-- What `json.loads` makes of a body: an error of decoding, an object, or another value.
pub data Loaded (V : Type 0) : Type 0 where
  undecodable : Loaded V
  object : List (String × V) → Loaded V
  other_json : V → Loaded V

pub data ErrorClass : Type 0 where
  authentication_error forbidden_error not_found_error rate_limit_error : ErrorClass
  server_error discord_api_error : ErrorClass

-- An error with the attributes that its class sets. `server_error` is a plain `VaidCordError`.
pub record DiscordError (V : Type 0) : Type 0 where
  pub error_class : ErrorClass
  pub message : V
  pub code : V
  pub status : ℕ
  pub errors : Option V
  pub retry_after : Option V
  pub global_limit : Option V
  pub raw_data : List (String × V)

abbrev pub or_value : {V : Type 0} → Option V → V → V
or_value none default = default
or_value (some v) default = v

-- How values are made of a number, of the text of a body, and of the default texts.
pub record Values (V : Type 0) : Type 0 where
  pub number : ℕ → V
  pub text_of : Bytes → V
  pub unknown_error : V
  pub loads : Bytes → Loaded V

pub data Answer (V E : Type 0) : Type 0 where
  data_object : List (String × V) → Answer V E
  data_value : V → Answer V E
  discord_error : DiscordError V → Answer V E
  transport_error : E → Answer V E
  decode_error attribute_error runtime_error : Answer V E

module _ {V : Type 0} (values : Values V) where
  abbrev pub error_class_of : ℕ → ErrorClass
  error_class_of status =
      if status == 401
      then authentication_error
      else if status == 403
      then forbidden_error
      else if status == 404
      then not_found_error
      else if status == 429
      then rate_limit_error
      else if leb 500 status
      then server_error
      else discord_api_error

  -- The arguments that the classes hand on to `VaidCordError`: four of them set their own code.
  unfoldable pub create_discord_error : ℕ → List (String × V) → DiscordError V
  create_discord_error status raw =
      let plain : DiscordError V = record {
        error_class = error_class_of status;
        message = or_value (lookup "message" raw) values.unknown_error;
        code = values.number status;
        status = status;
        errors = none;
        retry_after = none;
        global_limit = none;
        raw_data = raw;
      } in
      elim (error_class_of status) [
        | authentication_error ↦ plain
        | forbidden_error ↦ plain
        | not_found_error ↦ plain
        | rate_limit_error ↦ record plain {
          retry_after = lookup "retry_after" raw;
          global_limit = lookup "global" raw;
        }
        | server_error ↦ record plain { code = or_value (lookup "code" raw) (values.number status) }
        | discord_api_error ↦ record plain {
          code = or_value (lookup "code" raw) (values.number status);
          errors = lookup "errors" raw;
        }
      ]

  -- `json.loads` of the body, and its replacement where it cannot be decoded.
  abbrev pub error_data : ℕ → Bytes → Loaded V
  error_data status body = elim (values.loads body) [
    | undecodable ↦ object (("code", values.number status) ∷ ("message", values.text_of body) ∷ [])
    | object d ↦ object d
    | other_json v ↦ other_json v
  ]

  -- A response without an error, but for 204.
  abbrev pub answer_body : {E : Type 0} → Bytes → Answer V E
  answer_body [] = data_object []
  answer_body (b ∷ body) = elim (values.loads (b ∷ body)) [
    | undecodable ↦ decode_error
    | object d ↦ data_object d
    | other_json v ↦ data_value v
  ]

  -- What follows `_request_with_retry`, on a response. The replacement of an object that is none has
  -- no `get`.
  unfoldable pub answer_response : {E : Type 0} → ℕ → Bytes → Answer V E
  unfolding create_discord_error
  answer_response status body =
      if leb 400 status
      then elim (error_data status body) [
        | undecodable ↦ decode_error
        | object d ↦ discord_error (create_discord_error status d)
        | other_json v ↦ attribute_error
      ]
      else if status == 204
      then data_object []
      else answer_body body

  -- All that `request` does with how the loop ended.
  unfoldable pub answer_of : {E : Type 0} → Outcome E → Answer V E
  unfolding answer_response
  answer_of (returned status body) = answer_response status body
  answer_of (raised e) = transport_error e
  answer_of unexpected = runtime_error

  unfoldable pub request : {E : Type 0} → RetryPolicy → (ℕ → Exchange E) → Answer V E
  unfolding answer_of
  request policy server = answer_of (request_with_retry policy server).0
