-- ===== src/Oauth2.antt =====
-- vaidcord-py/src/vaidcord/oauth2.py: a client's token, from the token endpoint on. What the endpoint
-- answers to a form is a parameter, as are `str.split` and the clock, whose times are numbers.
pub mod Valid
mod Examples
use Prim.Native.String.{String}
use vaidcord.Base.{
  ℕ, ◌+◌, ◌-◌, ◌==◌, Bool, true, false, not, ◌&&◌, Option, none, some, List, [], ◌∷◌, ◌++◌,
  if◌then◌else◌, leb,
}
use vaidcord.Base.Names.{name_key}

pub record Oauth2Token : Type 0 where
  pub access_token : String
  pub token_type : String
  pub expires_in : ℕ
  pub refresh_token : Option String
  pub scope : List String
  pub expires_at : Option ℕ

-- The value of "scope" in a token's dict: a text from the endpoint, a list from `to_dict`.
pub data ScopeValue : Type 0 where
  scope_text : String → ScopeValue
  scope_list : List String → ScopeValue

-- The entries of a token's dict that the client reads of itself.
pub record TokenData : Type 0 where
  pub access_token : Option String
  pub token_type : Option String
  pub expires_in : Option ℕ
  pub refresh_token : Option String
  pub scope : Option ScopeValue

pub data TokenError : Type 0 where
  oauth2_error : ℕ → TokenError
  key_error attribute_error other_error : TokenError

pub data TokenResult (A : Type 0) : Type 0 where
  got : A → TokenResult A
  failed : TokenError → TokenResult A

-- The form that is posted, by its grant.
pub data Grant : Type 0 where
  authorization_code : String → String → Grant
  refresh_grant : String → Grant
  client_credentials : List String → Grant

-- A response of the token endpoint with its JSON, or what the session raised.
pub data Reply : Type 0 where
  reply : ℕ → TokenData → Reply
  raised : TokenError → Reply

pub record Oauth2Client : Type 0 where
  pub redirect_uri : String
  pub current_token : Option Oauth2Token

-- `__post_init__`, for a token without a time of expiry.
abbrev pub expiry : ℕ → ℕ → Option ℕ
expiry now expires_in = if expires_in == 0 then none else some (now + expires_in)

unfoldable pub is_expired : ℕ → Oauth2Token → Bool
is_expired now token = elim token.expires_at [ none ↦ false | some at ↦ leb at now ]

unfoldable pub expires_in_seconds : ℕ → Oauth2Token → ℕ
expires_in_seconds now token = elim token.expires_at [ none ↦ 0 | some at ↦ at - now ]

unfoldable pub to_dict : Oauth2Token → TokenData
to_dict token = record {
  access_token = some token.access_token;
  token_type = some token.token_type;
  expires_in = some token.expires_in;
  refresh_token = token.refresh_token;
  scope = some (scope_list token.scope);
}

-- `if self._current_token.refresh_token`
abbrev pub refresh_text : Option String → Option String
refresh_text none = none
refresh_text (some text) = if name_key.same text "" then none else some text

-- `except OAuth2Error`
abbrev pub refreshed :
    TokenResult Oauth2Token × Oauth2Client → TokenResult (Option Oauth2Token) × Oauth2Client
refreshed (got token, client) = (got (some token), client)
refreshed (failed (oauth2_error status), client) =
    (got none, record client { current_token = none })
refreshed (failed e, client) = (failed e, client)

module _ (split : String → List String) where
  -- `data.get("scope", "").split()`
  abbrev pub split_scope : Option ScopeValue → TokenResult (List String)
  split_scope none = got (split "")
  split_scope (some (scope_text text)) = got (split text)
  split_scope (some (scope_list scopes)) = failed attribute_error

  abbrev pub build :
      ℕ → String → String → ℕ → Option String → TokenResult (List String) → TokenResult Oauth2Token
  build now access_token token_type expires_in refresh_token (failed e) = failed e
  build now access_token token_type expires_in refresh_token (got scopes) = got (record {
    access_token = access_token;
    token_type = token_type;
    expires_in = expires_in;
    refresh_token = refresh_token;
    scope = scopes;
    expires_at = expiry now expires_in;
  })

  unfoldable pub from_dict : ℕ → TokenData → TokenResult Oauth2Token
  from_dict now d = elim d.access_token [
    | none ↦ failed key_error
    | some access_token ↦ elim d.token_type [
      | none ↦ failed key_error
      | some token_type ↦ elim d.expires_in [
        | none ↦ failed key_error
        | some expires_in ↦
            build now access_token token_type expires_in d.refresh_token (split_scope d.scope)
      ]
    ]
  ]

  -- What the three grants do with the endpoint's response.
  unfoldable pub store_token : ℕ → Reply → Oauth2Client → TokenResult Oauth2Token × Oauth2Client
  unfolding from_dict
  store_token now (raised e) client = (failed e, client)
  store_token now (reply status d) client =
      if status == 200
      then elim (from_dict now d) [
        | failed e ↦ (failed e, client)
        | got token ↦ (got token, record client { current_token = some token })
      ]
      else (failed (oauth2_error status), client)

  module _ (post : Grant → Reply) where
    unfoldable pub exchange_code :
        ℕ → String → Option String → Oauth2Client → TokenResult Oauth2Token × Oauth2Client
    unfolding store_token
    exchange_code now code redirect_uri client = elim (refresh_text redirect_uri) [
      | none ↦ store_token now (post (authorization_code code client.redirect_uri)) client
      | some uri ↦ store_token now (post (authorization_code code uri)) client
    ]

    unfoldable pub refresh_access_token :
        ℕ → String → Oauth2Client → TokenResult Oauth2Token × Oauth2Client
    unfolding store_token
    refresh_access_token now text client = store_token now (post (refresh_grant text)) client

    unfoldable pub get_client_credentials_token :
        ℕ → List String → Oauth2Client → TokenResult Oauth2Token × Oauth2Client
    unfolding store_token
    get_client_credentials_token now scope client =
        store_token now (post (client_credentials scope)) client

    unfoldable pub ensure_valid_token :
        ℕ → Oauth2Client → TokenResult (Option Oauth2Token) × Oauth2Client
    unfolding refresh_access_token is_expired
    ensure_valid_token now client = elim client.current_token [
      | none ↦ (got none, client)
      | some token ↦ elim (is_expired now token) [
        | false ↦ (got (some token), client)
        | true ↦ elim (refresh_text token.refresh_token) [
          | none ↦ (got (some token), client)
          | some text ↦ refreshed (refresh_access_token now text client)
        ]
      ]
    ]
