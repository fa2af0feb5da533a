-- ===== src/Oauth2/Examples.antt =====
-- A client whose token has expired, and an endpoint that refreshes it.
use Prim.Native.String.{String}
use vaidcord.Base.{◌≡◌, refl, true, some, List, [], ◌∷◌}
use vaidcord.Oauth2.{
  Oauth2Token, scope_text, got, Grant, Reply, reply, Oauth2Client, from_dict, is_expired,
  store_token, refresh_access_token, ensure_valid_token,
}
use vaidcord.Oauth2.Valid.{is_usable, ensure_valid_token_lem}

abbrev one_word : String → List String
one_word text = text ∷ []

abbrev post : Grant → Reply
post grant = reply 200 (record {
  access_token = some "new";
  token_type = some "Bearer";
  expires_in = some 3600;
  refresh_token = some "again";
  scope = some (scope_text "identify");
})

abbrev old_token : Oauth2Token
old_token = record {
  access_token = "old";
  token_type = "Bearer";
  expires_in = 60;
  refresh_token = some "refresh";
  scope = [];
  expires_at = some 100;
}

abbrev new_token : Oauth2Token
new_token = record {
  access_token = "new";
  token_type = "Bearer";
  expires_in = 3600;
  refresh_token = some "again";
  scope = "identify" ∷ [];
  expires_at = some 3700;
}

abbrev client : Oauth2Client
client = record { redirect_uri = "https://example.org"; current_token = some old_token }

refreshes : (ensure_valid_token one_word post 100 client).0 ≡ got (some new_token)
unfolding ensure_valid_token refresh_access_token store_token from_dict is_expired
refreshes = refl

ensure_valid_token_lem_example :
    ((ensure_valid_token one_word post 100 client).1.current_token ≡ some new_token)
    × (is_usable one_word 100 (some new_token) ≡ true)
ensure_valid_token_lem_example =
    ensure_valid_token_lem one_word post 100 client (some new_token) refreshes
