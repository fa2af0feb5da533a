-- ===== src/Oauth2/Valid.antt =====
-- Which token `ensure_valid_token` gives.
use Prim.Native.String.{String}
use mathlib.Core.Path.{subst}
use vaidcord.Base.{
  ℕ, ◌≡◌, inl, inr, refl, sym, ap, ◌∙◌, Bool, true, false, not, ◌||◌, is_some, Option, none, some,
  List, arith, Bool-cases, Option-cases,
}
use vaidcord.Oauth2.{
  Oauth2Token, TokenData, oauth2_error, TokenResult, got, failed, Grant, refresh_grant, Reply,
  reply, raised, Oauth2Client, is_expired, to_dict, refresh_text, from_dict, store_token,
  refresh_access_token, refreshed, ensure_valid_token, attribute_error, key_error, other_error,
}

module _ (split : String → List String) where
  -- A token that comes from the endpoint is stored and has not expired.
  record Fresh (now : ℕ) (token : Oauth2Token) (client : Oauth2Client) : Type 0 where
    stored : client.current_token ≡ some token
    lives : is_expired now token ≡ false

  from_dict-lives :
      (now : ℕ) (d : TokenData) (token : Oauth2Token)
      → from_dict split now d ≡ got token
      → is_expired now token ≡ false
  unfolding from_dict is_expired
  from_dict-lives now d token h = ground arith

  store_token-Fresh :
      (now : ℕ) (r : Reply) (client : Oauth2Client) (token : Oauth2Token)
      → (store_token split now r client).0 ≡ got token
      → Fresh now token (store_token split now r client).1
  unfolding store_token
  store_token-Fresh now (raised e) client token h = cc
  store_token-Fresh now (reply status d) client token h = record {
    stored = ground arith;
    lives = from_dict-lives now d token (ground arith);
  }

  -- Not expired, or without a refresh token.
  abbrev pub is_usable : ℕ → Option Oauth2Token → Bool
  is_usable now none = true
  is_usable now (some token) =
      not (is_expired now token) || not (is_some (refresh_text token.refresh_token))

  usable_fresh :
      (now : ℕ) (token : Oauth2Token)
      → is_expired now token ≡ false
      → is_usable now (some token) ≡ true
  usable_fresh now token h = rw h refl

  refreshed_lem :
      (now : ℕ) (r : TokenResult Oauth2Token) (client : Oauth2Client) (found : Option Oauth2Token)
      → ((token : Oauth2Token) → r ≡ got token → Fresh now token client)
      → (refreshed (r, client)).0 ≡ got found
      → ((refreshed (r, client)).1.current_token ≡ found) × (is_usable now found ≡ true)
  refreshed_lem now (got token) client found f h =
      let e : some token ≡ found = ground arith in
      let k = f token refl in
      (k.stored ∙ e, subst (λ o. is_usable now o ≡ true) e (usable_fresh now token k.lives))
  refreshed_lem now (failed (oauth2_error status)) client found f h =
      let e : none ≡ found = ground arith in (e, subst (λ o. is_usable now o ≡ true) e refl)
  refreshed_lem now (failed key_error) client found f h = cc
  refreshed_lem now (failed attribute_error) client found f h = cc
  refreshed_lem now (failed other_error) client found f h = cc

  -- Where `ensure_valid_token` returns, what it returns is the client's token afterwards, if there is
  -- one, and a token that has expired is returned only if it has no refresh token.
  pub ensure_valid_token_lem :
      (post : Grant → Reply) (now : ℕ) (client : Oauth2Client) (found : Option Oauth2Token)
      → (ensure_valid_token split post now client).0 ≡ got found
      → ((ensure_valid_token split post now client).1.current_token ≡ found)
        × (is_usable now found ≡ true)
  unfolding ensure_valid_token refresh_access_token
  ensure_valid_token_lem post now client found h = elim (Option-cases client.current_token) [
    | inl e ↦ ground arith
    | inr (token, e) ↦ elim (Bool-cases (is_expired now token)) [
      | inr x ↦ let u = usable_fresh now token x in ground arith
      | inl x ↦ elim (Option-cases (refresh_text token.refresh_token)) [
        | inl n ↦ ground arith
        | inr (text, t) ↦
            let s = store_token split now (post (refresh_grant text)) client in
            let step : ensure_valid_token split post now client ≡ refreshed s = ground arith in
            rw step (
              refreshed_lem now s.0 s.1 found
                (store_token-Fresh now (post (refresh_grant text)) client)
                (sym (ap (λ (q : TokenResult (Option Oauth2Token) × Oauth2Client). q.0) step) ∙ h))
      ]
    ]
  ]

  -- The dict of any token is refused by `from_dict`: its scope is a list, which has no `split`.
  pub from_dict-to_dict_raises :
      (now : ℕ) (token : Oauth2Token) → from_dict split now (to_dict token) ≡ failed attribute_error
  unfolding from_dict to_dict
  from_dict-to_dict_raises now token = refl
