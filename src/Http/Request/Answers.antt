-- ===== src/Http/Request/Answers.antt =====
-- What a request answers, over any server.
use vaidcord.Base.{
  ℕ, ◌+◌, ◌<◌, ◌≡◌, ◌⊎◌, inl, inr, refl, sym, ap, ◌∙◌, Bool, true, false, [], ◌∷◌, leb, ◌==◌,
  ==_iff, ◌≢◌, arith, Bool-cases,
}
use mathlib.Core.Path.{subst}
use vaidcord.Base.Bytes.{Bytes}
use vaidcord.Http.Retry.{RetryPolicy, Exchange, response, failure}
use vaidcord.Http.Retry.Attempts.{outcome_of, is_retryable, all_retryable, request_with_retry_lem}
use vaidcord.Http.Request.{
  Loaded, undecodable, object, other_json, Values, Answer, data_object, data_value, decode_error,
  answer_body, answer_of, answer_response, request,
}

module _ {V E : Type 0} (values : Values V) where
  -- The attempt that decides: those before it failed in a way that asks for another, and it did not or
  -- was the last that is allowed.
  pub record Decides (p : RetryPolicy) (server : ℕ → Exchange E) (answer : Answer V E)
      : Type 0 where
    pub n : ℕ
    pub enough : n < p.max_retries
    pub before : all_retryable n 0 server ≡ true
    pub last : (is_retryable (server n) ≡ false) ⊎ (n + 1 ≡ p.max_retries)
    pub answered : answer ≡ answer_of values (outcome_of (server n))

  -- With at least one attempt allowed, a request answers with what its deciding attempt met: every
  -- attempt before it met an exception or a status of 500 or more, and it met neither or was the last.
  pub request-Decides :
      (p : RetryPolicy) (server : ℕ → Exchange E)
      → 0 < p.max_retries
      → Decides p server (request values p server)
  unfolding request
  request-Decides p server h =
      let e = request_with_retry_lem p server h in
      let z : 0 + e.n ≡ e.n = omega arith in
      let last : (is_retryable (server e.n) ≡ false) ⊎ (e.n + 1 ≡ p.max_retries) =
        subst (λ k. (is_retryable (server k) ≡ false) ⊎ (e.n + 1 ≡ p.max_retries)) z e.last in
      record {
        n = e.n;
        enough = e.enough;
        before = e.before;
        last = last;
        answered = ap (answer_of values) (e.outcome ∙ ap (λ k. outcome_of (server k)) z);
      }

  abbrev pub is_data : Answer V E → Bool
  is_data (data_object d) = true
  is_data (data_value v) = true
  is_data _ = false

  -- The data of a response: an empty object where its status is 204 or its body is empty, and else the
  -- object or the other value that the body decodes to.
  abbrev pub IsLoaded : ℕ → Bytes → Answer V E → Type 0
  IsLoaded status body (data_object d) =
      (((status ≡ 204) ⊎ (body ≡ [])) × (d ≡ []))
      ⊎ ((status ≢ 204) × (body ≢ []) × (values.loads body ≡ object d))
  IsLoaded status body (data_value v) =
      (status ≢ 204) × (body ≢ []) × (values.loads body ≡ other_json v)
  IsLoaded status body _ = ⊥

  -- The response of an attempt that a client is allowed, with a status below 400 and the data.
  pub record Succeeded (p : RetryPolicy) (server : ℕ → Exchange E) (answer : Answer V E)
      : Type 0 where
    pub n : ℕ
    pub enough : n < p.max_retries
    pub before : all_retryable n 0 server ≡ true
    pub status : ℕ
    pub body : Bytes
    pub met : server n ≡ response status body
    pub below : status < 400
    pub loaded : IsLoaded status body answer

  abbrev of_loaded : Loaded V → Answer V E
  of_loaded undecodable = decode_error
  of_loaded (object d) = data_object d
  of_loaded (other_json v) = data_value v

module _ {V : Type 0} (values : Values V) (E : Type 0) where
  of_loaded-IsLoaded :
      (status : ℕ) (body : Bytes) (l : Loaded V)
      → values.loads body ≡ l
      → status ≢ 204
      → body ≢ []
      → is_data values (of_loaded {E = E} values l) ≡ true
      → IsLoaded values status body (of_loaded {E = E} values l)
  of_loaded-IsLoaded status body undecodable e s b h = cc
  of_loaded-IsLoaded status body (object d) e s b h = inr (s, b, e)
  of_loaded-IsLoaded status body (other_json v) e s b h = (s, b, e)

  answer_body-IsLoaded :
      (status : ℕ) (body : Bytes)
      → status ≢ 204
      → is_data values (answer_body values {E = E} body) ≡ true
      → IsLoaded values status body (answer_body values {E = E} body)
  answer_body-IsLoaded status [] s h = inl (inr refl, refl)
  answer_body-IsLoaded status (b ∷ body) s h =
      of_loaded-IsLoaded status (b ∷ body) (values.loads (b ∷ body)) refl s (λ e. cc e) h

  answer_response-IsLoaded :
      (status : ℕ) (body : Bytes)
      → leb 400 status ≡ false
      → is_data values (answer_response values {E = E} status body) ≡ true
      → IsLoaded values status body (answer_response values {E = E} status body)
  unfolding answer_response
  answer_response-IsLoaded status body low h = elim (Bool-cases (status == 204)) [
    | inl e ↦ simp (low, e) (inl (inl ((==_iff status 204).0 e), refl))
    | inr e ↦
        let other : status ≢ 204 = λ q. absurd (ground (arith, q)) in
        let same : answer_response values {E = E} status body ≡ answer_body values body =
          simp (answer_response, low, e) refl in
        subst (λ a. IsLoaded values status body a) (sym same)
          (answer_body-IsLoaded status body other (ap (is_data values) (sym same) ∙ h))
  ]

module _ {V E : Type 0} (values : Values V) where
  answer-below :
      (x : Exchange E)
      → is_data values (answer_of values (outcome_of x)) ≡ true
      → (status : ℕ) × (body : Bytes) × (x ≡ response status body)
        × (status < 400)
        × IsLoaded values status body (answer_of values (outcome_of x))
  unfolding answer_of answer_response
  answer-below (failure e) h = cc
  answer-below (response status body) h = elim (Bool-cases (leb 400 status)) [
    | inr e ↦ (status, body, refl, ground arith, answer_response-IsLoaded values E status body e h)
    | inl e ↦ absurd (ground arith)
  ]

  -- With at least one attempt allowed, data that a request answers with, an object or another value, is
  -- that of a response with a status below 400, met within the attempts that are allowed and behind
  -- failures only: the empty object for a status of 204 or an empty body, else what the body decodes to.
  pub request-Succeeded :
      (p : RetryPolicy) (server : ℕ → Exchange E)
      → 0 < p.max_retries
      → is_data values (request values p server) ≡ true
      → Succeeded values p server (request values p server)
  request-Succeeded p server h k =
      let e = request-Decides values p server h in
      let (status, body, met, below, loaded) =
        answer-below (server e.n) (ap (is_data values) (sym e.answered) ∙ k) in
      record {
        n = e.n;
        enough = e.enough;
        before = e.before;
        status = status;
        body = body;
        met = met;
        below = below;
        loaded = subst (λ a. IsLoaded values status body a) (sym e.answered) loaded;
      }
