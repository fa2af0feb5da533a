-- ===== src/Http/Request/Examples.antt =====
-- A server that fails once and then answers, with numbers for JSON values.
use vaidcord.Http.RateLimit.{Headers}
use vaidcord.Base.{none, true, false, ℕ, zero, suc, ◌≡◌, refl, [], ◌∷◌, arith}
use vaidcord.Http.Retry.{RetryPolicy, should_retry, Exchange, response, loop, request_with_retry}
use vaidcord.Http.Request.{Values, object, data_object, request, answer_of, answer_response}
use vaidcord.Http.Request.Answers.{is_data, Succeeded, request-Succeeded}

abbrev values : Values ℕ
values = record {
  number = λ n. n;
  text_of = λ b. 0;
  unknown_error = 1;
  loads = λ b. object (("id", 7) ∷ []);
}

abbrev policy : RetryPolicy
policy = record { max_retries = 3; base_delay = 1 }

abbrev server : ℕ → Exchange ℕ
server zero = response 503 []
server (suc n) = response 200 (1 ∷ [])

answered_second : request values policy server ≡ data_object (("id", 7) ∷ [])
unfolding request answer_of answer_response request_with_retry loop should_retry
answered_second = refl

answers_data : is_data values (request values policy server) ≡ true
unfolding request answer_of answer_response request_with_retry loop should_retry
answers_data = refl

request-Succeeded_example : Succeeded values policy server (request values policy server)
request-Succeeded_example = request-Succeeded values policy server (omega arith) answers_data

abbrev global_limit : Headers
global_limit = record {
  limit = 5;
  remaining = 0;
  reset_after = 2;
  reset = 120;
  bucket = none;
  is_global = true;
}

abbrev route_limit : Headers
route_limit = record {
  limit = 5;
  remaining = 4;
  reset_after = 2;
  reset = 130;
  bucket = none;
  is_global = false;
}
