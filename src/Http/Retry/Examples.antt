-- ===== src/Http/Retry/Examples.antt =====
-- A server that fails twice and then answers.
use vaidcord.Base.{ℕ, zero, suc, ◌≡◌, refl, [], ◌∷◌, arith}
use vaidcord.Http.Retry.{
  RetryPolicy, should_retry, delay_for, Exchange, response, failure, returned, loop,
  request_with_retry,
}
use vaidcord.Http.Retry.Attempts.{Ends, request_with_retry_lem}

abbrev policy : RetryPolicy
policy = record { max_retries = 3; base_delay = 1 }

abbrev server : ℕ → Exchange ℕ
server zero = response 503 []
server (suc zero) = failure 7
server (suc (suc n)) = response 200 (1 ∷ [])

answered_third :
    request_with_retry policy server
    ≡ (returned 200 (1 ∷ []), record { attempts = 3; slept = 1 ∷ 2 ∷ [] })
unfolding request_with_retry loop should_retry delay_for
answered_third = refl

request_with_retry_lem_example :
    Ends policy server 3 0 (record { attempts = 0; slept = [] }) (request_with_retry policy server)
request_with_retry_lem_example = request_with_retry_lem policy server (omega arith)
