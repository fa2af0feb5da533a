-- ===== src/Http/Retry.antt =====
-- vaidcord-py/src/vaidcord/http/retry.py and the loop of `_request_with_retry` in http/client.py. What
-- an attempt meets is a parameter, by its number from 0; delays are natural numbers. The sleeps and
-- the headers of rate limits are left out.
pub mod Attempts
mod Examples
use vaidcord.Base.{
  ℕ, zero, suc, ◌+◌, ◌-◌, ◌*◌, ◌^◌, ◌≤◌, ◌<◌, ◌≡◌, ◌⊎◌, inl, inr, refl, sym, ap, ◌∙◌, Bool, true,
  false, not, ◌&&◌, ◌||◌, Option, none, some, List, [], ◌∷◌, ◌++◌, if◌then◌else◌, ltb, leb, arith,
  Bool-cases, ◌==◌,
}
use mathlib.Core.List.{append_assoc, append-nil}
use vaidcord.Base.Bytes.{Bytes}

pub record RetryPolicy : Type 0 where
  pub max_retries : ℕ
  pub base_delay : ℕ

abbrev pub below_500 : Option ℕ → Bool
below_500 none = false
below_500 (some status) = ltb status 500

unfoldable pub should_retry : RetryPolicy → ℕ → Option ℕ → Bool
should_retry p attempt status =
    if leb p.max_retries attempt then false else (if below_500 status then false else true)

unfoldable pub delay_for : RetryPolicy → ℕ → ℕ
delay_for p attempt = p.base_delay * 2 ^ (attempt - 1)

-- A response, or a `TimeoutError` or `ClientError`, of which `E` tells the exceptions apart.
pub data Exchange (E : Type 0) : Type 0 where
  response : ℕ → Bytes → Exchange E
  failure : E → Exchange E

pub data Outcome (E : Type 0) : Type 0 where
  returned : ℕ → Bytes → Outcome E
  raised : E → Outcome E
  unexpected : Outcome E

-- The attempts made and the delays slept, in order.
pub record Trace : Type 0 where
  pub attempts : ℕ
  pub slept : List ℕ

abbrev pub note_attempt : Trace → Trace
note_attempt t = record t { attempts = t.attempts + 1 }

abbrev pub note_delay : ℕ → Trace → Trace
note_delay d t = record t { slept = t.slept ++ d ∷ [] }

module _ {E : Type 0} where
  -- What follows the loop.
  abbrev pub after_loop : Option E → Outcome E
  after_loop none = unexpected
  after_loop (some e) = raised e

  -- One round decides to go on, `inl` with the exception if there was one, or ends with `inr`.
  abbrev pub decide : RetryPolicy → ℕ → Option E → Exchange E → Option E ⊎ Outcome E
  decide p attempt last (response status body) =
      if leb 500 status && should_retry p attempt (some status)
      then inl last
      else inr (returned status body)
  decide p attempt last (failure e) =
      if should_retry p attempt none then inl (some e) else inr (raised e)

  -- `for attempt in range(max_retries)` with so many rounds left.
  unfoldable pub loop :
      ℕ → ℕ → RetryPolicy → (ℕ → Exchange E) → Option E → Trace → Outcome E × Trace
  loop zero attempt p server last t = (after_loop last, t)
  loop (suc rounds) attempt p server last t = elim (decide p (attempt + 1) last (server attempt)) [
    | inl last' ↦
        loop rounds (attempt + 1) p server last'
          (note_delay (delay_for p (attempt + 1)) (note_attempt t))
    | inr outcome ↦ (outcome, note_attempt t)
  ]

  unfoldable pub request_with_retry : RetryPolicy → (ℕ → Exchange E) → Outcome E × Trace
  request_with_retry p server =
      loop p.max_retries 0 p server none (record { attempts = 0; slept = [] })
