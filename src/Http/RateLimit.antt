-- ===== src/Http/RateLimit.antt =====
-- `_check_rate_limit` of vaidcord-py/src/vaidcord/http/client.py and vaidcord/http/rate_limit.py. Times
-- are numbers of one unit, read as naive datetimes are: from a clock that does not run back.
use Prim.Native.String.{String}
use vaidcord.Base.{
  ℕ, ◌-◌, ◌+◌, ◌<◌, ◌==◌, ◌≡◌, refl, Bool, true, not, ◌&&◌, Option, none, some, List, [], ◌∷◌,
  if◌then◌else◌, ltb, arith,
}
use vaidcord.Base.Dict.{insert}
use vaidcord.Base.Names.{name_key}

pub record RateLimitInfo : Type 0 where
  pub limit : ℕ
  pub remaining : ℕ
  pub reset_after : ℕ
  pub reset : ℕ
  pub bucket : Option String

-- The headers of a response, a missing number being 0.
pub record Headers : Type 0 where
  pub limit : ℕ
  pub remaining : ℕ
  pub reset_after : ℕ
  pub reset : ℕ
  pub bucket : Option String
  pub is_global : Bool

pub record RateLimitManager : Type 0 where
  pub limits : List (String × RateLimitInfo)
  pub global_reset : Option ℕ

-- What a call sleeps, and what it leaves.
unfoldable pub check_rate_limit : String → Headers → ℕ → RateLimitManager → ℕ × RateLimitManager
check_rate_limit route headers now m =
    let reset = if headers.reset == 0 then now else headers.reset in
    let info : RateLimitInfo = record {
      limit = headers.limit;
      remaining = headers.remaining;
      reset_after = headers.reset_after;
      reset = reset;
      bucket = headers.bucket;
    } in
    (
      if headers.remaining == 0 then headers.reset_after else 0,
      record {
        limits = insert route info m.limits;
        global_reset = if headers.is_global then some reset else m.global_reset;
      },
    )

-- How long `wait_for_global` sleeps at a time.
unfoldable pub wait_for_global : ℕ → RateLimitManager → ℕ
wait_for_global now m = elim m.global_reset [
  | none ↦ 0
  | some reset ↦ if ltb now reset then reset - now else 0
]

-- The responses after, each with its route and its time.
abbrev pub check_all : List (String × Headers × ℕ) → RateLimitManager → RateLimitManager
check_all [] m = m
check_all ((route, headers, now) ∷ rest) m = check_all rest (check_rate_limit route headers now m).1

abbrev pub none_global : List (String × Headers × ℕ) → Bool
none_global [] = true
none_global ((route, headers, now) ∷ rest) = not headers.is_global && none_global rest

global_reset-check_all :
    (rest : List (String × Headers × ℕ)) (m : RateLimitManager)
    → none_global rest ≡ true
    → (check_all rest m).global_reset ≡ m.global_reset
unfolding check_rate_limit
global_reset-check_all [] m h = refl
global_reset-check_all ((route, headers, now) ∷ rest) m h =
    let ih = global_reset-check_all rest (check_rate_limit route headers now m).1 (ground arith) in
    ground arith

-- After a response that says that the limit is global and gives a reset, and any responses that are not
-- global, a request that waits at any time is made at that reset, or at once if it has passed.
pub wait_for_global-check_rate_limit :
    (route : String) (headers : Headers) (now later : ℕ) (m : RateLimitManager)
    (rest : List (String × Headers × ℕ))
    → headers.is_global ≡ true
    → 0 < headers.reset
    → none_global rest ≡ true
    → later + wait_for_global later (check_all rest (check_rate_limit route headers now m).1)
      ≡ (if ltb later headers.reset then headers.reset else later)
unfolding wait_for_global check_rate_limit
wait_for_global-check_rate_limit route headers now later m rest h k n =
    let g = global_reset-check_all rest (check_rate_limit route headers now m).1 n in ground arith
