-- ===== src/RateLimit/Budget.antt =====
-- internal/ratelimit/budget.go: the daily spend of each team, in cents, under one key in Redis. The
-- key's text (team and day) is given; Redis holds an int64 under it, or nothing.
pub mod Laws
use aegis_ai_gateway.Prelude.{
  ◌*◌, ◌+◌, ◌+ℤ◌, leb_ℤ, ◌||◌, not, ltb_ℤ, if◌then◌else◌, true, none, pos, some, ℕ, false, ℤ, Bool,
  Option,
}
use aegis_ai_gateway.RateLimit.Breaker.{
  RedisCircuitBreaker, call, CallError, circuit_open, operation_error, RedisError,
}
use aegis_ai_gateway.RateLimit.Limiter.{RedisUnavailable, redis_unavailable}

pub record BudgetResult : Type 0 where
  pub allowed : Bool
  pub spent_cents : ℤ
  pub limit_cents : ℤ

-- What `Get(key).Int64()` gives: a value, `redis.Nil` where there is no key, or another error.
pub data GetReply : Type 0 where
  value : ℤ → GetReply
  redis_nil : GetReply
  get_failed : RedisError → GetReply

-- The closure handed to `Call`: its error, and the value that it assigns to `spent` if it gets so
-- far. On an error other than `redis.Nil` it returns before either assignment; `Int64` gives 0 with
-- `redis.Nil`. What is assigned to `getErr` is nil or `redis.Nil` alone.
abbrev closure_error : GetReply → Option RedisError
closure_error (get_failed e) = some e
closure_error _ = none

abbrev spent_after : GetReply → ℤ
spent_after (value v) = v
spent_after redis_nil = pos 0
spent_after (get_failed e) = pos 0

pub data GetErr : Type 0 where
  get_nil get_redis_nil : GetErr
  get_other : RedisError → GetErr

abbrev get_err_after : GetReply → GetErr
get_err_after redis_nil = get_redis_nil
get_err_after _ = get_nil

abbrev denied : ℤ → BudgetResult × Option RedisUnavailable
denied limit =
    (record { allowed = false; spent_cents = pos 0; limit_cents = limit }, some redis_unavailable)

-- The tests after the call. `err` itself is looked at only for `ErrCircuitOpen`.
abbrev verdict :
    Option (CallError RedisError) → GetErr → ℤ → ℤ → BudgetResult × Option RedisUnavailable
verdict (some circuit_open) get_err spent limit = denied limit
verdict _ (get_other e) spent limit = denied limit
verdict _ _ spent limit =
    (record { allowed = ltb_ℤ spent limit; spent_cents = spent; limit_cents = limit }, none)

-- `CheckDailySpend`, with no breaker where Redis is not configured. If the breaker refuses, the
-- closure does not run and its variables keep their zero values.
unfoldable pub check_daily_spend :
    (limit : ℤ) (now done : ℕ)
    → GetReply
    → Option RedisCircuitBreaker
    → Option RedisCircuitBreaker × BudgetResult × Option RedisUnavailable
check_daily_spend limit now done reply none =
    (none, record { allowed = true; spent_cents = pos 0; limit_cents = limit }, none)
check_daily_spend limit now done reply (some cb) =
    let (cb', failed) = call now done (closure_error reply) cb in
    let (result, unavailable) = verdict failed (get_err_after reply) (spent_after reply) limit in
    (some cb', result, unavailable)

-- The value under a key with the time when it expires.
pub record Counter : Type 0 where
  pub cents : ℤ
  pub expires_at : ℕ

abbrev pub spent_in : Option Counter → ℤ
spent_in none = pos 0
spent_in (some c) = c.cents

-- `RecordSpend`: `IncrBy` and `Expire` in one pipeline, which Redis runs in order. `end_of_day` is the
-- next midnight in UTC. `none` is a missing or expired key.
unfoldable pub record_spend : Bool → ℤ → (end_of_day : ℕ) → Option Counter → Option Counter
record_spend configured cost end_of_day old =
    if not configured || leb_ℤ cost (pos 0)
    then old
    else some
        (record { cents = spent_in old +ℤ cost; expires_at = end_of_day + 3600 * 1_000_000_000 })
