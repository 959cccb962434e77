-- ===== src/RateLimit/Middleware.antt =====
-- internal/ratelimit/middleware.go: the rate limit, then the budget, then the next handler.
pub mod Laws
use aegis_ai_gateway.Prelude.{
  ◌/◌, ◌*◌, ℕ, ℤ, pos, String, List, [], ◌∷◌, ◌++◌, Bool, true, false, Option, some, none,
  if◌then◌else◌,
}
use aegis_ai_gateway.Types.{AuthInfo}
use aegis_ai_gateway.Http.{
  ErrorResponse, plain, rate_exceeded, budget_exceeded, write_service_unavailable_error,
  write_rate_limit_error, write_budget_exceeded_error,
}
use aegis_ai_gateway.Events.{
  Event, when, redis_failure, rate_limit_hit, rate_limit_violation, budget_violation,
}
use aegis_ai_gateway.RateLimit.Breaker.{RedisCircuitBreaker, second}
use aegis_ai_gateway.RateLimit.Limiter.{
  LimitResult, RedisUnavailable, redis_unavailable, ScriptReply, check,
}
use aegis_ai_gateway.RateLimit.Budget.{BudgetResult, GetReply, check_daily_spend}

abbrev pub default_rpm : ℤ
default_rpm = pos 60

-- The breakers of the limiter and of the budget tracker; `none` where Redis is not configured.
pub record Limits : Type 0 where
  pub limiter : Option RedisCircuitBreaker
  pub budget : Option RedisCircuitBreaker

-- What Redis answers to the two questions, and the times when each is asked and answered.
pub record Replies : Type 0 where
  pub script : ScriptReply
  pub spend : GetReply
  pub rate_now : ℕ
  pub rate_done : ℕ
  pub budget_now : ℕ
  pub budget_done : ℕ

pub record RateHeaders : Type 0 where
  pub limit_requests : ℤ
  pub remaining_requests : ℤ
  pub reset_requests : ℕ
  pub retry_after : Option ℕ

-- `reject` is the response that is written; `serve_next` calls the next handler.
pub data Decision : Type 0 where
  serve_next : Decision
  reject : ErrorResponse → Decision

pub record Answer : Type 0 where
  pub limits : Limits
  pub headers : Option RateHeaders
  pub events : List Event
  pub decision : Decision

-- The request's id, and whether the audit logger and the metrics are there.
pub record Setup : Type 0 where
  pub request_id : String
  pub audit : Bool
  pub metrics : Bool

abbrev pub rpm_of : AuthInfo → ℤ
rpm_of info = elim info.rpm_limit [ none ↦ default_rpm | some limit ↦ limit ]

abbrev pub limit_headers : AuthInfo → LimitResult → Option ℕ → Option RateHeaders
limit_headers info result retry_after = some (record {
  limit_requests = rpm_of info;
  remaining_requests = result.remaining;
  reset_requests = result.reset_at;
  retry_after = retry_after;
})

-- The tests after `CheckDailySpend`.
unfoldable pub after_budget :
    Setup → AuthInfo → Limits → Option RateHeaders → BudgetResult → Option RedisUnavailable → Answer
after_budget setup info limits headers result (some redis_unavailable) = record {
  limits = limits;
  headers = headers;
  events =
      when setup.audit (redis_failure "budget_check")
      ++ when setup.metrics (rate_limit_hit "redis_unavailable" info.team_id);
  decision = reject (
      write_service_unavailable_error setup.request_id
        (plain "Budget tracking service temporarily unavailable. Please try again in 30 seconds."));
}
after_budget setup info limits headers result none =
    if result.allowed
    then record { limits = limits; headers = headers; events = []; decision = serve_next }
    else record {
      limits = limits;
      headers = headers;
      events =
          when setup.audit (budget_violation result.spent_cents result.limit_cents)
          ++ when setup.metrics (rate_limit_hit "budget" info.team_id);
      decision = reject (
          write_budget_exceeded_error setup.request_id
            (budget_exceeded result.spent_cents result.limit_cents));
    }

-- The budget, where the key has a limit.
unfoldable pub check_budget :
    Setup → AuthInfo → Replies → Limits → Option RateHeaders → Option ℤ → Answer
unfolding after_budget
check_budget setup info replies limits headers none = record {
  limits = limits;
  headers = headers;
  events = [];
  decision = serve_next;
}
check_budget setup info replies limits headers (some cents) =
    let (budget, result, unavailable) =
      check_daily_spend cents replies.budget_now replies.budget_done replies.spend limits.budget in
    after_budget setup info (record limits { budget = budget }) headers result unavailable

-- The tests after `limiter.Check`.
unfoldable pub after_check :
    Setup → AuthInfo → Replies → Limits → LimitResult → Option RedisUnavailable → Answer
unfolding check_budget
after_check setup info replies limits result (some redis_unavailable) = record {
  limits = limits;
  headers = none;
  events =
      when setup.audit (redis_failure "rate_limit_check")
      ++ when setup.metrics (rate_limit_hit "redis_unavailable" info.organization_id);
  decision = reject (
      write_service_unavailable_error setup.request_id
        (plain "Rate limiting service temporarily unavailable. Please try again in 30 seconds."));
}
after_check setup info replies limits result none =
    if result.allowed
    then check_budget setup info replies limits (limit_headers info result none)
        info.daily_spend_limit_cents
    else record {
      limits = limits;
      headers = limit_headers info result (some (result.retry_after / second));
      events =
          when setup.audit (rate_limit_violation "rpm" (rpm_of info))
          ++ when setup.metrics (rate_limit_hit "rpm" info.organization_id);
      decision =
          reject
            (write_rate_limit_error setup.request_id (rate_exceeded (rpm_of info) result.reset_at));
    }

-- The handler; `none` is a request with no auth info, which the auth middleware has let by.
unfoldable pub middleware : Setup → Option AuthInfo → Replies → Limits → Answer
unfolding after_check
middleware setup none replies limits = record {
  limits = limits;
  headers = none;
  events = [];
  decision = serve_next;
}
middleware setup (some info) replies limits =
    let (limiter, result, unavailable) =
      check (rpm_of info) (60 * second) replies.rate_now replies.rate_done replies.script
        limits.limiter in
    after_check setup info replies (record limits { limiter = limiter }) result unavailable
