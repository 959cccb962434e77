-- ===== src/Tests/RateLimits.antt =====
-- The rate limit, the budget and the Redis breaker of internal/ratelimit at concrete inputs.
use aegis_ai_gateway.Prelude.{
  pos_part, ◌<◌, refl, String, none, ◌↔◌, ◌≤◌, true, arith, pos, ℕ, List, ok, ◌∷◌, [], ◌≡◌, some,
}
use aegis_ai_gateway.Types.{AuthInfo}
use aegis_ai_gateway.RateLimit.Breaker.{
  CircuitState, RedisCircuitBreaker, state_half_open, redis_error,
}
use aegis_ai_gateway.RateLimit.Limiter.{run_script}
use aegis_ai_gateway.RateLimit.Limiter.Window.{Request, recent, serve_all}
use aegis_ai_gateway.RateLimit.Limiter.Runs.{InOrder, empty, window_bound, allowed_iff}
use aegis_ai_gateway.RateLimit.Budget.{get_failed}
use aegis_ai_gateway.RateLimit.Middleware.{Setup, Replies, Limits, middleware, serve_next}
use aegis_ai_gateway.RateLimit.Middleware.Laws.{RatePasses, SpendPasses, middleware_serves_iff}

abbrev request : ℕ → String → Request
request at member = record { at = at; member = member }

-- Three requests, at 10, 11 and 12 seconds.
abbrev requests : List Request
requests =
    request 10_000_000 "10000000:1"
    ∷ request 11_000_000 "11000000:2"
    ∷ request 12_000_000 "12000000:3"
    ∷ []

abbrev minute : ℕ
minute = 60_000_000_000

abbrev with_state : CircuitState → RedisCircuitBreaker
with_state state = record {
  state = state;
  failures = 3;
  last_failure_time = 100;
  last_success_time = 50;
  consecutive_success = 0;
  failure_threshold = 3;
  success_threshold = 2;
  timeout = minute;
  health_check_interval = 5;
}

abbrev pub setup : Setup
setup = record { request_id = "r1"; audit = true; metrics = true }

abbrev pub info : AuthInfo
info = record {
  key_id = "k";
  organization_id = "o";
  team_id = "t";
  user_id = "u";
  max_classification = "PUBLIC";
  allowed_models = [];
  rpm_limit = none;
  tpm_limit = none;
  daily_spend_limit_cents = some (pos 500);
}

-- Redis allows the request as the fourth of its minute, and fails to give the spend.
abbrev pub replies : Replies
replies = record {
  script = ok (4, true);
  spend = get_failed redis_error;
  rate_now = 200;
  rate_done = 201;
  budget_now = 202;
  budget_done = 203;
}

abbrev pub limits : Limits
limits = record {
  limiter = some (with_state state_half_open);
  budget = some (with_state state_half_open);
}

requests-InOrder : InOrder 0 requests
requests-InOrder =
    (omega arith, (refl, (refl, tt)), (omega arith, (refl, tt), (omega arith, tt, tt)))

window_bound_example :
    recent minute 12_000_000 (serve_all (pos 2) minute empty requests).log ≤ pos_part (pos 2)
window_bound_example =
    window_bound (pos 2) minute 12_000_000 requests requests-InOrder (omega arith)

allowed_iff_example :
    ((run_script
        (pos 2)
        minute
        (request 13_000_000 "13000000:4").at
        (request 13_000_000 "13000000:4").member
        (serve_all (pos 2) minute empty requests).bucket).2
      ≡ true)
    ↔ (recent minute
          (request 13_000_000 "13000000:4").at
          (serve_all (pos 2) minute empty requests).log
        < pos_part (pos 2))
allowed_iff_example =
    allowed_iff (pos 2) minute requests (request 13_000_000 "13000000:4") requests-InOrder
      (omega arith)

middleware_serves_iff_example :
    ((middleware setup (some info) replies limits).decision ≡ serve_next) ↔ (
      RatePasses replies limits.limiter
      × SpendPasses replies limits.budget info.daily_spend_limit_cents)
middleware_serves_iff_example = middleware_serves_iff setup info replies limits
