-- ===== src/RateLimit/Middleware/Laws.antt =====
-- What passes the rate-limiting middleware of internal/ratelimit/middleware.go.
use aegis_ai_gateway.Prelude.{
  if◌then◌else◌, ok, err, ◌<ℤ◌, ℕ, pos, inr, inl, refl, Bool-cases, none, arith, ◌↔◌, true, ◌≡◌,
  some, Option, ◌*◌, ℤ,
}
use aegis_ai_gateway.Types.{AuthInfo}
use aegis_ai_gateway.Http.{
  write_service_unavailable_error, write_rate_limit_error, write_budget_exceeded_error,
}
use aegis_ai_gateway.RateLimit.Breaker.{RedisError, RedisCircuitBreaker, second}
use aegis_ai_gateway.RateLimit.Breaker.Laws.{call-circuit_open_iff}
use aegis_ai_gateway.RateLimit.Limiter.{
  ScriptReply, RedisUnavailable, LimitResult, check, redis_unavailable,
}
use aegis_ai_gateway.RateLimit.Budget.{
  GetReply, value, redis_nil, get_failed, BudgetResult, check_daily_spend,
}
use aegis_ai_gateway.RateLimit.Budget.Laws.{Refuses}
use aegis_ai_gateway.RateLimit.Middleware.{
  limit_headers, RateHeaders, ℤ, Setup, Replies, Limits, Decision, serve_next, reject, middleware,
  rpm_of, after_check, after_budget, check_budget,
}

-- What the two checks say of a request, with the key's own limits: the result, and whether Redis is
-- reported as unavailable.
abbrev pub rate_check : AuthInfo → Replies → Limits → LimitResult × Option RedisUnavailable
rate_check info replies limits =
    let (limiter, result, unavailable) =
      check (rpm_of info) (60 * second) replies.rate_now replies.rate_done replies.script
        limits.limiter in
    (result, unavailable)

abbrev pub spend_check :
    ℤ → Replies → Option RedisCircuitBreaker → BudgetResult × Option RedisUnavailable
spend_check cents replies breaker =
    let (budget, result, unavailable) =
      check_daily_spend cents replies.budget_now replies.budget_done replies.spend breaker in
    (result, unavailable)

-- Redis is not there, or the breaker lets the script run and the script allows the request.
abbrev pub RatePasses : Replies → Option RedisCircuitBreaker → Type 0
RatePasses replies none = Unit
RatePasses replies (some cb) =
    (¬ Refuses replies.rate_now cb) × ((count : ℕ) × (replies.script ≡ ok (count, true)))

-- The spend that the check goes by: an error of Redis stands for none, as no spend does.
abbrev pub counted_spend : GetReply → ℤ
counted_spend (value spent) = spent
counted_spend redis_nil = pos 0
counted_spend (get_failed e) = pos 0

-- The key has no daily limit, or Redis is not there, or the breaker lets the question through and the
-- spend that is counted is below the limit.
abbrev pub SpendPasses : Replies → Option RedisCircuitBreaker → Option ℤ → Type 0
SpendPasses replies breaker none = Unit
SpendPasses replies none (some cents) = Unit
SpendPasses replies (some cb) (some cents) =
    (¬ Refuses replies.budget_now cb) × (counted_spend replies.spend <ℤ cents)

check_iff :
    (limit : ℤ) (window now done : ℕ) (reply : ScriptReply) (cb : RedisCircuitBreaker)
    → (((check limit window now done reply (some cb)).1.allowed ≡ true)
        × ((check limit window now done reply (some cb)).2 ≡ none))
      ↔ ((¬ Refuses now cb) × ((count : ℕ) × (reply ≡ ok (count, true))))
unfolding check
check_iff limit window now done (err e) cb =
    ground (arith, call-circuit_open_iff {E = RedisError} now done none cb)
check_iff limit window now done (ok (count, allowed)) cb =
    ground (arith, call-circuit_open_iff {E = RedisError} now done none cb)

spend_iff :
    (cents : ℤ) (now done : ℕ) (reply : GetReply) (cb : RedisCircuitBreaker)
    → (((check_daily_spend cents now done reply (some cb)).1.allowed ≡ true)
        × ((check_daily_spend cents now done reply (some cb)).2 ≡ none))
      ↔ ((¬ Refuses now cb) × (counted_spend reply <ℤ cents))
unfolding check_daily_spend
spend_iff cents now done (value v) cb =
    ground (arith, call-circuit_open_iff {E = RedisError} now done none cb)
spend_iff cents now done redis_nil cb =
    ground (arith, call-circuit_open_iff {E = RedisError} now done none cb)
spend_iff cents now done (get_failed e) cb =
    ground (arith, call-circuit_open_iff now done (some e) cb)

rate_check_iff :
    (info : AuthInfo) (replies : Replies) (limits : Limits) (breaker : Option RedisCircuitBreaker)
    → limits.limiter ≡ breaker
    → (((rate_check info replies limits).0.allowed ≡ true)
        × ((rate_check info replies limits).1 ≡ none))
      ↔ RatePasses replies breaker
unfolding check
rate_check_iff info replies limits none e = rw e ((λ h. tt), (λ h. (refl, refl)))
rate_check_iff info replies limits (some cb) e = rw e (check_iff _ _ _ _ replies.script cb)

spend_check_iff :
    (cents : ℤ) (replies : Replies) (breaker : Option RedisCircuitBreaker)
    → (((spend_check cents replies breaker).0.allowed ≡ true)
        × ((spend_check cents replies breaker).1 ≡ none))
      ↔ SpendPasses replies breaker (some cents)
unfolding check_daily_spend
spend_check_iff cents replies none = ((λ h. tt), (λ h. (refl, refl)))
spend_check_iff cents replies (some cb) = spend_iff cents _ _ replies.spend cb

after_budget_iff :
    (setup : Setup) (info : AuthInfo) (limits : Limits) (headers : Option RateHeaders)
    (result : BudgetResult) (unavailable : Option RedisUnavailable)
    → ((after_budget setup info limits headers result unavailable).decision ≡ serve_next)
      ↔ ((result.allowed ≡ true) × (unavailable ≡ none))
unfolding after_budget
after_budget_iff setup info limits headers result (some redis_unavailable) = ground arith
after_budget_iff setup info limits headers result none = ground arith

check_budget_iff :
    (setup : Setup) (info : AuthInfo) (replies : Replies) (limits : Limits)
    (headers : Option RateHeaders) (cents : Option ℤ)
    → ((check_budget setup info replies limits headers cents).decision ≡ serve_next)
      ↔ SpendPasses replies limits.budget cents
unfolding check_budget
check_budget_iff setup info replies limits headers none = (λ e. tt, λ u. refl)
check_budget_iff setup info replies limits headers (some cents) =
    let asked = after_budget_iff setup info _ headers _ _ in
    let passes = spend_check_iff cents replies limits.budget in
    (λ e. passes.0 (asked.0 e), λ h. asked.1 (passes.1 h))

after_check_iff :
    (setup : Setup) (info : AuthInfo) (replies : Replies) (limits : Limits) (result : LimitResult)
    (unavailable : Option RedisUnavailable)
    → ((after_check setup info replies limits result unavailable).decision ≡ serve_next) ↔ (
        (result.allowed ≡ true)
        × (unavailable ≡ none)
        × SpendPasses replies limits.budget info.daily_spend_limit_cents)
unfolding after_check
after_check_iff setup info replies limits result (some redis_unavailable) = (λ e. cc, λ h. cc h.1)
after_check_iff setup info replies limits result none = elim (Bool-cases result.allowed) [
  | inl allowed ↦
      let within =
        check_budget_iff setup info replies limits (limit_headers info result none)
          info.daily_spend_limit_cents in
      (λ e. (allowed, refl, within.0 (rw allowed at e)), λ h. rw allowed (within.1 h.2))
  | inr denied ↦ (λ e. cc (rw denied at e), λ h. cc (denied, h.0))
]

middleware_checked_iff :
    (setup : Setup) (info : AuthInfo) (replies : Replies) (limits : Limits)
    → ((middleware setup (some info) replies limits).decision ≡ serve_next) ↔ (
        ((rate_check info replies limits).0.allowed ≡ true)
        × ((rate_check info replies limits).1 ≡ none)
        × SpendPasses replies limits.budget info.daily_spend_limit_cents)
unfolding middleware
middleware_checked_iff setup info replies limits = after_check_iff setup info replies _ _ _

-- An authenticated request reaches the next handler exactly if each of two checks passes. Of the rate: Redis
-- is not configured, or the limiter's breaker lets the script run and the script answers that it allows the
-- request. Of the budget: the key has no daily limit, or Redis is not configured, or the tracker's breaker
-- lets the question through and the spend is below the limit, where a missing key and every error of Redis
-- count as a spend of 0, although the comment in budget.go has an error fail closed.
pub middleware_serves_iff :
    (setup : Setup) (info : AuthInfo) (replies : Replies) (limits : Limits)
    → ((middleware setup (some info) replies limits).decision ≡ serve_next) ↔ (
        RatePasses replies limits.limiter
        × SpendPasses replies limits.budget info.daily_spend_limit_cents)
middleware_serves_iff setup info replies limits =
    let checked = middleware_checked_iff setup info replies limits in
    let rate = rate_check_iff info replies limits limits.limiter refl in
    (
      λ e. let (allowed, known, spend) = checked.0 e in (rate.0 (allowed, known), spend),
      λ (passes, spend). let (allowed, known) = rate.1 passes in checked.1 (allowed, known, spend),
    )

-- The status of the response where the budget is asked.
abbrev budget_status : BudgetResult × Option RedisUnavailable → Option ℕ
budget_status (result, some redis_unavailable) = some 503
budget_status (result, none) = if result.allowed then none else some 402

abbrev pub spend_status : Replies → Option RedisCircuitBreaker → Option ℤ → Option ℕ
spend_status replies breaker none = none
spend_status replies breaker (some cents) = budget_status (spend_check cents replies breaker)

abbrev pub rate_status : LimitResult × Option RedisUnavailable → Option ℕ → Option ℕ
rate_status (result, some redis_unavailable) later = some 503
rate_status (result, none) later = if result.allowed then later else some 429

abbrev pub status_of : Decision → Option ℕ
status_of serve_next = none
status_of (reject e) = some e.status

spend_after_budget :
    (setup : Setup) (info : AuthInfo) (limits : Limits) (headers : Option RateHeaders)
    (result : BudgetResult) (unavailable : Option RedisUnavailable)
    → status_of (after_budget setup info limits headers result unavailable).decision
      ≡ budget_status (result, unavailable)
unfolding after_budget write_service_unavailable_error write_budget_exceeded_error
spend_after_budget setup info limits headers result (some redis_unavailable) = refl
spend_after_budget setup info limits headers result none = ground arith

spend_status_lem :
    (setup : Setup) (info : AuthInfo) (replies : Replies) (limits : Limits)
    (headers : Option RateHeaders) (cents : Option ℤ)
    → status_of (check_budget setup info replies limits headers cents).decision
      ≡ spend_status replies limits.budget cents
unfolding check_budget
spend_status_lem setup info replies limits headers none = refl
spend_status_lem setup info replies limits headers (some cents) =
    let (breaker, result, unavailable) =
      check_daily_spend cents replies.budget_now replies.budget_done replies.spend limits.budget in
    spend_after_budget setup info (record limits { budget = breaker }) headers result unavailable

rate_status_lem :
    (setup : Setup) (info : AuthInfo) (replies : Replies) (limits : Limits) (result : LimitResult)
    (unavailable : Option RedisUnavailable)
    → status_of (after_check setup info replies limits result unavailable).decision
      ≡ rate_status
          (result, unavailable)
          (spend_status replies limits.budget info.daily_spend_limit_cents)
unfolding after_check write_service_unavailable_error write_rate_limit_error
rate_status_lem setup info replies limits result (some redis_unavailable) = refl
rate_status_lem setup info replies limits result none = elim (Bool-cases result.allowed) [
  | inl allowed ↦
      rw allowed (spend_status_lem setup info replies limits _ info.daily_spend_limit_cents)
  | inr denied ↦ rw denied
]

-- The status of a rejected request: 503 if the rate check finds Redis unavailable, 429 if it denies;
-- only then is the budget asked, with 503 if that check finds Redis unavailable and 402 if it denies.
pub middleware_status :
    (setup : Setup) (info : AuthInfo) (replies : Replies) (limits : Limits)
    → status_of (middleware setup (some info) replies limits).decision
      ≡ rate_status
          (rate_check info replies limits)
          (spend_status replies limits.budget info.daily_spend_limit_cents)
unfolding middleware
middleware_status setup info replies limits =
    let (limiter, result, unavailable) =
      check (rpm_of info) (60 * second) replies.rate_now replies.rate_done replies.script
        limits.limiter in
    rate_status_lem setup info replies (record limits { limiter = limiter }) result unavailable

-- A request within its rate is served when Redis fails to answer the budget check, whatever its team
-- has spent, if the team's limit is positive and the tracker's breaker lets the question through.
pub budget_outage_served :
    (setup : Setup) (info : AuthInfo) (replies : Replies) (limits : Limits) (cents : ℤ)
    (cb : RedisCircuitBreaker) (e : RedisError)
    → (rate_check info replies limits).0.allowed ≡ true
    → (rate_check info replies limits).1 ≡ none
    → info.daily_spend_limit_cents ≡ some cents
    → limits.budget ≡ some cb
    → ¬ Refuses replies.budget_now cb
    → replies.spend ≡ get_failed e
    → pos 0 <ℤ cents
    → (middleware setup (some info) replies limits).decision ≡ serve_next
budget_outage_served setup info replies limits cents cb e allowed known limit breaker live failed
      positive =
    (middleware_checked_iff setup info replies limits).1
      (allowed, known, rw (limit, breaker, failed) (live, positive))
