-- ===== src/Audit/Laws.antt =====
-- What the audit trail of internal/audit/logger.go says of a refused request, and what it hides of a key.
use Prim.Native.String.{◌++◌}
use aegis_ai_gateway.Prelude.{
  ◌++◌ as append, ◌*◌, ℕ, ℤ, pos, ◌+◌, ◌≤◌, ◌≡◌, refl, sym, ap, arith, String, List, [], ◌∷◌, Bool,
  true, false, Option, none, some, if-both, ltb, All, All-append, byte_length, byte_length-append,
  take_bytes-within,
}
use aegis_ai_gateway.Types.{AuthInfo}
use aegis_ai_gateway.Http.{
  write_service_unavailable_error, write_rate_limit_error, write_budget_exceeded_error,
}
use aegis_ai_gateway.Events.{
  Event, when, redis_failure, rate_limit_hit, rate_limit_violation, budget_violation,
}
use aegis_ai_gateway.Auth.Keys.{format_key}
use aegis_ai_gateway.Auth.Keys.Laws.{byte_length-format_key}
use aegis_ai_gateway.RateLimit.Breaker.{second}
use aegis_ai_gateway.RateLimit.Limiter.{check, LimitResult, RedisUnavailable, redis_unavailable}
use aegis_ai_gateway.RateLimit.Budget.{BudgetResult, check_daily_spend}
use aegis_ai_gateway.RateLimit.Middleware.{
  rpm_of, limit_headers, Setup, Limits, Replies, RateHeaders, Decision, serve_next, reject, Answer,
  after_budget, check_budget, after_check, middleware,
}
use aegis_ai_gateway.Audit.{
  AuditEvent, text_datum, Caller, audit_event, truncate_api_key, log_auth_failure,
}

truncate-format_key :
    (env random random' : String)
    → 2 ≤ byte_length env
    → truncate_api_key (format_key env random) ≡ truncate_api_key (format_key env random')
unfolding truncate_api_key format_key
truncate-format_key env random random' h =
    let front : byte_length ("aegis-" ++ env) ≡ 6 + byte_length env =
      byte_length-append "aegis-" env in
    let long : ltb 8 (byte_length (format_key env random)) ≡ true =
      ground (arith, byte_length-format_key env random, h) in
    let long' : ltb 8 (byte_length (format_key env random')) ≡ true =
      ground (arith, byte_length-format_key env random', h) in
    rw (long, long')
      (ap (λ s. s ++ "...")
        (take_bytes-within ("aegis-" ++ env) ("-" ++ random) ("-" ++ random') 8
          (omega (arith, front, h))))

-- The audit event of a failed authentication with a key of the generated form, for an environment of two
-- bytes or more, says nothing of the key's random part: it is the same for any other.
pub auth_failure_hides :
    (now : ℕ) (request_id ip user_agent env random random' reason : String)
    → 2 ≤ byte_length env
    → log_auth_failure now request_id ip user_agent (format_key env random) reason
      ≡ log_auth_failure now request_id ip user_agent (format_key env random') reason
unfolding log_auth_failure
auth_failure_hides now request_id ip user_agent env random random' reason h =
    ap
      (λ shown. record (log_auth_failure now request_id ip user_agent "" reason) {
        metadata = ("api_key_prefix", text_datum shown) ∷ [];
      })
      (truncate-format_key env random random' h)

abbrev status_of : Option AuditEvent → ℤ
status_of none = pos 0
status_of (some a) = a.status_code

module _ (now : ℕ) (c : Caller) where
  -- The event, if it goes to the audit trail, says the status.
  abbrev pub Says : ℕ → Event → Type 0
  Says status e = (a : AuditEvent) → audit_event now c e ≡ some a → a.status_code ≡ pos status

  abbrev pub Told : Decision → List Event → Type 0
  Told serve_next es = All (λ e. audit_event now c e ≡ none) es
  Told (reject r) es = All (Says r.status) es

  All-when : (P : Event → Type 0) (b : Bool) (e : Event) → P e → All P (when b e)
  All-when P true e h = (h, tt)
  All-when P false e h = tt

  -- An audit event and one of the metrics, each behind its switch.
  pair-Says :
      (b b' : Bool) (e e' : Event) (status : ℕ)
      → Says status e
      → audit_event now c e' ≡ none
      → All (Says status) (append (when b e) (when b' e'))
  pair-Says b b' e e' status says silent =
      All-append (Says status) (when b e) (when b' e') (All-when (Says status) b e says)
        (All-when (Says status) b' e' (λ a same. cc (silent, same)))

  module _ (setup : Setup) (info : AuthInfo) (replies : Replies) where
    abbrev IsTold : Answer → Type 0
    IsTold a = Told a.decision a.events

    after_budget-IsTold :
        (limits : Limits) (headers : Option RateHeaders) (result : BudgetResult)
        (unavailable : Option RedisUnavailable)
        → IsTold (after_budget setup info limits headers result unavailable)
    unfolding after_budget audit_event write_service_unavailable_error write_budget_exceeded_error
    after_budget-IsTold limits headers result (some redis_unavailable) =
        pair-Says setup.audit setup.metrics (redis_failure "budget_check")
          (rate_limit_hit "redis_unavailable" info.team_id) 503 (λ a e. sym (ap status_of e)) refl
    after_budget-IsTold limits headers result none = if-both IsTold result.allowed tt (
        pair-Says setup.audit setup.metrics (budget_violation result.spent_cents result.limit_cents)
          (rate_limit_hit "budget" info.team_id) 402 (λ a e. sym (ap status_of e)) refl)

    check_budget-IsTold :
        (limits : Limits) (headers : Option RateHeaders) (cents : Option ℤ)
        → IsTold (check_budget setup info replies limits headers cents)
    unfolding check_budget
    check_budget-IsTold limits headers none = tt
    check_budget-IsTold limits headers (some cents) =
        let (budget, result, unavailable) =
          check_daily_spend cents replies.budget_now replies.budget_done replies.spend
            limits.budget in
        after_budget-IsTold (record limits { budget = budget }) headers result unavailable

    after_check-IsTold :
        (limits : Limits) (result : LimitResult) (unavailable : Option RedisUnavailable)
        → IsTold (after_check setup info replies limits result unavailable)
    unfolding after_check audit_event write_service_unavailable_error write_rate_limit_error
    after_check-IsTold limits result (some redis_unavailable) =
        pair-Says setup.audit setup.metrics (redis_failure "rate_limit_check")
          (rate_limit_hit "redis_unavailable" info.organization_id) 503
          (λ a e. sym (ap status_of e)) refl
    after_check-IsTold limits result none =
        if-both IsTold result.allowed
          (check_budget-IsTold limits (limit_headers info result none) info.daily_spend_limit_cents)
          (pair-Says setup.audit setup.metrics (rate_limit_violation "rpm" (rpm_of info))
            (rate_limit_hit "rpm" info.organization_id) 429 (λ a e. sym (ap status_of e)) refl)

    -- The middleware that limits the rate tells the audit trail of a request only where it refuses it,
    -- and then the status of its response.
    pub middleware-IsTold :
        (limits : Limits)
        → Told
            (middleware setup (some info) replies limits).decision
            (middleware setup (some info) replies limits).events
    unfolding middleware
    middleware-IsTold limits =
        let (limiter, result, unavailable) =
          check (rpm_of info) (60 * second) replies.rate_now replies.rate_done replies.script
            limits.limiter in
        after_check-IsTold (record limits { limiter = limiter }) result unavailable
