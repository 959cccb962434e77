-- ===== src/Server/Ids.antt =====
-- The id that `requestIDMiddleware` of cmd/gateway/main.go gives a request, in what is answered.
use aegis_ai_gateway.Prelude.{
  str_eq, Bool-cases, inl, inr, trim_prefix, ◌*◌, Float64, String, Bool, true, Option, none, some,
  Result, ok, err, List, ◌≡◌, refl, ℤ, if-both,
}
use aegis_ai_gateway.Types.{AuthInfo}
use aegis_ai_gateway.Http.{
  ErrorResponse, write_auth_error, write_internal_error, write_service_unavailable_error,
  write_rate_limit_error, write_budget_exceeded_error,
}
use aegis_ai_gateway.Auth.{Row, Verdict, admit, refuse, judge_row, authenticate, lookup_via}
use aegis_ai_gateway.RateLimit.Breaker.{second}
use aegis_ai_gateway.RateLimit.Limiter.{check, LimitResult, RedisUnavailable, redis_unavailable}
use aegis_ai_gateway.RateLimit.Budget.{BudgetResult, check_daily_spend}
use aegis_ai_gateway.RateLimit.Middleware.{
  rpm_of, limit_headers, Setup, Limits, Replies, RateHeaders, Decision, serve_next, reject, Answer,
  after_budget, check_budget, after_check, middleware,
}
use aegis_ai_gateway.Gateway.{Effect}
use aegis_ai_gateway.Gateway.Parts.{Formats}
use aegis_ai_gateway.Gateway.Models.{ModelObject, list_models}
use aegis_ai_gateway.Gateway.Handler.Ids.{Carries, chat_completions-Carries}
use aegis_ai_gateway.Server.{
  Protected, chat, models, Endpoint, health_check, protected, endpoint, Request, Server,
  ServerState, Content, health, denied, completion, listing, unrouted, Response, request_id_of,
  incoming_as, limited, guarded, serve_protected, dispatch, serve,
}

abbrev pub ListingCarries : String → Result ErrorResponse (List ModelObject) → Type 0
ListingCarries id (err e) = e.request_id ≡ id
ListingCarries id (ok found) = Unit

abbrev pub ContentCarries : {F : Type 0} → String → Content F → Type 0
ContentCarries id (denied e) = e.request_id ≡ id
ContentCarries id (completion reply) = Carries id reply
ContentCarries id (listing found) = ListingCarries id found
ContentCarries id (health status body) = Unit
ContentCarries id unrouted = Unit

-- A refusal of a middleware carries the id.
abbrev VerdictCarries : String → Verdict → Type 0
VerdictCarries id (admit info) = Unit
VerdictCarries id (refuse e) = e.request_id ≡ id

abbrev DecisionCarries : String → Decision → Type 0
DecisionCarries id serve_next = Unit
DecisionCarries id (reject e) = e.request_id ≡ id

judge_row-Carries :
    (id : String) (audit : Bool) (token : String) (row : Row)
    → VerdictCarries id (judge_row id audit token row).1
unfolding judge_row write_internal_error write_auth_error
judge_row-Carries id audit token (err e) = refl
judge_row-Carries id audit token (ok none) = refl
judge_row-Carries id audit token (ok (some meta)) = tt

authenticate-Carries :
    {C : Type 0} (id : String) (audit : Bool) (store : C → String → C × Row)
    (hash_key : String → String) (cache : C) (auth_header : String)
    → VerdictCarries id (authenticate id audit store hash_key cache auth_header).2
unfolding authenticate write_auth_error
authenticate-Carries id audit store hash_key cache auth_header =
    let token = trim_prefix auth_header "Bearer " in
    elim (Bool-cases (str_eq auth_header "")) [
      | inl missing ↦ rw missing refl
      | inr given ↦ elim (Bool-cases (str_eq token auth_header)) [
        | inl malformed ↦ rw (given, malformed) refl
        | inr prefixed ↦ elim (Bool-cases (str_eq token "")) [
          | inl empty ↦ rw (given, prefixed, empty) refl
          | inr token_given ↦
              rw (given, prefixed, token_given)
                (judge_row-Carries id audit token (store cache (hash_key token)).1)
        ]
      ]
    ]

module _ (setup : Setup) (info : AuthInfo) (replies : Replies) where
  abbrev IsMarked : Answer → Type 0
  IsMarked a = DecisionCarries setup.request_id a.decision

  after_budget-IsMarked :
      (limits : Limits) (headers : Option RateHeaders) (result : BudgetResult)
      (unavailable : Option RedisUnavailable)
      → IsMarked (after_budget setup info limits headers result unavailable)
  unfolding after_budget write_service_unavailable_error write_budget_exceeded_error
  after_budget-IsMarked limits headers result (some redis_unavailable) = refl
  after_budget-IsMarked limits headers result none = if-both IsMarked result.allowed tt refl

  check_budget-IsMarked :
      (limits : Limits) (headers : Option RateHeaders) (cents : Option ℤ)
      → IsMarked (check_budget setup info replies limits headers cents)
  unfolding check_budget
  check_budget-IsMarked limits headers none = tt
  check_budget-IsMarked limits headers (some cents) =
      let (budget, result, unavailable) =
        check_daily_spend cents replies.budget_now replies.budget_done replies.spend
          limits.budget in
      after_budget-IsMarked (record limits { budget = budget }) headers result unavailable

  after_check-IsMarked :
      (limits : Limits) (result : LimitResult) (unavailable : Option RedisUnavailable)
      → IsMarked (after_check setup info replies limits result unavailable)
  unfolding after_check write_service_unavailable_error write_rate_limit_error
  after_check-IsMarked limits result (some redis_unavailable) = refl
  after_check-IsMarked limits result none =
      if-both IsMarked result.allowed
        (check_budget-IsMarked limits (limit_headers info result none) info.daily_spend_limit_cents)
        refl

  middleware-IsMarked : (limits : Limits) → IsMarked (middleware setup (some info) replies limits)
  unfolding middleware
  middleware-IsMarked limits =
      let (limiter, result, unavailable) =
        check (rpm_of info) (60 * second) replies.rate_now replies.rate_done replies.script
          limits.limiter in
      after_check-IsMarked (record limits { limiter = limiter }) result unavailable

module _ (fl : Float64) (formats : Formats fl.F) (server : Server fl.F) (r : Request fl.F) where
  -- The answer stands under the request's id, and carries it.
  abbrev pub IsAnswered : ServerState fl.F × Response fl.F → Type 0
  IsAnswered x = (x.1.request_id ≡ request_id_of r) × ContentCarries (request_id_of r) x.1.content

  limited-IsAnswered :
      (p : Protected) (info : AuthInfo) (headers : Option RateHeaders)
      (effects : List (Effect fl.F)) (d : Decision) (s : ServerState fl.F)
      → DecisionCarries (request_id_of r) d
      → IsAnswered (limited fl formats server r p info headers effects d s)
  unfolding list_models
  limited-IsAnswered p info headers effects (reject e) s same = (refl, same)
  limited-IsAnswered models info headers effects serve_next s u = (refl, tt)
  limited-IsAnswered chat info headers effects serve_next s u =
      (refl, chat_completions-Carries fl formats server.handler (incoming_as r info) s.state)

  guarded-IsAnswered :
      (p : Protected) (effects : List (Effect fl.F)) (v : Verdict) (s : ServerState fl.F)
      → VerdictCarries (request_id_of r) v
      → IsAnswered (guarded fl formats server r p effects v s)
  guarded-IsAnswered p effects (refuse e) s same = (refl, same)
  guarded-IsAnswered p effects (admit info) s u =
      limited-IsAnswered p info _ _ _ _ (middleware-IsMarked _ info r.replies s.limits)

  dispatch-IsAnswered :
      (e : Option Endpoint) (s : ServerState fl.F) → IsAnswered (dispatch fl formats server r e s)
  unfolding serve_protected
  dispatch-IsAnswered none s = (refl, tt)
  dispatch-IsAnswered (some health_check) s = (refl, tt)
  dispatch-IsAnswered (some (protected p)) s = guarded-IsAnswered p _ _ _ (
      authenticate-Carries (request_id_of r) true (lookup_via server.db r.reached r.now)
        server.hash_key s.cache r.authorization)

  -- Whatever a request meets, the X-Request-ID of its response is the one that it came with, or the
  -- generated one where it came with none, and every error in the response's body, of a middleware or of
  -- a handler, and every completion carries the same id.
  pub serve-IsAnswered : (s : ServerState fl.F) → IsAnswered (serve fl formats server r s)
  unfolding serve
  serve-IsAnswered s = dispatch-IsAnswered (endpoint r.method r.path) s
