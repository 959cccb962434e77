-- ===== src/Server/Startup/Laws.antt =====
-- What keeps main of cmd/gateway/main.go from starting, and what a start without Redis means.
use aegis_ai_gateway.Prelude.{
  ◌++◌ as append, ℤ, String, List, [], ◌∷◌, true, false, Option, none, some, Result, ok, err, ◌≡◌,
  ◌↔◌, refl, sym, ap, ◌∙◌, subst, Bool-cases, inl, inr, Float64,
}
use aegis_ai_gateway.Config.Dsn.{dsn}
use aegis_ai_gateway.Types.{AuthInfo}
use aegis_ai_gateway.Auth.{Verdict, admit, refuse}
use aegis_ai_gateway.Provider.Registry.{Codecs}
use aegis_ai_gateway.RateLimit.Limiter.{check}
use aegis_ai_gateway.RateLimit.Budget.{check_daily_spend}
use aegis_ai_gateway.RateLimit.Middleware.{
  Setup, Limits, Replies, RateHeaders, Decision, serve_next, reject, Answer, middleware,
  after_check, check_budget, after_budget,
}
use aegis_ai_gateway.Gateway.{Effect, note_all}
use aegis_ai_gateway.Gateway.Parts.{Formats}
use aegis_ai_gateway.Server.{
  request_id_of, Protected, Endpoint, health_check, protected, endpoint, Request, Server,
  ServerState, limited, guarded, serve_protected, dispatch, serve,
}
use aegis_ai_gateway.Server.Revocation.{serve_all}
use aegis_ai_gateway.Server.Startup.{
  Loaded, Outside, new_limiter, new_budget_tracker, has_redis, new_server, new_state, start_with,
  is_started, start,
}

module _ (fl : Float64) (codecs : Codecs fl) (w : Outside fl.F) where
  loaded :
      (found : Result String (Loaded fl.F))
      → w.load ≡ found
      → is_started fl codecs w (start_with fl codecs w found) ≡ true
      → (l : Loaded fl.F) × (w.load ≡ ok l)
        × (w.parses_dsn (dsn l.config.database) ≡ true)
        × (w.opens_pool l.config ≡ true)
  loaded (err e) same g = cc g
  loaded (ok l) same g = elim (Bool-cases (w.parses_dsn (dsn l.config.database))) [
    | inl parsed ↦ elim (Bool-cases (w.opens_pool l.config)) [
      | inl opened ↦ (l, same, parsed, opened)
      | inr closed ↦ cc (rw (parsed, closed) at g)
    ]
    | inr refused ↦ cc (rw refused at g)
  ]

  -- The gateway starts exactly if it is not asked for its version, its three files are loaded, and the
  -- database's address and pool are taken; neither the database's nor Redis' failure to answer, nor that
  -- of the services of the filters, keeps it from starting.
  pub start_iff : (is_started fl codecs w (start fl codecs w) ≡ true) ↔ (
      (w.show_version ≡ false)
      × ((l : Loaded fl.F) × (w.load ≡ ok l)
          × (w.parses_dsn (dsn l.config.database) ≡ true)
          × (w.opens_pool l.config ≡ true)))
  unfolding start
  start_iff = (
    λ g. elim (Bool-cases w.show_version) [
      | inl shown ↦ cc (rw shown at g)
      | inr wanted ↦ (wanted, loaded w.load refl (rw wanted at g))
    ],
    λ (wanted, (l, e, parsed, opened)). rw (wanted, e, parsed, opened) refl,
  )

-- Neither breaker is there.
abbrev no_limits : Limits
no_limits = record { limiter = none; budget = none }

-- Without breakers every request goes on, and there are none after it.
abbrev GoesOn : Answer → Type 0
GoesOn a = (a.decision ≡ serve_next) × (a.limits ≡ no_limits)

check_budget-GoesOn :
    (setup : Setup) (info : AuthInfo) (replies : Replies) (headers : Option RateHeaders)
    (cents : Option ℤ)
    → GoesOn (check_budget setup info replies no_limits headers cents)
unfolding check_budget check_daily_spend after_budget
check_budget-GoesOn setup info replies headers none = (refl, refl)
check_budget-GoesOn setup info replies headers (some cents) = (refl, refl)

middleware-GoesOn :
    (setup : Setup) (info : AuthInfo) (replies : Replies)
    → GoesOn (middleware setup (some info) replies no_limits)
unfolding middleware check after_check
middleware-GoesOn setup info replies =
    check_budget-GoesOn setup info replies _ info.daily_spend_limit_cents

module _ (fl : Float64) (formats : Formats fl.F) (server : Server fl.F) where
  abbrev setup_of : Request fl.F → Setup
  setup_of r = record { request_id = request_id_of r; audit = true; metrics = true }

  limited-limits :
      (r : Request fl.F) (p : Protected) (info : AuthInfo) (headers : Option RateHeaders)
      (effects : List (Effect fl.F)) (d : Decision) (s : ServerState fl.F)
      → (limited fl formats server r p info headers effects d s).0.limits ≡ s.limits
  limited-limits r p info headers effects (reject e) s = refl
  limited-limits r p info headers effects serve_next s = refl

  guarded-limits :
      (r : Request fl.F) (p : Protected) (effects : List (Effect fl.F)) (v : Verdict)
      (s : ServerState fl.F)
      → s.limits ≡ no_limits
      → (guarded fl formats server r p effects v s).0.limits ≡ no_limits
  guarded-limits r p effects (refuse e) s h = h
  guarded-limits r p effects (admit info) s h =
      let setup = setup_of r in
      let answer = middleware setup (some info) r.replies s.limits in
      limited-limits r p info answer.headers (append effects (note_all answer.events))
        answer.decision (record s { limits = answer.limits })
      ∙ subst (λ z. (middleware setup (some info) r.replies z).limits ≡ no_limits) (sym h)
          (middleware-GoesOn setup info r.replies).1

  dispatch-limits :
      (r : Request fl.F) (e : Option Endpoint) (s : ServerState fl.F)
      → s.limits ≡ no_limits
      → (dispatch fl formats server r e s).0.limits ≡ no_limits
  unfolding serve_protected
  dispatch-limits r none s h = h
  dispatch-limits r (some health_check) s h = h
  dispatch-limits r (some (protected p)) s h = guarded-limits r p _ _ _ h

  serve_all-limits :
      (rs : List (Request fl.F)) (s : ServerState fl.F)
      → s.limits ≡ no_limits
      → (serve_all fl formats server s rs).limits ≡ no_limits
  unfolding serve
  serve_all-limits [] s h = h
  serve_all-limits (r ∷ rs) s h =
      serve_all-limits rs _ (dispatch-limits r (endpoint r.method r.path) s h)

module _ (fl : Float64) (codecs : Codecs fl) (w : Outside fl.F) (formats : Formats fl.F) where
  -- Where Redis has no address, or does not answer the one ping at the start, no key is limited as long as
  -- the gateway runs: after any requests, and whatever Redis says by then, the middleware sends every
  -- request that is authenticated on, beyond any rate and any budget.
  pub start_without_redis_unlimited :
      (l : Loaded fl.F) (rs : List (Request fl.F)) (setup : Setup) (info : AuthInfo)
      (replies : Replies)
      → has_redis fl codecs w l.config.redis.addresses ≡ false
      → (middleware setup
          (some info)
          replies
          (serve_all fl formats
            (new_server fl codecs w l)
            (new_state fl codecs w l)
            rs).limits).decision
        ≡ serve_next
  unfolding new_limiter new_budget_tracker
  start_without_redis_unlimited l rs setup info replies down =
      let first : (new_state fl codecs w l).limits ≡ no_limits =
        ap (λ b. record { limiter = new_limiter b; budget = new_budget_tracker b }) down in
      ap (λ z. (middleware setup (some info) replies z).decision)
        (serve_all-limits fl formats (new_server fl codecs w l) rs (new_state fl codecs w l) first)
      ∙ (middleware-GoesOn setup info replies).0
