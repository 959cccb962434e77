-- ===== src/Status/Laws.antt =====
-- What the health check of cmd/gateway/main.go reports of the providers, and what it does to them.
use mathlib.Core.Option
use aegis_ai_gateway.Prelude.{
  str_eq, length, ltb, arith, ◌&&◌, Option, Bool, ◌==◌, sym, ◌+◌, ap, str_eq-false, if◌then◌else◌,
  refl, ◌∙◌, ◌↔◌, ◌≢◌, All, ◌≡◌, String, List, ℕ, ◌∷◌, [], some, true, false,
}
use aegis_ai_gateway.Circuit.{allow}
use aegis_ai_gateway.Circuit.Trace.{perform_all}
use aegis_ai_gateway.Health.{HealthTracker, is_available}
use aegis_ai_gateway.Health.Refinement.{
  view, is_available-view, run_call, ask_available, ask_state, view-run_call, History, run_calls,
  calls_of, run_calls-view,
}
use aegis_ai_gateway.Router.{Registry, registered_providers}
use aegis_ai_gateway.RateLimit.Breaker.{RedisCircuitBreaker}
use aegis_ai_gateway.Status.{
  PoolStats, ProviderStatus, provider_loop, providers_health, health_handler,
}

-- The calls on the tracker of one health check.
abbrev pub asks : ℕ → List String → History
asks now [] = []
asks now (name ∷ rest) = (now, ask_available, name) ∷ (now, ask_state, name) ∷ asks now rest

provider_loop-run_calls :
    (now : ℕ) (names : List String) (ht : HealthTracker) (available : ℕ)
    (details : List (String × ProviderStatus))
    → (provider_loop now names ht available details).0 ≡ run_calls (asks now names) ht
unfolding provider_loop run_calls run_call
provider_loop-run_calls now [] ht available details = refl
provider_loop-run_calls now (name ∷ rest) ht available details =
    provider_loop-run_calls now rest _ _ _

-- No name stands twice.
abbrev pub AreDistinct : List String → Type 0
AreDistinct [] = Unit
AreDistinct (name ∷ rest) = All (λ other. name ≢ other) rest × AreDistinct rest

-- The breaker of a provider refuses requests at a time.
abbrev pub IsRefusing : ℕ → HealthTracker → String → Type 0
IsRefusing now ht name = (allow now (view ht name)).1 ≡ false

view-asked :
    (now : ℕ) (name other : String) (ht : HealthTracker)
    → name ≢ other
    → view (run_call now ask_state name (run_call now ask_available name ht)) other ≡ view ht other
view-asked now name other ht differ =
    view-run_call now ask_state name other _
    ∙ rw (str_eq-false name other differ)
        (view-run_call now ask_available name other ht ∙ rw (str_eq-false name other differ) refl)

IsRefusing-others :
    (now : ℕ) (name : String) (names : List String) (ht ht' : HealthTracker)
    → All (λ other. name ≢ other) names
    → ((other : String) → name ≢ other → view ht' other ≡ view ht other)
    → All (IsRefusing now ht') names ↔ All (IsRefusing now ht) names
IsRefusing-others now name [] ht ht' differ same = (λ u. u, λ u. u)
IsRefusing-others now name (n ∷ names) ht ht' (d, differ) same =
    let later = IsRefusing-others now name names ht ht' differ same in
    (
      λ (this, rest). (ap (λ z. (allow now z).1) (sym (same n d)) ∙ this, later.0 rest),
      λ (this, rest). (ap (λ z. (allow now z).1) (same n d) ∙ this, later.1 rest),
    )

count_step :
    (healthy : Bool) (available : ℕ)
    → ((if healthy then available + 1 else available) ≡ 0) ↔ ((available ≡ 0) × (healthy ≡ false))
count_step true available = (λ e. absurd (omega (arith, e)), λ (e, f). cc f)
count_step false available = (λ e. (e, refl), λ (e, f). e)

provider_loop-available_iff :
    (now : ℕ) (names : List String) (ht : HealthTracker) (available : ℕ)
    (details : List (String × ProviderStatus))
    → AreDistinct names
    → ((provider_loop now names ht available details).1 ≡ 0)
      ↔ ((available ≡ 0) × All (IsRefusing now ht) names)
unfolding provider_loop run_call
provider_loop-available_iff now [] ht available details distinct = (λ e. (e, tt), λ (e, u). e)
provider_loop-available_iff now (name ∷ rest) ht available details (fresh, distinct) =
    let later =
      provider_loop-available_iff now rest
        (run_call now ask_state name (run_call now ask_available name ht))
        (if (is_available now ht name).1 then available + 1 else available) _ distinct in
    let others =
      IsRefusing-others now name rest ht _ fresh
        (λ other differ. view-asked now name other ht differ) in
    let counted = count_step (is_available now ht name).1 available in
    let asked = is_available-view now ht name in
    (
      λ e.
          let (count, refusing) = later.0 e in
          let (none_yet, refused) = counted.0 count in
          (none_yet, (sym asked ∙ refused, others.0 refusing)),
      λ (none_yet, (refused, refusing)).
          later.1 (counted.1 (none_yet, asked ∙ refused), others.1 refusing),
    )

loop_total :
    (names : List String) (available : ℕ)
    → (available == 0 && ltb 0 (length names)) ≡ true
    → (available ≡ 0) × (names ≢ [])
loop_total [] available e = absurd (ground (arith, e))
loop_total (n ∷ names) available e = (ground (arith, e), λ f. cc f)

loop_none :
    (names : List String) (available : ℕ)
    → available ≡ 0
    → names ≢ []
    → (available == 0 && ltb 0 (length names)) ≡ true
loop_none [] available e f = absurd (f refl)
loop_none (n ∷ names) available e f = ground (arith, e)

abbrev status_of : Bool → Bool → ℕ
status_of down bad =
    if str_eq (if down then "unhealthy" else if bad then "degraded" else "healthy") "unhealthy"
    then 503
    else 200

status_503_iff : (down bad : Bool) → (status_of down bad ≡ 503) ↔ (down ≡ true)
status_503_iff true bad = (λ e. refl, λ e. refl)
status_503_iff false true = (λ e. absurd (omega (arith, e)), λ e. cc e)
status_503_iff false false = (λ e. absurd (omega (arith, e)), λ e. cc e)

-- With a registry, which has each name once, and a tracker: the health check answers with status 503
-- exactly if providers are registered and the breakers of all of them refuse requests, whatever the
-- database and Redis do.
pub health_handler_iff :
    {A : Type 0} (now : ℕ) (version : String) (pool : Option (Option (ℕ × PoolStats)))
    (rdb : Option (Option ℕ)) (limiter : Option (Option RedisCircuitBreaker))
    (registry : Registry A) (ht : HealthTracker)
    → AreDistinct (registered_providers registry)
    → ((health_handler now version pool rdb limiter (some registry) (some ht)).1 ≡ 503) ↔ (
        (registered_providers registry ≢ [])
        × All (IsRefusing now ht) (registered_providers registry))
unfolding health_handler providers_health
health_handler_iff now version pool rdb limiter registry ht distinct =
    let names = registered_providers registry in
    let counted = provider_loop-available_iff now names ht 0 [] distinct in
    let available = (provider_loop now names ht 0 []).1 in
    let status = status_503_iff (available == 0 && ltb 0 (length names)) _ in
    (
      λ e.
          let (no_one, some_name) = loop_total names available (status.0 e) in
          (some_name, (counted.0 no_one).1),
      λ (some_name, refusing).
          status.1 (loop_none names available (counted.1 (refl, refusing)) some_name),
    )

-- A health check with a registry and a tracker asks each registered provider's breaker whether it lets a
-- request through, and then for its state: each breaker is after it what these two calls make of it.
pub health_handler-view :
    {A : Type 0} (now : ℕ) (version : String) (pool : Option (Option (ℕ × PoolStats)))
    (rdb : Option (Option ℕ)) (limiter : Option (Option RedisCircuitBreaker))
    (registry : Registry A) (ht : HealthTracker) (q : String)
    → Option.map
        (λ z. view z q)
        (health_handler now version pool rdb limiter (some registry) (some ht)).0
      ≡ some (perform_all (calls_of q (asks now (registered_providers registry))) (view ht q))
unfolding health_handler providers_health
health_handler-view now version pool rdb limiter registry ht q = ap some (
    ap (λ z. view z q) (provider_loop-run_calls now (registered_providers registry) ht 0 [])
    ∙ run_calls-view (asks now (registered_providers registry)) ht q)
