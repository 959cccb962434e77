-- ===== src/Status.antt =====
-- `makeHealthHandler` of cmd/gateway/main.go: the state of the database, of Redis and of the providers. What
-- the pings give, the version and the time are arguments.
pub mod Laws
use mathlib.Core.Option
use aegis_ai_gateway.Prelude.{
  ltb, insert, str_eq, ◌+◌, ◌&&◌, ◌||◌, if◌then◌else◌, not, length, List, ◌==◌, Bool, Option, ℕ,
  pos, String, ℤ, ◌∷◌, [], some, none, true, false,
}
use aegis_ai_gateway.Health.{HealthTracker, is_available, tracker_state}
use aegis_ai_gateway.Router.{Registry, registered_providers}
use aegis_ai_gateway.RateLimit.Breaker.{RedisCircuitBreaker, state_string}

pub record PoolStats : Type 0 where
  pub acquired_conns : ℤ
  pub idle_conns : ℤ
  pub max_conns : ℤ
  pub total_conns : ℤ

-- A ping's answer is its latency in milliseconds; `none` is an error.
pub record DatabaseHealth : Type 0 where
  pub connected : Bool
  pub stats : PoolStats
  pub latency : ℕ

pub record RedisHealth : Type 0 where
  pub connected : Bool
  pub circuit_breaker : String
  pub latency : ℕ

pub record ProviderStatus : Type 0 where
  pub healthy : Bool
  pub state : String

pub record ProvidersHealth : Type 0 where
  pub available : ℕ
  pub total : ℕ
  pub details : List (String × ProviderStatus)

pub record HealthResponse : Type 0 where
  pub status : String
  pub version : String
  pub timestamp : ℕ
  pub database : Option DatabaseHealth
  pub redis : Option RedisHealth
  pub providers : Option ProvidersHealth

abbrev no_stats : PoolStats
no_stats = record {
  acquired_conns = pos 0;
  idle_conns = pos 0;
  max_conns = pos 0;
  total_conns = pos 0;
}

abbrev pub database_health : Option (ℕ × PoolStats) → DatabaseHealth
database_health none = record { connected = false; stats = no_stats; latency = 0 }
database_health (some (latency, stats)) = record {
  connected = true;
  stats = stats;
  latency = latency;
}

-- The limiter's breaker is there or nil.
unfoldable pub get_circuit_breaker_state : Option RedisCircuitBreaker → String
get_circuit_breaker_state none = "disabled"
get_circuit_breaker_state (some cb) = state_string cb.state

-- The limiter may be nil.
abbrev pub breaker_text : Option (Option RedisCircuitBreaker) → String
breaker_text none = ""
breaker_text (some cb) = get_circuit_breaker_state cb

abbrev pub redis_health : Option ℕ → Option (Option RedisCircuitBreaker) → RedisHealth
redis_health none limiter = record {
  connected = false;
  circuit_breaker = breaker_text limiter;
  latency = 0;
}
redis_health (some latency) limiter = record {
  connected = true;
  circuit_breaker = breaker_text limiter;
  latency = latency;
}

-- The loop over the providers: each is asked whether it is available, and then for its state.
unfoldable pub provider_loop :
    ℕ
    → List String
    → HealthTracker
    → ℕ
    → List (String × ProviderStatus)
    → HealthTracker × ℕ × List (String × ProviderStatus)
provider_loop now [] ht available details = (ht, available, details)
provider_loop now (name ∷ rest) ht available details =
    let (asked, healthy) = is_available now ht name in
    let (ht', state) = tracker_state now asked name in
    provider_loop now rest ht' (if healthy then available + 1 else available)
      (insert name (record { healthy = healthy; state = state }) details)

abbrev pub database_down : Option DatabaseHealth → Bool
database_down none = false
database_down (some d) = not d.connected

abbrev pub redis_down : Option RedisHealth → Bool
redis_down none = false
redis_down (some r) = not r.connected || str_eq r.circuit_breaker "open"

abbrev pub providers_down : Option ProvidersHealth → Bool
providers_down none = false
providers_down (some p) = p.available == 0 && ltb 0 p.total

abbrev pub overall : Option DatabaseHealth → Option RedisHealth → Option ProvidersHealth → String
overall d r p =
    if providers_down p
    then "unhealthy"
    else if database_down d || redis_down r
    then "degraded"
    else "healthy"

module _ {A : Type 0} where
  -- The part on the providers, where the registry and the tracker are there.
  unfoldable pub providers_health :
      ℕ → Option (Registry A) → Option HealthTracker → Option HealthTracker × Option ProvidersHealth
  unfolding provider_loop registered_providers
  providers_health now none ht = (ht, none)
  providers_health now (some registry) none = (none, none)
  providers_health now (some registry) (some ht) =
      let names = registered_providers registry in
      let (ht', available, details) = provider_loop now names ht 0 [] in
      (some ht', some (record { available = available; total = length names; details = details }))

  -- The handler: the tracker after it, the response's status and its body.
  unfoldable pub health_handler :
      ℕ
      → String
      → Option (Option (ℕ × PoolStats))
      → Option (Option ℕ)
      → Option (Option RedisCircuitBreaker)
      → Option (Registry A)
      → Option HealthTracker
      → Option HealthTracker × ℕ × HealthResponse
  unfolding providers_health
  health_handler now version pool rdb limiter registry ht =
      let d = Option.map database_health pool in
      let r = Option.map (λ ping. redis_health ping limiter) rdb in
      let (ht', p) = providers_health now registry ht in
      let status = overall d r p in
      (
        ht',
        if str_eq status "unhealthy" then 503 else 200,
        record {
          status = status;
          version = version;
          timestamp = now;
          database = d;
          redis = r;
          providers = p;
        },
      )
