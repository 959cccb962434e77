-- ===== src/Server/Startup.antt =====
-- `main` of cmd/gateway/main.go up to the server, and from the server's end on: what stops it, and what it
-- starts with. What the flags, the loader, the database and Redis give comes from outside; the metrics'
-- server, the watch over the pool and the log are left out.
pub mod Laws
use aegis_ai_gateway.Prelude.{
  ℕ, ℤ, pos, String, List, [], ◌∷◌, Bool, true, false, ◌&&◌, not, Option, none, some, Result, ok,
  err, str_eq, if◌then◌else◌, ◌≡◌, ◌↔◌, refl, Bool-cases, inl, inr, Float64, arith,
}
use aegis_ai_gateway.Config.{ModelsConfig, ProviderConfig}
use aegis_ai_gateway.Config.Dsn.{dsn}
use aegis_ai_gateway.Config.Settings.{Config, seconds}
use aegis_ai_gateway.Types.{AegisRequest}
use aegis_ai_gateway.Auth.{Db}
use aegis_ai_gateway.Filter.{Filter, FilterResult}
use aegis_ai_gateway.Health.{new_health_tracker}
use aegis_ai_gateway.Provider.{ProviderAdapter}
use aegis_ai_gateway.Provider.Registry.{Codecs, build_from_config}
use aegis_ai_gateway.RateLimit.Breaker.{RedisCircuitBreaker, new_redis_circuit_breaker}
use aegis_ai_gateway.Validation.{default_limits}
use aegis_ai_gateway.Server.{Server, ServerState}

-- What the loader holds after its first load.
pub record Loaded (F : Type 0) : Type 0 where
  pub config : Config F
  pub models : ModelsConfig F
  pub providers : List (String × ProviderConfig)

pub record Outside (F : Type 0) : Type 0 where
  pub show_version : Bool
  pub load : Result String (Loaded F)
  -- whether `pgxpool.ParseConfig` takes the text, and `NewWithConfig` the configuration
  pub parses_dsn : String → Bool
  pub opens_pool : Config F → Bool
  -- whether Redis, at the address, answers the ping
  pub answers_ping : String → Bool
  pub db : Db
  pub hash_key : String → String
  pub version : String
  -- the filters of the chain, and the policy, for one request
  pub filters : List (Filter F)
  pub policy : AegisRequest F → FilterResult F

pub data Start (F : Type 0) : Type 0 where
  version_shown : Start F
  exited : ℕ → Start F
  started : Server F → ServerState F → Start F

-- `NewLimiter` and `NewBudgetTracker`: the breaker, where there is a client.
unfoldable pub new_limiter : Bool → Option RedisCircuitBreaker
new_limiter false = none
new_limiter true = some (new_redis_circuit_breaker 3 (seconds 30))

unfoldable pub new_budget_tracker : Bool → Option RedisCircuitBreaker
new_budget_tracker false = none
new_budget_tracker true = some (new_redis_circuit_breaker 3 (seconds 30))

module _ (fl : Float64) (codecs : Codecs fl) (w : Outside fl.F) where
  -- Whether there is a client of Redis: an address, the first, that is not empty and answers.
  abbrev pub has_redis : List String → Bool
  has_redis [] = false
  has_redis (address ∷ others) = not (str_eq address "") && w.answers_ping address

  abbrev pub new_server : Loaded fl.F → Server fl.F
  new_server l = record {
    db = w.db;
    hash_key = w.hash_key;
    handler = record {
      registry = build_from_config fl codecs l.providers;
      models = l.models;
      filter_chain = some w.filters;
      policy = some w.policy;
      on = record { metrics = true; audit = true; usage = true };
      max_retries = some l.config.routing.max_retries;
      validator = some (default_limits fl);
    };
    version = w.version;
  }

  abbrev pub new_state : Loaded fl.F → ServerState fl.F
  new_state l =
      let rdb = has_redis l.config.redis.addresses in
      let breaker = l.config.routing.circuit_breaker in
      record {
        cache = [];
        limits = record { limiter = new_limiter rdb; budget = new_budget_tracker rdb };
        state = record {
          tracker =
              some (new_health_tracker breaker.failure_threshold breaker.recovery_probe_interval);
          calculator = some (record { price_cache = [] });
        };
      }

  abbrev pub start_with : Result String (Loaded fl.F) → Start fl.F
  start_with (err e) = exited 1
  start_with (ok l) =
      if not (w.parses_dsn (dsn l.config.database))
      then exited 1
      else if not (w.opens_pool l.config)
      then exited 1
      else started (new_server l) (new_state l)

  unfoldable pub start : Start fl.F
  start = if w.show_version then version_shown else start_with w.load

  abbrev pub is_started : Start fl.F → Bool
  is_started (started server s) = true
  is_started version_shown = false
  is_started (exited code) = false

-- How the server ends: by a signal, or by ListenAndServe's return.
pub data End : Type 0 where
  signalled : End
  server_closed : End
  serve_failed : End

-- The exit code, where `Shutdown` succeeds or not.
unfoldable pub finish : End → Bool → ℕ
finish serve_failed shut_down = 1
finish signalled shut_down = if shut_down then 0 else 1
finish server_closed shut_down = if shut_down then 0 else 1
