-- ===== src/Config/Settings.antt =====
-- `Config` of internal/config/config.go with its parts, and what DefaultConfig has in them. Durations are
-- in nanoseconds; the breaker's threshold is a natural number.
use aegis_ai_gateway.Prelude.{ℕ, ℤ, pos, ◌*◌, String, List, [], ◌∷◌, Bool, true, false, Float64}
use aegis_ai_gateway.Config.Dsn.{DatabaseConfig}

pub record ServerConfig : Type 0 where
  pub host : String
  pub port : ℤ
  pub read_timeout : ℕ
  pub write_timeout : ℕ
  pub idle_timeout : ℕ
  pub graceful_shutdown : ℕ

pub record RedisConfig : Type 0 where
  pub addresses : List String
  pub password : String
  pub db : ℤ
  pub pool_size : ℤ

pub record TelemetryConfig (F : Type 0) : Type 0 where
  pub log_level : String
  pub log_format : String
  pub metrics_port : ℤ
  pub otlp_endpoint : String
  pub trace_sample_rate : F

pub record PiiServiceConfig : Type 0 where
  pub enabled : Bool
  pub address : String
  pub timeout : ℕ
  pub max_retries : ℤ
  pub fail_open : Bool

pub record SecretsFilterConfig : Type 0 where
  pub enabled : Bool

pub record InjectionFilterConfig (F : Type 0) : Type 0 where
  pub enabled : Bool
  pub block_threshold : F
  pub flag_threshold : F

pub record PolicyFilterConfig : Type 0 where
  pub enabled : Bool
  pub bundle_path : String
  pub evaluation_timeout : ℕ

pub record FilterConfig (F : Type 0) : Type 0 where
  pub pii_service : PiiServiceConfig
  pub secrets : SecretsFilterConfig
  pub injection : InjectionFilterConfig F
  pub policy : PolicyFilterConfig

pub record CircuitBreakerConfig (F : Type 0) : Type 0 where
  pub failure_threshold : ℕ
  pub error_rate_threshold : F
  pub error_rate_window : ℕ
  pub recovery_probe_interval : ℕ

pub record RoutingConfig (F : Type 0) : Type 0 where
  pub default_timeout : ℕ
  pub stream_first_chunk_timeout : ℕ
  pub stream_chunk_timeout : ℕ
  pub max_retries : ℤ
  pub circuit_breaker : CircuitBreakerConfig F
  pub health_check_interval : ℕ

pub record Config (F : Type 0) : Type 0 where
  pub server : ServerConfig
  pub database : DatabaseConfig
  pub redis : RedisConfig
  pub telemetry : TelemetryConfig F
  pub filter : FilterConfig F
  pub routing : RoutingConfig F

abbrev pub seconds : ℕ → ℕ
seconds n = n * 1_000_000_000

module _ (fl : Float64) where
  -- The literal 0.n: IEEE 754's quotient is the number nearest to it, as the literal is.
  abbrev tenths : ℕ → fl.F
  tenths n = fl.div (fl.of_int (pos n)) (fl.of_int (pos 10))

  -- What the literal does not name has Go's zero value.
  unfoldable pub default_config : Config fl.F
  default_config = record {
    server = record {
      host = "0.0.0.0";
      port = pos 8080;
      read_timeout = seconds 30;
      write_timeout = seconds 120;
      idle_timeout = seconds 120;
      graceful_shutdown = seconds 30;
    };
    database = record {
      host = "localhost";
      port = pos 5432;
      name = "aegis";
      user = "aegis";
      password = "";
      max_open_conns = pos 25;
      max_idle_conns = pos 10;
      conn_max_lifetime = seconds 300;
    };
    redis = record {
      addresses = "localhost:6379" ∷ [];
      password = "";
      db = pos 0;
      pool_size = pos 50;
    };
    telemetry = record {
      log_level = "info";
      log_format = "json";
      metrics_port = pos 9090;
      otlp_endpoint = "";
      trace_sample_rate = tenths 1;
    };
    filter = record {
      pii_service = record {
        enabled = false;
        address = "aegis-filter-nlp:50051";
        timeout = seconds 5;
        max_retries = pos 1;
        fail_open = false;
      };
      secrets = record { enabled = true };
      injection = record { enabled = true; block_threshold = tenths 9; flag_threshold = tenths 7 };
      policy = record {
        enabled = true;
        bundle_path = "/etc/aegis/policies";
        evaluation_timeout = 100_000_000;
      };
    };
    routing = record {
      default_timeout = seconds 30;
      stream_first_chunk_timeout = seconds 60;
      stream_chunk_timeout = seconds 10;
      max_retries = pos 2;
      circuit_breaker = record {
        failure_threshold = 5;
        error_rate_threshold = tenths 5;
        error_rate_window = seconds 30;
        recovery_probe_interval = seconds 15;
      };
      health_check_interval = seconds 10;
    };
  }
