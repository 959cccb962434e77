-- ===== src/Events.antt =====
-- What the gateway tells its audit logger (internal/audit/logger.go) and its metrics
-- (internal/telemetry/metrics.go), as values in the order of the calls.
use aegis_ai_gateway.Prelude.{ℕ, ℤ, String, List, [], ◌∷◌, Bool, true, false}

-- The calls of the audit logger, by their reasons; the identity of the caller is left out.
pub data Event : Type 0 where
  auth_failure : (api_key reason : String) → Event
  rate_limit_violation : (dimension : String) (limit : ℤ) → Event
  budget_violation : (spent limit : ℤ) → Event
  filter_block : (filter_type reason : String) → Event
  redis_failure : (operation : String) → Event
  -- Counters of the metrics.
  rate_limit_hit : (dimension label : String) → Event
  filter_action : (filter_name action : String) → Event
  cancellation : (provider stage : String) → Event
  retry_attempt : (provider : String) (attempt : ℕ) → Event
  retry_success : (provider : String) (attempt : ℕ) → Event
  retry_failure : (provider : String) (attempt : ℕ) (reason : String) → Event
  streaming_error : (provider reason : String) → Event
  -- A streaming error with the reason "http_%d".
  streaming_status : (provider : String) (status_code : ℕ) → Event

-- A call behind `if logger != nil`.
abbrev pub when : Bool → Event → List Event
when true e = e ∷ []
when false e = []
