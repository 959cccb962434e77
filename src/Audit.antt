-- ===== src/Audit.antt =====
-- internal/audit/logger.go: the events of the audit trail and the row that is written of each. The
-- database and the encoding of the metadata as JSON are parameters; a failure to write is logged only.
pub mod Laws
use Prim.Native.String.{◌++◌}
use aegis_ai_gateway.Prelude.{
  ℕ, ℤ, pos, String, List, [], ◌∷◌, Option, none, some, Result, ok, err, if◌then◌else◌, ltb,
  byte_length, take_bytes,
}
use aegis_ai_gateway.Events.{
  Event, auth_failure, rate_limit_violation, budget_violation, filter_block, redis_failure,
  rate_limit_hit, filter_action, cancellation, retry_attempt, retry_success, retry_failure,
  streaming_error, streaming_status,
}
use aegis_ai_gateway.Database.{Column, text, null, int, time}

-- A value of the metadata.
pub data Datum : Type 0 where
  text_datum : String → Datum
  int_datum : ℤ → Datum

pub record AuditEvent : Type 0 where
  pub request_id : String
  pub timestamp : ℕ
  pub event_type : String
  pub organization_id : String
  pub team_id : String
  pub user_id : Option String
  pub api_key_id : Option String
  pub ip_address : String
  pub user_agent : String
  pub endpoint : String
  pub method : String
  pub status_code : ℤ
  pub error_message : String
  pub metadata : List (String × Datum)

abbrev pub nullable : {F : Type 0} → Option String → Column F
nullable none = null
nullable (some s) = text s

abbrev pub or_empty : Result String String → String
or_empty (err e) = "{}"
or_empty (ok json) = json

module _ {F : Type 0} (marshal : List (String × Datum) → Result String String) where
  -- The arguments of the INSERT, in the order of its columns.
  abbrev pub audit_args : AuditEvent → List (Column F)
  audit_args e =
      text e.request_id
      ∷ time e.timestamp
      ∷ text e.event_type
      ∷ text e.organization_id
      ∷ text e.team_id
      ∷ nullable e.user_id
      ∷ nullable e.api_key_id
      ∷ text e.ip_address
      ∷ text e.user_agent
      ∷ text e.endpoint
      ∷ text e.method
      ∷ int e.status_code
      ∷ text e.error_message
      ∷ text (or_empty (marshal e.metadata))
      ∷ []

  -- `writeEvent`: the row that is inserted where there is a database. `Log` runs it on its own.
  unfoldable pub write_event : {Db : Type 0} → Option Db → AuditEvent → Option (List (Column F))
  write_event none e = none
  write_event (some db) e = some (audit_args e)

unfoldable pub truncate_api_key : String → String
truncate_api_key key = if ltb 8 (byte_length key) then take_bytes 8 key ++ "..." else key

-- Each of the methods gives the event to `Log`, at the time `now`.
unfoldable pub log_auth_failure :
    ℕ → (request_id ip user_agent api_key reason : String) → AuditEvent
unfolding truncate_api_key
log_auth_failure now request_id ip user_agent api_key reason = record {
  request_id = request_id;
  timestamp = now;
  event_type = "auth_failure";
  organization_id = "unknown";
  team_id = "unknown";
  user_id = none;
  api_key_id = none;
  ip_address = ip;
  user_agent = user_agent;
  endpoint = "/v1/*";
  method = "POST";
  status_code = pos 401;
  error_message = reason;
  metadata = ("api_key_prefix", text_datum (truncate_api_key api_key)) ∷ [];
}

-- What the other methods leave as it is.
abbrev violation :
    ℕ
    → (request_id org_id team_id key_id ip event_type : String) → ℤ
    → String
    → List (String × Datum)
    → AuditEvent
violation now request_id org_id team_id key_id ip event_type status message metadata = record {
  request_id = request_id;
  timestamp = now;
  event_type = event_type;
  organization_id = org_id;
  team_id = team_id;
  user_id = none;
  api_key_id = some key_id;
  ip_address = ip;
  user_agent = "";
  endpoint = "";
  method = "";
  status_code = status;
  error_message = message;
  metadata = metadata;
}

unfoldable pub log_rate_limit_violation :
    ℕ → (request_id org_id team_id key_id dimension : String) → ℤ → String → AuditEvent
log_rate_limit_violation now request_id org_id team_id key_id dimension limit ip =
    violation now request_id org_id team_id key_id ip "rate_limit_violation" (pos 429)
      ("Rate limit exceeded: " ++ dimension)
      (("dimension", text_datum dimension) ∷ ("limit", int_datum limit) ∷ [])

unfoldable pub log_budget_violation :
    ℕ → (request_id org_id team_id key_id : String) → ℤ → ℤ → String → AuditEvent
log_budget_violation now request_id org_id team_id key_id spent limit ip =
    violation now request_id org_id team_id key_id ip "budget_violation" (pos 402)
      "Daily budget exceeded"
      (("spent_cents", int_datum spent) ∷ ("limit_cents", int_datum limit) ∷ [])

unfoldable pub log_filter_block :
    ℕ → (request_id org_id team_id key_id filter_type reason ip : String) → AuditEvent
log_filter_block now request_id org_id team_id key_id filter_type reason ip =
    violation now request_id org_id team_id key_id ip "filter_block" (pos 451)
      ("Content blocked by " ++ (filter_type ++ " filter"))
      (("filter_type", text_datum filter_type) ∷ ("reason", text_datum reason) ∷ [])

unfoldable pub log_redis_failure :
    ℕ → (request_id org_id team_id key_id operation error ip : String) → AuditEvent
log_redis_failure now request_id org_id team_id key_id operation error ip =
    violation now request_id org_id team_id key_id ip "redis_failure" (pos 503)
      "Redis unavailable - failed closed"
      (("operation", text_datum operation) ∷ ("error", text_datum error) ∷ [])

-- Who calls, as the middleware and the handler tell it, and the text of Redis' error.
pub record Caller : Type 0 where
  pub request_id : String
  pub organization_id : String
  pub team_id : String
  pub key_id : String
  pub ip : String
  pub user_agent : String
  pub redis_error : String

-- The audit event of a call; a call of the metrics has none.
unfoldable pub audit_event : ℕ → Caller → Event → Option AuditEvent
unfolding log_auth_failure log_rate_limit_violation log_budget_violation log_filter_block
    log_redis_failure
audit_event now c (auth_failure key reason) =
    some (log_auth_failure now c.request_id c.ip c.user_agent key reason)
audit_event now c (rate_limit_violation dimension limit) = some (
    log_rate_limit_violation now c.request_id c.organization_id c.team_id c.key_id dimension limit
      c.ip)
audit_event now c (budget_violation spent limit) =
    some
      (log_budget_violation now c.request_id c.organization_id c.team_id c.key_id spent limit c.ip)
audit_event now c (filter_block filter_type reason) =
    some (
      log_filter_block now c.request_id c.organization_id c.team_id c.key_id filter_type reason
        c.ip)
audit_event now c (redis_failure operation) = some (
    log_redis_failure now c.request_id c.organization_id c.team_id c.key_id operation c.redis_error
      c.ip)
audit_event now c (rate_limit_hit dimension label) = none
audit_event now c (filter_action filter action) = none
audit_event now c (cancellation provider stage) = none
audit_event now c (retry_attempt provider n) = none
audit_event now c (retry_success provider n) = none
audit_event now c (retry_failure provider n reason) = none
audit_event now c (streaming_error provider reason) = none
audit_event now c (streaming_status provider code) = none
