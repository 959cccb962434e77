-- ===== src/Gateway.antt =====
-- internal/gateway: what the handlers record of a request. The durations are in milliseconds and take
-- the clock's readings as arguments; `F` stands for float64.
pub mod Streaming
pub mod Stream
pub mod Parts
pub mod Delivery
pub mod Handler
pub mod Refactored
pub mod Models
use aegis_ai_gateway.Prelude.{◌/◌, ◌-◌, true, false, [], ℤ, ◌∷◌, List, String, Option, Bool, ℕ}
use mathlib.Core.Option
use aegis_ai_gateway.Types.{AegisResponse, Classification}
use aegis_ai_gateway.Http.{ErrorResponse}
use aegis_ai_gateway.Health.{HealthTracker, tracker_failure, tracker_success}
use aegis_ai_gateway.Cost.{Calculator}
use aegis_ai_gateway.Events.{Event}

-- internal/telemetry/metrics.go
pub record RequestLabels (F : Type 0) : Type 0 where
  pub org : String
  pub team : String
  pub model : String
  pub provider : String
  pub status : String
  pub classification : Classification
  pub duration_ms : ℕ
  pub overhead_ms : ℕ
  pub prompt_tokens : ℤ
  pub completion_tokens : ℤ
  pub cost_usd : F

pub record StreamingLabels (F : Type 0) : Type 0 where
  pub provider : String
  pub model : String
  pub chunk_count : ℕ
  pub time_to_first_token_ms : ℤ
  pub tokens_per_second : F
  pub stream_duration_ms : ℕ

-- internal/storage/usage.go
pub record UsageRecord (F : Type 0) : Type 0 where
  pub request_id : String
  pub organization_id : String
  pub team_id : String
  pub user_id : String
  pub api_key_id : String
  pub model_requested : String
  pub model_served : String
  pub provider : String
  pub classification : Classification
  pub prompt_tokens : ℤ
  pub completion_tokens : ℤ
  pub total_tokens : ℤ
  pub estimated_cost_usd : F
  pub duration_ms : ℕ
  pub status_code : ℤ
  pub project : String
  pub stream : Bool

-- The calls of the audit logger, of the metrics and of the usage recorder.
pub data Effect (F : Type 0) : Type 0 where
  noted : Event → Effect F
  request_recorded : RequestLabels F → Effect F
  streaming_recorded : StreamingLabels F → Effect F
  usage_recorded : UsageRecord F → Effect F

-- What outlives a request: the health tracker, which may be nil, and the prices' cache, where costs are
-- calculated.
pub record State (F : Type 0) : Type 0 where
  pub tracker : Option HealthTracker
  pub calculator : Option (Calculator F)

-- The response: an error, the completion, the stream's writes after a status of 200, or a panic:
-- on a response that is nil without an error, which the HTTP client does not give, or on a nil pointer.
pub data Reply (F : Type 0) : Type 0 where
  refused : ErrorResponse → Reply F
  answered : AegisResponse F → Reply F
  streamed : List String → Reply F
  crashed : Reply F

-- What a handler leaves: the state, its effects in order, and the response.
pub record Outcome (F : Type 0) : Type 0 where
  pub state : State F
  pub effects : List (Effect F)
  pub reply : Reply F

-- Whether the metrics, the audit logger and the usage recorder are there.
pub record Switches : Type 0 where
  pub metrics : Bool
  pub audit : Bool
  pub usage : Bool

-- When the request came in, was routed, was sent on to the provider, got the provider's answer, and was
-- done with; in nanoseconds.
pub record Clock : Type 0 where
  pub received_at : ℕ
  pub routed_at : ℕ
  pub sent_at : ℕ
  pub answered_at : ℕ
  pub finished_at : ℕ

-- `time.Since(start).Milliseconds()` at the end.
abbrev pub milliseconds_since : ℕ → Clock → ℕ
milliseconds_since start clock = (clock.finished_at - start) / 1_000_000

abbrev pub milliseconds : Clock → ℕ
milliseconds clock = milliseconds_since clock.received_at clock

module _ {F : Type 0} where
  -- An effect behind `if … != nil`.
  abbrev pub if_on : Bool → Effect F → List (Effect F)
  if_on false e = []
  if_on true e = e ∷ []

  abbrev pub note_all : List Event → List (Effect F)
  note_all [] = []
  note_all (e ∷ es) = noted e ∷ note_all es

  -- `healthTracker.RecordFailure`, `RecordSuccess` where there is a tracker.
  abbrev pub failed_at : ℕ → String → State F → State F
  failed_at now provider s = record s {
    tracker = Option.map (λ ht. tracker_failure now ht provider) s.tracker;
  }

  abbrev pub succeeded_at : String → State F → State F
  succeeded_at provider s = record s {
    tracker = Option.map (λ ht. tracker_success ht provider) s.tracker;
  }

  abbrev pub refuse : State F → List (Effect F) → ErrorResponse → Outcome F
  refuse s effects e = record { state = s; effects = effects; reply = refused e }
