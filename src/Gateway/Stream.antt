-- ===== src/Gateway/Stream.antt =====
-- `HandleStream` of internal/gateway/streaming_enhanced.go: the call of the provider, the forwarding
-- and what is recorded at the end. Its durations start with it, not with the request.
use aegis_ai_gateway.Prelude.{
  ◌%◌, true, negsuc, ◌/◌, leb_ℤ, ◌-◌, ◌==◌, pos, [], if◌then◌else◌, some, ◌++◌, ℕ, Option, ℤ, none,
  List, String, Float64, Bool,
}
use aegis_ai_gateway.Types.{AegisRequest, AuthInfo}
use aegis_ai_gateway.Config.{ModelsConfig}
use aegis_ai_gateway.Http.{plain, write_internal_error, write_service_unavailable_error}
use aegis_ai_gateway.Events.{streaming_error, streaming_status}
use aegis_ai_gateway.Cost.{Calculator, calculate}
use aegis_ai_gateway.Provider.{ProviderAdapter, Sent}
use aegis_ai_gateway.Gateway.{
  true, [], ℤ, List, String, ℕ, Option, Bool, Effect, noted, request_recorded, streaming_recorded,
  usage_recorded, State, if_on, note_all, failed_at, Outcome, refuse, streamed, refused, Switches,
  Clock, milliseconds_since, Reply, crashed,
}
use aegis_ai_gateway.Gateway.Streaming.{StreamMetrics, Picked, DecodeChunk, Streamed, stream_loop}

-- What a stream meets: whether the writer can flush, and what each round of the loop picks.
pub record Line : Type 0 where
  pub flushes : Bool
  pub picked : List (ℕ × Picked)

module _ (fl : Float64) where
  -- `FirstChunkTime.Sub(StartTime).Milliseconds()`. With no chunk the first is the zero time, and the
  -- difference is the least duration; with neither it is 0.
  abbrev pub to_first_token : Option ℕ → Option ℕ → ℤ
  to_first_token none first = pos 0
  to_first_token (some start) none = negsuc 9_223_372_036_853
  to_first_token (some start) (some first) = pos ((first - start) / 1_000_000)

  -- `duration.Seconds()` for a number of nanoseconds.
  abbrev pub seconds : ℕ → fl.F
  seconds d =
      fl.add (fl.of_int (pos (d / 1_000_000_000)))
        (fl.div (fl.of_int (pos (d % 1_000_000_000))) (fl.of_int (pos 1_000_000_000)))

  unfoldable pub calculate_tokens_per_second : ℤ → ℕ → fl.F
  calculate_tokens_per_second tokens duration =
      if duration == 0 then fl.of_int (pos 0) else fl.div (fl.of_int tokens) (seconds duration)

  abbrev pub no_metrics : StreamMetrics fl.F
  no_metrics = record {
    start_time = none;
    first_chunk_time = none;
    chunk_count = 0;
    prompt_tokens = pos 0;
    completion_tokens = pos 0;
    total_tokens = pos 0;
    estimated_cost_usd = fl.of_int (pos 0);
    provider = "";
    model = "";
  }

  -- `streamWithMonitoring`; where the writer cannot flush, `none` stands for the error response.
  unfoldable pub stream_with_monitoring :
      ProviderAdapter fl.F
      → DecodeChunk
      → Bool
      → ℕ
      → Line
      → StreamMetrics fl.F × Option (Streamed fl.F)
  stream_with_monitoring adapter decode measured now l =
      let start = record no_metrics { start_time = some now; provider = adapter.name } in
      let s = stream_loop adapter.transform_stream_chunk decode measured l.picked start in
      if l.flushes then (s.metrics, some s) else (no_metrics, none)

  abbrev pub price_stream :
      Option (ModelsConfig fl.F)
      → Option (Calculator fl.F)
      → StreamMetrics fl.F
      → Option (Calculator fl.F) × StreamMetrics fl.F
  price_stream cfg none m = (none, m)
  price_stream cfg (some c) m =
      let (c', cost, found) =
        calculate fl cfg c m.provider m.model m.prompt_tokens m.completion_tokens in
      if leb_ℤ m.total_tokens (pos 0)
      then (some c, m)
      else (some c', if found then record m { estimated_cost_usd = cost } else m)

  abbrev pub stream_effects :
      Switches
      → Clock
      → String
      → String
      → AuthInfo
      → AegisRequest fl.F
      → StreamMetrics fl.F
      → List (Effect fl.F)
  stream_effects on clock request_id original_model info req m =
      if_on on.metrics (
        request_recorded (record {
          org = info.organization_id;
          team = info.team_id;
          model = original_model;
          provider = m.provider;
          status = "200";
          classification = info.max_classification;
          duration_ms = milliseconds_since clock.sent_at clock;
          overhead_ms = milliseconds_since clock.sent_at clock;
          prompt_tokens = m.prompt_tokens;
          completion_tokens = m.completion_tokens;
          cost_usd = m.estimated_cost_usd;
        }))
      ++ (if_on on.metrics (
            streaming_recorded (record {
              provider = m.provider;
              model = original_model;
              chunk_count = m.chunk_count;
              time_to_first_token_ms = to_first_token m.start_time m.first_chunk_time;
              tokens_per_second =
                  calculate_tokens_per_second m.completion_tokens
                    (clock.finished_at - clock.sent_at);
              stream_duration_ms = milliseconds_since clock.sent_at clock;
            }))
          ++ if_on on.usage (
              usage_recorded (record {
                request_id = request_id;
                organization_id = info.organization_id;
                team_id = info.team_id;
                user_id = info.user_id;
                api_key_id = info.key_id;
                model_requested = original_model;
                model_served = m.model;
                provider = m.provider;
                classification = info.max_classification;
                prompt_tokens = m.prompt_tokens;
                completion_tokens = m.completion_tokens;
                total_tokens = m.total_tokens;
                estimated_cost_usd = m.estimated_cost_usd;
                duration_ms = milliseconds_since clock.sent_at clock;
                status_code = pos 200;
                project = req.project;
                stream = true;
              })))

  abbrev pub stream_reply : String → Option (Streamed fl.F) → Reply fl.F
  stream_reply request_id none =
      refused (write_internal_error request_id (plain "Streaming not supported"))
  stream_reply request_id (some s) = streamed s.writes

  abbrev pub stream_events : Option (Streamed fl.F) → List (Effect fl.F)
  stream_events none = []
  stream_events (some s) = note_all s.events

  module _ (on : Switches) (clock : Clock) (cfg : Option (ModelsConfig fl.F)) (decode : DecodeChunk)
      (request_id original_model : String) (info : AuthInfo) (req : AegisRequest fl.F)
      (adapter : ProviderAdapter fl.F) (s : State fl.F) where
    abbrev pub after_stream : StreamMetrics fl.F × Option (Streamed fl.F) → Outcome fl.F
    after_stream (m, done) =
        let (calculator, priced) = price_stream cfg s.calculator m in
        record {
          state = record s { calculator = calculator };
          effects =
              stream_events done
              ++ stream_effects on clock request_id original_model info req priced;
          reply = stream_reply request_id done;
        }

    -- By what the call of the provider gives. A response with no error is there.
    unfoldable pub handle_stream : Line → Sent → Outcome fl.F
    unfolding stream_with_monitoring
    handle_stream l (resp, some e) =
        refuse (failed_at clock.answered_at adapter.name s)
          (if_on on.metrics (noted (streaming_error adapter.name "request_failed")))
          (write_service_unavailable_error request_id (plain "Provider request failed"))
    handle_stream l (none, none) = record { state = s; effects = []; reply = crashed }
    handle_stream l (some resp, none) =
        if resp.status_code == 200
        then after_stream (stream_with_monitoring adapter decode on.metrics clock.answered_at l)
        else refuse s (if_on on.metrics (noted (streaming_status adapter.name resp.status_code)))
            (write_internal_error request_id (plain "Provider returned error"))
