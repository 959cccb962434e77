-- ===== src/Telemetry.antt =====
-- internal/telemetry/metrics.go: the metrics with their labels, and what each method does to them. The
-- Prometheus client counts; here is what it is told, in the order of the calls. Help texts are left out.
pub mod Laws
pub mod Numbers
use Prim.Native.Char.{char}
use Prim.Native.String.{◌++◌ as append}
use aegis_ai_gateway.Prelude.{
  ℕ, ℤ, pos, negsuc, suc, String, List, [], ◌∷◌, ◌++◌, Bool, if◌then◌else◌, ltb_ℤ, ltb, ◌==◌, ◌^◌,
  Float64,
}
use aegis_ai_gateway.Config.Dsn.{itoa_loop}
use aegis_ai_gateway.Events.{
  Event, auth_failure, rate_limit_violation, budget_violation, filter_block, redis_failure,
  rate_limit_hit, filter_action, cancellation, retry_attempt, retry_success, retry_failure,
  streaming_error, streaming_status,
}
use aegis_ai_gateway.Gateway.{
  RequestLabels, StreamingLabels, Effect, noted, request_recorded, streaming_recorded,
  usage_recorded,
}

-- The fields of `Metrics`.
pub data Metric : Type 0 where
  request_total request_duration_ms gateway_overhead_ms tokens_total cost_usd_total : Metric
  filter_action_total rate_limit_hit_total db_pool_conns db_pool_wait_duration : Metric
  retry_attempt_total retry_success_total retry_failure_total cancellation_total : Metric
  validation_failure_total policy_reload_total streaming_chunk_total : Metric
  streaming_time_to_first_token streaming_tokens_per_second streaming_duration_ms : Metric
  streaming_error_total : Metric

-- A histogram has its buckets' bounds.
pub data Kind : Type 0 where
  counter : Kind
  gauge : Kind
  histogram : List ℕ → Kind

pub record Opts : Type 0 where
  pub name : String
  pub kind : Kind
  pub labels : List String

abbrev vec : String → Kind → List String → Opts
vec name kind labels = record { name = name; kind = kind; labels = labels }

-- `NewMetrics`
unfoldable pub new_metrics : Metric → Opts
new_metrics request_total =
    vec "aegis_request_total" counter
      ("org" ∷ "team" ∷ "model" ∷ "provider" ∷ "status" ∷ "classification" ∷ [])
new_metrics request_duration_ms =
    vec "aegis_request_duration_ms"
      (histogram (50 ∷ 100 ∷ 250 ∷ 500 ∷ 1000 ∷ 2500 ∷ 5000 ∷ 10000 ∷ 30000 ∷ 60000 ∷ []))
      ("model" ∷ "provider" ∷ [])
new_metrics gateway_overhead_ms =
    vec "aegis_gateway_overhead_ms" (histogram (1 ∷ 2 ∷ 5 ∷ 10 ∷ 25 ∷ 50 ∷ 100 ∷ 250 ∷ []))
      ("org" ∷ [])
new_metrics tokens_total =
    vec "aegis_tokens_total" counter ("org" ∷ "team" ∷ "model" ∷ "direction" ∷ [])
new_metrics cost_usd_total =
    vec "aegis_cost_usd_total" counter ("org" ∷ "team" ∷ "model" ∷ "provider" ∷ [])
new_metrics filter_action_total = vec "aegis_filter_action_total" counter ("filter" ∷ "action" ∷ [])
new_metrics rate_limit_hit_total =
    vec "aegis_rate_limit_hit_total" counter ("dimension" ∷ "id" ∷ [])
new_metrics db_pool_conns = vec "aegis_db_pool_conns" gauge ("state" ∷ [])
new_metrics db_pool_wait_duration =
    vec "aegis_db_pool_wait_duration_ms"
      (histogram (1 ∷ 2 ∷ 5 ∷ 10 ∷ 25 ∷ 50 ∷ 100 ∷ 250 ∷ 500 ∷ 1000 ∷ [])) []
new_metrics retry_attempt_total =
    vec "aegis_retry_attempt_total" counter ("provider" ∷ "attempt" ∷ [])
new_metrics retry_success_total =
    vec "aegis_retry_success_total" counter ("provider" ∷ "attempt" ∷ [])
new_metrics retry_failure_total =
    vec "aegis_retry_failure_total" counter ("provider" ∷ "reason" ∷ [])
new_metrics cancellation_total = vec "aegis_cancellation_total" counter ("provider" ∷ "stage" ∷ [])
new_metrics validation_failure_total = vec "aegis_validation_failure_total" counter ("field" ∷ [])
new_metrics policy_reload_total = vec "aegis_policy_reload_total" counter ("status" ∷ [])
new_metrics streaming_chunk_total =
    vec "aegis_streaming_chunk_total" counter ("provider" ∷ "model" ∷ [])
new_metrics streaming_time_to_first_token =
    vec "aegis_streaming_time_to_first_token_ms"
      (histogram (50 ∷ 100 ∷ 250 ∷ 500 ∷ 1000 ∷ 2000 ∷ 5000 ∷ 10000 ∷ []))
      ("provider" ∷ "model" ∷ [])
new_metrics streaming_tokens_per_second =
    vec "aegis_streaming_tokens_per_second"
      (histogram (1 ∷ 5 ∷ 10 ∷ 20 ∷ 50 ∷ 100 ∷ 200 ∷ 500 ∷ 1000 ∷ [])) ("provider" ∷ "model" ∷ [])
new_metrics streaming_duration_ms =
    vec "aegis_streaming_duration_ms"
      (histogram (1000 ∷ 5000 ∷ 10000 ∷ 30000 ∷ 60000 ∷ 120000 ∷ 300000 ∷ []))
      ("provider" ∷ "model" ∷ [])
new_metrics streaming_error_total =
    vec "aegis_streaming_error_total" counter ("provider" ∷ "error_type" ∷ [])

-- `Inc`, `Add`, `Observe` or `Set` on the child that `WithLabelValues` gives.
pub data Change (F : Type 0) : Type 0 where
  inc : Change F
  add : F → Change F
  observe : F → Change F
  set : F → Change F

pub record Update (F : Type 0) : Type 0 where
  pub metric : Metric
  pub label_values : List String
  pub change : Change F

abbrev pub with_label_values : {F : Type 0} → Metric → List String → Change F → Update F
with_label_values metric values change = record {
  metric = metric;
  label_values = values;
  change = change;
}

-- What the loop is left with after `i = -i`, for the int64 `-m`: the least one is its own negation, below
-- zero, and the loop does not run.
abbrev pub negated_64 : ℕ → ℕ
negated_64 m = if ltb m (2 ^ 63) then m else 0

-- `itoa`, whose loop is that of internal/config; the sign, "-", is taken off first and put in front.
unfoldable pub itoa : ℤ → String
unfolding itoa_loop
itoa (pos n) = if n == 0 then "0" else itoa_loop n n ""
itoa (negsuc n) = String.◌∷◌ (char 45 tt) (itoa_loop (negated_64 (suc n)) (negated_64 (suc n)) "")

module _ (fl : Float64) where
  unfoldable pub record_request : RequestLabels fl.F → List (Update fl.F)
  record_request l =
      (with_label_values request_total
          (l.org ∷ l.team ∷ l.model ∷ l.provider ∷ l.status ∷ l.classification ∷ []) inc
        ∷ with_label_values request_duration_ms (l.model ∷ l.provider ∷ [])
            (observe (fl.of_int (pos l.duration_ms)))
        ∷ with_label_values gateway_overhead_ms (l.org ∷ [])
            (observe (fl.of_int (pos l.overhead_ms)))
        ∷ [])
      ++ ((if ltb_ℤ (pos 0) l.prompt_tokens
            then with_label_values tokens_total (l.org ∷ l.team ∷ l.model ∷ "prompt" ∷ [])
                (add (fl.of_int l.prompt_tokens))
              ∷ []
            else [])
          ++ ((if ltb_ℤ (pos 0) l.completion_tokens
                then with_label_values tokens_total (l.org ∷ l.team ∷ l.model ∷ "completion" ∷ [])
                    (add (fl.of_int l.completion_tokens))
                  ∷ []
                else [])
              ++ (if fl.lt (fl.of_int (pos 0)) l.cost_usd
                  then with_label_values cost_usd_total (l.org ∷ l.team ∷ l.model ∷ l.provider ∷ [])
                      (add l.cost_usd)
                    ∷ []
                  else [])))

  unfoldable pub record_streaming_metrics : StreamingLabels fl.F → List (Update fl.F)
  record_streaming_metrics l =
      with_label_values streaming_chunk_total (l.provider ∷ l.model ∷ [])
        (add (fl.of_int (pos l.chunk_count)))
      ∷ with_label_values streaming_time_to_first_token (l.provider ∷ l.model ∷ [])
          (observe (fl.of_int l.time_to_first_token_ms))
      ∷ with_label_values streaming_tokens_per_second (l.provider ∷ l.model ∷ [])
          (observe l.tokens_per_second)
      ∷ with_label_values streaming_duration_ms (l.provider ∷ l.model ∷ [])
          (observe (fl.of_int (pos l.stream_duration_ms)))
      ∷ []

  unfoldable pub record_db_pool_stats : ℤ → ℤ → ℤ → ℤ → List (Update fl.F)
  record_db_pool_stats acquired idle max total =
      with_label_values db_pool_conns ("acquired" ∷ []) (set (fl.of_int acquired))
      ∷ with_label_values db_pool_conns ("idle" ∷ []) (set (fl.of_int idle))
      ∷ with_label_values db_pool_conns ("max" ∷ []) (set (fl.of_int max))
      ∷ with_label_values db_pool_conns ("total" ∷ []) (set (fl.of_int total))
      ∷ []

  unfoldable pub record_rate_limit_hit : String → String → Update fl.F
  record_rate_limit_hit dimension id =
      with_label_values rate_limit_hit_total (dimension ∷ id ∷ []) inc

  unfoldable pub record_filter_action : String → String → Update fl.F
  record_filter_action filter action =
      with_label_values filter_action_total (filter ∷ action ∷ []) inc

  unfoldable pub record_retry_attempt : String → ℤ → Update fl.F
  record_retry_attempt provider attempt =
      with_label_values retry_attempt_total (provider ∷ itoa attempt ∷ []) inc

  unfoldable pub record_retry_success : String → ℤ → Update fl.F
  record_retry_success provider attempt =
      with_label_values retry_success_total (provider ∷ itoa attempt ∷ []) inc

  unfoldable pub record_retry_failure : String → ℤ → String → Update fl.F
  record_retry_failure provider attempt reason =
      with_label_values retry_failure_total (provider ∷ reason ∷ []) inc

  unfoldable pub record_cancellation : String → String → Update fl.F
  record_cancellation provider stage =
      with_label_values cancellation_total (provider ∷ stage ∷ []) inc

  unfoldable pub record_validation_failure : String → Update fl.F
  record_validation_failure field = with_label_values validation_failure_total (field ∷ []) inc

  unfoldable pub record_policy_reload : Bool → Update fl.F
  record_policy_reload success =
      if success
      then with_label_values policy_reload_total ("success" ∷ []) inc
      else with_label_values policy_reload_total ("error" ∷ []) inc

  unfoldable pub record_streaming_error : String → String → Update fl.F
  record_streaming_error provider error_type =
      with_label_values streaming_error_total (provider ∷ error_type ∷ []) inc

  -- What the metrics are told by a call of the handlers; the audit logger is told of the others.
  unfoldable pub event_updates : Event → List (Update fl.F)
  unfolding record_rate_limit_hit record_filter_action record_cancellation record_retry_attempt
      record_retry_success record_retry_failure record_streaming_error
  event_updates (rate_limit_hit dimension label) = record_rate_limit_hit dimension label ∷ []
  event_updates (filter_action filter action) = record_filter_action filter action ∷ []
  event_updates (cancellation provider stage) = record_cancellation provider stage ∷ []
  event_updates (retry_attempt provider n) = record_retry_attempt provider (pos n) ∷ []
  event_updates (retry_success provider n) = record_retry_success provider (pos n) ∷ []
  event_updates (retry_failure provider n reason) =
      record_retry_failure provider (pos n) reason ∷ []
  event_updates (streaming_error provider reason) = record_streaming_error provider reason ∷ []
  event_updates (streaming_status provider code) =
      record_streaming_error provider (append "http_" (itoa (pos code))) ∷ []
  event_updates (auth_failure key reason) = []
  event_updates (rate_limit_violation dimension limit) = []
  event_updates (budget_violation spent limit) = []
  event_updates (filter_block filter_type reason) = []
  event_updates (redis_failure operation) = []

  unfoldable pub effect_updates : Effect fl.F → List (Update fl.F)
  unfolding event_updates record_request record_streaming_metrics
  effect_updates (noted e) = event_updates e
  effect_updates (request_recorded l) = record_request l
  effect_updates (streaming_recorded l) = record_streaming_metrics l
  effect_updates (usage_recorded u) = []
