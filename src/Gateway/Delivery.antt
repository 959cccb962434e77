-- ===== src/Gateway/Delivery.antt =====
-- internal/gateway/handler.go: the call of the provider, the cost, and what is recorded of a completion.
use aegis_ai_gateway.Prelude.{
  pos, ok, err, ◌++◌, none, ℕ, ℤ, if◌then◌else◌, List, [], true, some, Result, Bool, Option, false,
  Float64, String,
}
use aegis_ai_gateway.Types.{AegisRequest, AegisResponse, AuthInfo}
use aegis_ai_gateway.Http.{HttpResponse}
use aegis_ai_gateway.Events.{Event}
use aegis_ai_gateway.Retry.{GoError, World, execute}
use aegis_ai_gateway.Cost.{Calculator, calculate}
use aegis_ai_gateway.Provider.{HttpRequest, ProviderAdapter, Sent}
use aegis_ai_gateway.Gateway.{
  List, [], true, ℕ, ℤ, Option, false, String, Bool, Effect, request_recorded, usage_recorded,
  milliseconds, if_on,
}
use aegis_ai_gateway.Gateway.Parts.{Handler, Incoming, Formats}

-- The error of a transformation, which is none of those that `isRetryable` knows.
abbrev pub plain_error : GoError
plain_error = record {
  is_canceled = false;
  is_circuit_open = false;
  is_deadline_exceeded = false;
  as_net_error = false;
  as_op_error = false;
  is_conn_refused = false;
  is_conn_reset = false;
  is_timed_out = false;
}

abbrev pub is_some {ℓ} : {A : Type ℓ} → Option A → Bool
is_some none = false
is_some (some a) = true

-- What the provider's call gives: the response, whether there is an error, and what is told.
pub record Delivered : Type 0 where
  pub response : Option HttpResponse
  pub failed : Bool
  pub events : List Event

module _ (fl : Float64) (formats : Formats fl.F) (h : Handler fl.F) (inc : Incoming fl.F) where
  -- The closure given to the executor: the request is made anew for each attempt.
  abbrev pub call_of : ProviderAdapter fl.F → Result String HttpRequest → ℕ → Sent
  call_of adapter (err e) attempt = (none, some plain_error)
  call_of adapter (ok r) attempt = adapter.send_request attempt r

  abbrev pub world_of : ProviderAdapter fl.F → AegisRequest fl.F → World
  world_of adapter req = record {
    call = call_of adapter (adapter.transform_request req);
    cancelled_before = inc.cancelled_before;
    cancelled_waiting = inc.cancelled_waiting;
  }

  abbrev pub send_with :
      Option ℤ → ProviderAdapter fl.F → AegisRequest fl.F → HttpRequest → Delivered
  send_with none adapter req r =
      let (resp, e) = adapter.send_request 0 r in
      record { response = resp; failed = is_some e; events = [] }
  send_with (some retries) adapter req r =
      let o = execute retries h.on.metrics adapter.name (world_of adapter req) in
      record { response = o.response; failed = is_some o.error; events = o.events }

  unfoldable pub deliver : ProviderAdapter fl.F → AegisRequest fl.F → HttpRequest → Delivered
  deliver adapter req r = send_with h.max_retries adapter req r

  abbrev pub set_cost : fl.F × Bool → AegisResponse fl.F → AegisResponse fl.F
  set_cost (cost, found) r = if found then record r { estimated_cost_usd = cost } else r

  abbrev pub price :
      Option (Calculator fl.F) → AegisResponse fl.F → Option (Calculator fl.F) × AegisResponse fl.F
  price none r = (none, r)
  price (some c) r =
      let (c', cost, found) =
        calculate fl (some h.models) c r.provider r.model r.usage.prompt_tokens
          r.usage.completion_tokens in
      (some c', set_cost (cost, found) r)

  -- What is recorded of a completion.
  abbrev pub completed_effects :
      String → AuthInfo → AegisRequest fl.F → AegisResponse fl.F → List (Effect fl.F)
  completed_effects original info req r =
      if_on h.on.metrics (
        request_recorded (record {
          org = info.organization_id;
          team = info.team_id;
          model = original;
          provider = r.provider;
          status = "200";
          classification = info.max_classification;
          duration_ms = milliseconds inc.clock;
          overhead_ms = milliseconds inc.clock;
          prompt_tokens = r.usage.prompt_tokens;
          completion_tokens = r.usage.completion_tokens;
          cost_usd = r.estimated_cost_usd;
        }))
      ++ if_on h.on.usage (
          usage_recorded (record {
            request_id = inc.request_id;
            organization_id = info.organization_id;
            team_id = info.team_id;
            user_id = info.user_id;
            api_key_id = info.key_id;
            model_requested = original;
            model_served = r.model;
            provider = r.provider;
            classification = info.max_classification;
            prompt_tokens = r.usage.prompt_tokens;
            completion_tokens = r.usage.completion_tokens;
            total_tokens = r.usage.total_tokens;
            estimated_cost_usd = r.estimated_cost_usd;
            duration_ms = milliseconds inc.clock;
            status_code = pos 200;
            project = req.project;
            stream = false;
          }))
