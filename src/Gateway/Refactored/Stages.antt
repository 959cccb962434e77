-- ===== src/Gateway/Refactored/Stages.antt =====
-- The stages of internal/gateway/handler_refactored.go from the routing on, and the handler itself.
use aegis_ai_gateway.Prelude.{
  true, Result, ℤ, ◌||◌, pos, leb_ℤ, not, List, Bool, if◌then◌else◌, Option, Float64, String, [],
  ok, err, some, none, false,
}
use aegis_ai_gateway.Types.{AegisRequest, AegisResponse, AuthInfo}
use aegis_ai_gateway.Http.{plain, joined, HttpError, HttpResponse, write_auth_error}
use aegis_ai_gateway.Events.{Event}
use aegis_ai_gateway.Filter.{FilterResult}
use aegis_ai_gateway.Router.{RouteError}
use aegis_ai_gateway.Retry.{execute}
use aegis_ai_gateway.Cost.{Calculator}
use aegis_ai_gateway.Provider.{HttpRequest, ProviderAdapter}
use aegis_ai_gateway.Gateway.{
  Effect, ℤ, List, Bool, String, Option, State, Outcome, answered, crashed, failed_at, succeeded_at,
  refuse,
}
use aegis_ai_gateway.Gateway.Stream.{handle_stream}
use aegis_ai_gateway.Gateway.Handler.{prefixed, find_route}
use aegis_ai_gateway.Gateway.Parts.{block_events, if_blocks, Handler, Incoming, Formats}
use aegis_ai_gateway.Gateway.Delivery.{world_of, is_some, completed_effects, price}
use aegis_ai_gateway.Gateway.Refactored.{
  Step, done, failed, panicked, Boxed, unset, boxed, step_error, write_http_error,
  parse_and_validate_request, run_filter_stage, blocked_error,
}

module _ (fl : Float64) (formats : Formats fl.F) (h : Handler fl.F) (inc : Incoming fl.F) where
  -- `BuildResponse`: only where there are tokens is the cost calculated.
  abbrev pub has_tokens : AegisResponse fl.F → Bool
  has_tokens r =
      not (leb_ℤ r.usage.prompt_tokens (pos 0)) || not (leb_ℤ r.usage.completion_tokens (pos 0))

  unfoldable pub build_response :
      Boxed (Calculator fl.F)
      → AegisResponse fl.F
      → Option (Calculator fl.F) × Step (AegisResponse fl.F)
  build_response unset r = (none, done (record r { request_id = inc.request_id }))
  build_response (boxed none) r =
      (none, if has_tokens r then panicked else done (record r { request_id = inc.request_id }))
  build_response (boxed (some c)) r =
      let named = record r { request_id = inc.request_id } in
      let (c', priced) = price fl formats h inc (some c) named in
      if has_tokens r then (c', done priced) else (some c, done named)

  -- An early return of the handler, after what was told.
  abbrev pub give_up : State fl.F → HttpError → Outcome fl.F
  give_up s e = refuse s [] (write_http_error inc.request_id e)

  abbrev pub panic : State fl.F → Outcome fl.F
  panic s = record { state = s; effects = []; reply = crashed }

  -- `LogCompletedRequest`
  abbrev pub log_completed_request :
      AuthInfo → String → AegisRequest fl.F → AegisResponse fl.F → List (Effect fl.F)
  log_completed_request info original req resp =
      completed_effects fl formats h inc original info req resp

  abbrev pub finish :
      AuthInfo → String → AegisRequest fl.F → State fl.F → Step (AegisResponse fl.F) → Outcome fl.F
  finish info original req s (failed e) = give_up s e
  finish info original req s panicked = panic s
  finish info original req s (done resp) = record {
    state = s;
    effects = log_completed_request info original req resp;
    reply = answered resp;
  }

  unfoldable pub build :
      AuthInfo → String → AegisRequest fl.F → State fl.F → AegisResponse fl.F → Outcome fl.F
  unfolding build_response
  build info original req s resp =
      let (calculator, built) = build_response (boxed s.calculator) resp in
      finish info original req (record s { calculator = calculator }) built

  -- `TransformProviderResponse`
  abbrev pub transform_stage :
      AuthInfo
      → String
      → AegisRequest fl.F
      → State fl.F
      → Result String (AegisResponse fl.F)
      → Outcome fl.F
  transform_stage info original req s (err e) =
      give_up s (step_error 500 (plain "Failed to process provider response"))
  transform_stage info original req s (ok resp) = build info original req s resp

  abbrev pub receive_stage :
      AuthInfo
      → String
      → ProviderAdapter fl.F
      → AegisRequest fl.F
      → State fl.F
      → Option HttpResponse
      → Outcome fl.F
  receive_stage info original adapter req s none = panic s
  receive_stage info original adapter req s (some resp) =
      transform_stage info original req s (adapter.transform_response resp)

  -- `ExecuteProviderRequest` records a success before the response is looked at.
  unfoldable pub execute_provider_request :
      Boxed ℤ
      → AuthInfo
      → String
      → ProviderAdapter fl.F
      → AegisRequest fl.F
      → HttpRequest
      → State fl.F
      → Outcome fl.F
  unfolding build
  execute_provider_request (boxed none) info original adapter req r s = panic s
  execute_provider_request unset info original adapter req r s =
      let (resp, e) = adapter.send_request 0 r in
      if is_some e
      then give_up (failed_at inc.clock.answered_at adapter.name s)
          (step_error 503 (plain "Provider request failed"))
      else receive_stage info original adapter req (succeeded_at adapter.name s) resp
  execute_provider_request (boxed (some retries)) info original adapter req r s =
      let o = execute retries h.on.metrics adapter.name (world_of fl formats h inc adapter req) in
      prefixed fl formats h inc o.events (
        if is_some o.error
        then give_up (failed_at inc.clock.answered_at adapter.name s)
            (step_error 503 (plain "Provider request failed"))
        else receive_stage info original adapter req (succeeded_at adapter.name s) o.response)

  abbrev pub send_stage :
      AuthInfo
      → String
      → ProviderAdapter fl.F
      → AegisRequest fl.F
      → HttpRequest
      → State fl.F
      → Outcome fl.F
  send_stage info original adapter req r s =
      if req.stream
      then handle_stream fl h.on inc.clock (some h.models) formats.decode inc.request_id original
          info req adapter s inc.line (adapter.send_request 0 r)
      else execute_provider_request (boxed h.max_retries) info original adapter req r s

  -- `runPolicyCheck`, over the request with the model that was asked for.
  abbrev pub permit :
      AuthInfo
      → String
      → ProviderAdapter fl.F
      → AegisRequest fl.F
      → HttpRequest
      → State fl.F
      → Option (FilterResult fl.F)
      → Outcome fl.F
  permit info original adapter req r s (some blocks) =
      prefixed fl formats h inc (block_events fl formats h inc blocks)
        (give_up s (blocked_error fl formats h inc blocks))
  permit info original adapter req r s none = send_stage info original adapter req r s

  abbrev pub policy_stage :
      Option (AegisRequest fl.F → FilterResult fl.F)
      → AuthInfo
      → String
      → ProviderAdapter fl.F
      → AegisRequest fl.F
      → HttpRequest
      → State fl.F
      → Outcome fl.F
  policy_stage none info original adapter req r s = send_stage info original adapter req r s
  policy_stage (some scan) info original adapter req r s =
      let typed = record req { provider_type = adapter.name } in
      permit info original adapter typed r s
        (if_blocks fl formats h inc (scan (record typed { model = original })))

  -- `RouteToProvider`: the transformation comes before the policy, and before the adapter's name is
  -- in the request.
  abbrev pub prepared_stage :
      AuthInfo
      → String
      → ProviderAdapter fl.F
      → AegisRequest fl.F
      → State fl.F
      → Result String HttpRequest
      → Outcome fl.F
  prepared_stage info original adapter req s (err e) =
      give_up s (step_error 500 (plain "Failed to prepare provider request"))
  prepared_stage info original adapter req s (ok r) =
      policy_stage h.policy info original adapter req r s

  unfoldable pub route_to_provider :
      AuthInfo
      → AegisRequest fl.F
      → State fl.F
      → Result RouteError (ProviderAdapter fl.F × String)
      → Outcome fl.F
  unfolding execute_provider_request
  route_to_provider info req s (err e) =
      give_up s (step_error 503 (joined "No provider available: " (formats.route_text e)))
  route_to_provider info req s (ok (adapter, provider_model)) =
      prepared_stage info req.model adapter (record req { model = provider_model }) s
        (adapter.transform_request (record req { model = provider_model }))

  abbrev pub route_stage : AuthInfo → AegisRequest fl.F → State fl.F → Outcome fl.F
  route_stage info req s =
      let (tracker, found) = find_route fl formats h inc req s in
      route_to_provider info req (record s { tracker = tracker }) found

  abbrev pub after_filters :
      AuthInfo → AegisRequest fl.F → State fl.F → List Event × Step Unit → Outcome fl.F
  after_filters info req s (events, done u) =
      prefixed fl formats h inc events (route_stage info req s)
  after_filters info req s (events, failed e) = prefixed fl formats h inc events (give_up s e)
  after_filters info req s (events, panicked) = prefixed fl formats h inc events (panic s)

  -- The handler's `*telemetry.Metrics`.
  abbrev pub metrics_pointer : Bool → Option {0} Unit
  metrics_pointer false = none
  metrics_pointer true = some tt

  abbrev pub filter_stage : AuthInfo → State fl.F → Step (AegisRequest fl.F) → Outcome fl.F
  filter_stage info s (failed e) = give_up s e
  filter_stage info s panicked = panic s
  filter_stage info s (done req) =
      after_filters info req s (
        run_filter_stage fl formats h inc (boxed (metrics_pointer h.on.metrics)) h.filter_chain req)

  abbrev pub refactored_as : Option AuthInfo → State fl.F → Outcome fl.F
  refactored_as none s = refuse s [] (write_auth_error inc.request_id (plain "Not authenticated"))
  refactored_as (some info) s =
      filter_stage info s
        (parse_and_validate_request fl formats h inc (boxed h.validator) info inc.body)

  unfoldable pub chat_completions_refactored : State fl.F → Outcome fl.F
  unfolding route_to_provider run_filter_stage parse_and_validate_request
  chat_completions_refactored s = refactored_as inc.auth s
