-- ===== src/Gateway/Handler.antt =====
-- `ChatCompletions` of internal/gateway/handler.go: the stages of a request in the order of the code,
-- each with what it leaves where it returns early. Among the effects are not what the goroutine of the
-- context monitor records when the client goes away, nor what the validator counts itself.
pub mod Gates
pub mod Passage
pub mod Origin
pub mod Answer
pub mod Breakers
pub mod Providers
pub mod Billing
pub mod Ids
use aegis_ai_gateway.Prelude.{
  ◌==◌, length, ok, str_eq, err, ◌++◌, none, ℕ, ℤ, if◌then◌else◌, List, [], true, some, Result,
  Bool, Option, false, Float64, String,
}
use aegis_ai_gateway.Types.{AegisRequest, AegisResponse, AuthInfo}
use aegis_ai_gateway.Config.{ModelsConfig}
use aegis_ai_gateway.Http.{
  Text, plain, joined, HttpResponse, write_auth_error, write_bad_request_error,
  write_content_blocked_error, write_internal_error, write_service_unavailable_error,
}
use aegis_ai_gateway.Events.{Event, when, filter_block, filter_action}
use aegis_ai_gateway.Validation.{Limits, ValidationError, validate}
use aegis_ai_gateway.Filter.{
  Filter, FilterResult, FilterMessage, Action, pass, flag, redact, block, is_block, run,
}
use aegis_ai_gateway.Router.{
  Registry, RouteError, unknown_model, no_eligible_provider, resolve_route,
}
use aegis_ai_gateway.Retry.{GoError, World, execute}
use aegis_ai_gateway.Cost.{Calculator, calculate}
use aegis_ai_gateway.Provider.{HttpRequest, ProviderAdapter, Sent}
use aegis_ai_gateway.Gateway.{
  ◌∷◌, List, [], true, ℕ, ℤ, HealthTracker, Option, false, String, Bool, Effect, noted,
  request_recorded, usage_recorded, State, Outcome, Reply, refused, answered, crashed, Switches,
  Clock, milliseconds, if_on, note_all, failed_at, succeeded_at, refuse,
}
use aegis_ai_gateway.Gateway.Streaming.{DecodeChunk}
use aegis_ai_gateway.Gateway.Stream.{Line, handle_stream}
use aegis_ai_gateway.Gateway.Parts.{
  enrich, check_request, block_events, run_filters, run_policy, Handler, Body, unreadable,
  invalid_json, decoded, Incoming, Formats,
}
use aegis_ai_gateway.Gateway.Delivery.{deliver, price, completed_effects, Delivered}

module _ (fl : Float64) (formats : Formats fl.F) (h : Handler fl.F) (inc : Incoming fl.F) where
  abbrev pub prefixed : List Event → Outcome fl.F → Outcome fl.F
  prefixed events o = record o { effects = note_all events ++ o.effects }

  -- The stages from the last to the first; `original` is the model that was asked for.
  unfoldable pub complete :
      AuthInfo → String → AegisRequest fl.F → State fl.F → AegisResponse fl.F → Outcome fl.F
  complete info original req s resp =
      let (calculator, priced) =
        price fl formats h inc s.calculator (record resp { request_id = inc.request_id }) in
      record {
        state = record s { calculator = calculator };
        effects = completed_effects fl formats h inc original info req priced;
        reply = answered priced;
      }

  abbrev pub respond :
      AuthInfo
      → String
      → ProviderAdapter fl.F
      → AegisRequest fl.F
      → State fl.F
      → Result String (AegisResponse fl.F)
      → Outcome fl.F
  respond info original adapter req s (err e) =
      refuse s []
        (write_internal_error inc.request_id (plain "Failed to process provider response"))
  respond info original adapter req s (ok resp) =
      complete info original req (succeeded_at adapter.name s) resp

  abbrev pub receive :
      AuthInfo
      → String
      → ProviderAdapter fl.F
      → AegisRequest fl.F
      → State fl.F
      → Option HttpResponse
      → Outcome fl.F
  receive info original adapter req s none = record { state = s; effects = []; reply = crashed }
  receive info original adapter req s (some resp) =
      respond info original adapter req s (adapter.transform_response resp)

  abbrev pub settle_delivery :
      AuthInfo
      → String
      → ProviderAdapter fl.F
      → AegisRequest fl.F
      → State fl.F
      → Delivered
      → Outcome fl.F
  settle_delivery info original adapter req s d =
      if d.failed
      then refuse (failed_at inc.clock.answered_at adapter.name s) []
          (write_service_unavailable_error inc.request_id (plain "Provider request failed"))
      else receive info original adapter req s d.response

  unfoldable pub after_delivery :
      AuthInfo
      → String
      → ProviderAdapter fl.F
      → AegisRequest fl.F
      → State fl.F
      → Delivered
      → Outcome fl.F
  after_delivery info original adapter req s d =
      prefixed d.events (settle_delivery info original adapter req s d)

  unfoldable pub send_prepared :
      AuthInfo
      → String
      → ProviderAdapter fl.F
      → AegisRequest fl.F
      → State fl.F
      → Result String HttpRequest
      → Outcome fl.F
  unfolding deliver after_delivery
  send_prepared info original adapter req s (err e) =
      refuse s [] (write_internal_error inc.request_id (plain "Failed to prepare provider request"))
  send_prepared info original adapter req s (ok r) =
      if req.stream
      then handle_stream fl h.on inc.clock (some h.models) formats.decode inc.request_id original
          info req adapter s inc.line (adapter.send_request 0 r)
      else after_delivery info original adapter req s (deliver fl formats h inc adapter req r)

  -- The policy sees the model that was asked for, the provider the one of its route.
  abbrev pub apply_policy :
      AuthInfo
      → ProviderAdapter fl.F
      → String
      → AegisRequest fl.F
      → State fl.F
      → Option (FilterResult fl.F)
      → Outcome fl.F
  apply_policy info adapter provider_model req s (some r) =
      prefixed (block_events fl formats h inc r) (
        refuse s []
          (write_content_blocked_error inc.request_id (plain (formats.message_text r.message))))
  apply_policy info adapter provider_model req s none =
      let sent = record req { model = provider_model } in
      send_prepared info req.model adapter sent s (adapter.transform_request sent)

  unfoldable pub serve_route :
      AuthInfo
      → AegisRequest fl.F
      → State fl.F
      → Result RouteError (ProviderAdapter fl.F × String)
      → Outcome fl.F
  unfolding send_prepared run_policy
  serve_route info req s (err e) = refuse s [] (
      write_service_unavailable_error inc.request_id
        (joined "No provider available: " (formats.route_text e)))
  serve_route info req s (ok (adapter, provider_model)) =
      let typed = record req { provider_type = adapter.name } in
      apply_policy info adapter provider_model typed s (run_policy fl formats h inc typed)

  abbrev pub find_route :
      AegisRequest fl.F
      → State fl.F
      → Option HealthTracker × Result RouteError (ProviderAdapter fl.F × String)
  find_route req s =
      resolve_route inc.clock.routed_at h.registry req.classification h.models s.tracker req.model

  unfoldable pub route_request : AuthInfo → AegisRequest fl.F → State fl.F → Outcome fl.F
  unfolding serve_route
  route_request info req s =
      let (tracker, found) = find_route req s in
      serve_route info req (record s { tracker = tracker }) found

  abbrev pub filtered :
      AuthInfo
      → AegisRequest fl.F
      → State fl.F
      → List Event × Option (FilterResult fl.F)
      → Outcome fl.F
  filtered info req s (events, some r) = prefixed events (
      refuse s []
        (write_content_blocked_error inc.request_id (plain (formats.message_text r.message))))
  filtered info req s (events, none) = prefixed events (route_request info req s)

  abbrev pub checked : AuthInfo → AegisRequest fl.F → State fl.F → Option String → Outcome fl.F
  checked info req s (some message) =
      refuse s [] (write_bad_request_error inc.request_id (plain message))
  checked info req s none = filtered info req s (run_filters fl formats h inc req)

  unfoldable pub serve_body : AuthInfo → Body fl.F → State fl.F → Outcome fl.F
  unfolding route_request run_filters check_request enrich
  serve_body info unreadable s =
      refuse s [] (write_bad_request_error inc.request_id (plain "Failed to read request body"))
  serve_body info (invalid_json e) s =
      refuse s [] (write_bad_request_error inc.request_id (joined "Invalid JSON: " e))
  serve_body info (decoded req) s =
      checked info (enrich fl formats h inc info req) s
        (check_request fl formats h inc (enrich fl formats h inc info req))

  abbrev pub authenticated_as : Option AuthInfo → State fl.F → Outcome fl.F
  authenticated_as none s =
      refuse s [] (write_auth_error inc.request_id (plain "Not authenticated"))
  authenticated_as (some info) s = serve_body info inc.body s

  unfoldable pub chat_completions : State fl.F → Outcome fl.F
  unfolding serve_body
  chat_completions s = authenticated_as inc.auth s
