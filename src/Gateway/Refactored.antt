-- ===== src/Gateway/Refactored.antt =====
-- `ChatCompletionsRefactored` of internal/gateway/handler_refactored.go with its parts in
-- request_processor.go, router_processor.go and telemetry_logger.go: the same request in stages that
-- return errors. As in Gateway/Handler, the effects leave out what the goroutine of the context monitor
-- and the validator record themselves.
pub mod Stages
pub mod Answers
pub mod Filters
pub mod Calls
pub mod Agreement
pub mod Adapters
use aegis_ai_gateway.Prelude.{
  Result, ℤ, ◌||◌, pos, leb_ℤ, not, ◌++◌, ◌==◌, List, Bool, if◌then◌else◌, Option, Float64, String,
  ℕ, ◌∷◌, [], ok, err, some, none, false,
}
use aegis_ai_gateway.Types.{AegisRequest, AegisResponse, AuthInfo}
use aegis_ai_gateway.Http.{
  Text, plain, joined, HttpError, HttpResponse, ErrorResponse, write_auth_error,
  write_bad_request_error, write_content_blocked_error, write_internal_error,
  write_service_unavailable_error,
}
use aegis_ai_gateway.Events.{when, Event, filter_block, filter_action}
use aegis_ai_gateway.Validation.{Limits}
use aegis_ai_gateway.Filter.{FilterResult, Filter, run}
use aegis_ai_gateway.Router.{RouteError}
use aegis_ai_gateway.Retry.{execute}
use aegis_ai_gateway.Cost.{Calculator}
use aegis_ai_gateway.Provider.{HttpRequest, ProviderAdapter}
use aegis_ai_gateway.Gateway.{
  ℤ, List, Bool, String, ℕ, Option, Effect, State, Outcome, Reply, refused, answered, crashed,
  failed_at, succeeded_at, refuse, note_all,
}
use aegis_ai_gateway.Gateway.Stream.{handle_stream}
use aegis_ai_gateway.Gateway.Handler.{prefixed, find_route}
use aegis_ai_gateway.Gateway.Parts.{
  block_events, if_blocks, action_text, is_flag, Handler, Body, unreadable, invalid_json, decoded,
  Incoming, Formats, enrich, check_with,
}
use aegis_ai_gateway.Gateway.Delivery.{world_of, is_some, completed_effects, price, Delivered}

-- What a stage gives: a value, an error, or a panic.
pub data Step (A : Type 0) : Type 0 where
  done : A → Step A
  failed : HttpError → Step A
  panicked : Step A

-- An interface that is nil, or holds a pointer. The stages' fields are interfaces and are given the
-- handler's pointers, so that a nil pointer among them is in an interface that is not nil: the guards
-- `!= nil` let it pass, and a method that reads the pointer's fields panics.
pub data Boxed (A : Type 0) : Type 0 where
  unset : Boxed A
  boxed : Option A → Boxed A

abbrev pub step_error : ℕ → Text → HttpError
step_error status message = record { status_code = status; message = message }

-- `writeHTTPError`
unfoldable pub write_http_error : String → HttpError → ErrorResponse
write_http_error request_id e =
    if e.status_code == 400
    then write_bad_request_error request_id e.message
    else if e.status_code == 401
    then write_auth_error request_id e.message
    else if e.status_code == 403
    then write_content_blocked_error request_id e.message
    else if e.status_code == 503
    then write_service_unavailable_error request_id e.message
    else write_internal_error request_id e.message

module _ (fl : Float64) (formats : Formats fl.F) (h : Handler fl.F) (inc : Incoming fl.F) where
  abbrev pub as_bad_request : Option String → Step Unit
  as_bad_request none = done tt
  as_bad_request (some message) = failed (step_error 400 (plain message))

  -- `RequestProcessor.validateRequest`
  unfoldable pub validate_request : Boxed (Limits fl.F) → AegisRequest fl.F → Step Unit
  validate_request unset req = as_bad_request (check_with fl formats h inc none req)
  validate_request (boxed none) req = panicked
  validate_request (boxed (some limits)) req =
      as_bad_request (check_with fl formats h inc (some limits) req)

  abbrev pub validated : AegisRequest fl.F → Step Unit → Step (AegisRequest fl.F)
  validated req (done u) = done req
  validated req (failed e) = failed e
  validated req panicked = panicked

  unfoldable pub parse_and_validate_request :
      Boxed (Limits fl.F) → AuthInfo → Body fl.F → Step (AegisRequest fl.F)
  unfolding validate_request
  parse_and_validate_request v info unreadable =
      failed (step_error 400 (plain "Failed to read request body"))
  parse_and_validate_request v info (invalid_json e) =
      failed (step_error 400 (joined "Invalid JSON: " e))
  parse_and_validate_request v info (decoded req) =
      validated (enrich fl formats h inc info req)
        (validate_request v (enrich fl formats h inc info req))

  -- The calls of `RunFilters` for the results: what is told before it ends.
  abbrev pub audit_block : FilterResult fl.F → List Event
  audit_block r = when h.on.audit (filter_block r.filter_name (formats.message_text r.message))

  abbrev pub blocked_error : FilterResult fl.F → HttpError
  blocked_error r = step_error 403 (plain (formats.message_text r.message))

  abbrev pub tell_block : Boxed Unit → FilterResult fl.F → List Event × Step Unit
  tell_block unset r = (audit_block r, failed (blocked_error r))
  tell_block (boxed none) r = (audit_block r, panicked)
  tell_block (boxed (some u)) r = (
    audit_block r ++ filter_action r.filter_name (action_text r.action) ∷ [],
    failed (blocked_error r),
  )

  abbrev pub tell_flags : Boxed Unit → List (FilterResult fl.F) → List Event × Step Unit
  tell_flags metrics [] = ([], done tt)
  tell_flags unset (r ∷ rs) = tell_flags unset rs
  tell_flags (boxed none) (r ∷ rs) =
      if is_flag r.action then ([], panicked) else tell_flags (boxed none) rs
  tell_flags (boxed (some u)) (r ∷ rs) =
      let (events, end) = tell_flags (boxed (some u)) rs in
      (if is_flag r.action then filter_action r.filter_name "flag" ∷ events else events, end)

  abbrev pub tell_results :
      Boxed Unit → List (FilterResult fl.F) × Option (FilterResult fl.F) → List Event × Step Unit
  tell_results metrics (results, some r) = tell_block metrics r
  tell_results metrics (results, none) = tell_flags metrics results

  unfoldable pub run_filter_stage :
      Boxed Unit → Option (List (Filter fl.F)) → AegisRequest fl.F → List Event × Step Unit
  run_filter_stage metrics none req = ([], done tt)
  run_filter_stage metrics (some filters) req = tell_results metrics (run filters req)
