-- ===== src/Gateway/Parts.antt =====
-- internal/gateway/handler.go: the handler's parts, what a request brings, and what is checked of it.
use aegis_ai_gateway.Prelude.{
  ◌==◌, length, str_eq, ◌++◌, none, ℕ, ℤ, if◌then◌else◌, List, [], true, some, Bool, Option, false,
  Float64, String,
}
use aegis_ai_gateway.Types.{AegisRequest, AuthInfo}
use aegis_ai_gateway.Config.{ModelsConfig}
use aegis_ai_gateway.Events.{Event, when, filter_block, filter_action}
use aegis_ai_gateway.Validation.{Limits, ValidationError, validate}
use aegis_ai_gateway.Filter.{
  Filter, FilterResult, FilterMessage, Action, pass, flag, redact, block, is_block, run,
}
use aegis_ai_gateway.Router.{Registry, RouteError}
use aegis_ai_gateway.Provider.{ProviderAdapter}
use aegis_ai_gateway.Gateway.{
  ◌∷◌, List, [], true, ℕ, ℤ, Option, false, String, Bool, Switches, Clock,
}
use aegis_ai_gateway.Gateway.Streaming.{DecodeChunk}
use aegis_ai_gateway.Gateway.Stream.{Line}

-- The handler's parts; `none` is nil. The executor of retries is given the handler's own metrics. The policy is the filter that runs after routing, where it is
-- there and enabled; its answers, like the other filters', are those of one request.
pub record Handler (F : Type 0) : Type 0 where
  pub registry : Registry (ProviderAdapter F)
  pub models : ModelsConfig F
  pub filter_chain : Option (List (Filter F))
  pub policy : Option (AegisRequest F → FilterResult F)
  pub on : Switches
  pub max_retries : Option ℤ
  pub validator : Option (Limits F)

-- The body: unreadable, no JSON (with the decoder's error), or a request.
pub data Body (F : Type 0) : Type 0 where
  unreadable : Body F
  invalid_json : String → Body F
  decoded : AegisRequest F → Body F

-- The request, with its AEGIS headers, its times, when its context is done, and the stream it meets.
pub record Incoming (F : Type 0) : Type 0 where
  pub request_id : String
  pub auth : Option AuthInfo
  pub body : Body F
  pub project : String
  pub prefer_provider : String
  pub trace_context : String
  pub clock : Clock
  pub cancelled_before : ℕ → Bool
  pub cancelled_waiting : ℕ → Bool
  pub line : Line

-- `fmt` on what the errors carry, and the decoding of a streamed chunk.
pub record Formats (F : Type 0) : Type 0 where
  pub message_text : FilterMessage F → String
  pub errors_text : List ValidationError → String
  pub route_text : RouteError → String
  pub decode : DecodeChunk

-- `string(result.Action)`
abbrev pub action_text : Action → String
action_text pass = "pass"
action_text flag = "flag"
action_text redact = "redact"
action_text block = "block"

abbrev pub is_flag : Action → Bool
is_flag flag = true
is_flag _ = false

module _ (fl : Float64) (formats : Formats fl.F) (h : Handler fl.F) (inc : Incoming fl.F) where
  -- The identity and the headers, over whatever the body says of them.
  unfoldable pub enrich : AuthInfo → AegisRequest fl.F → AegisRequest fl.F
  enrich info req = record req {
    request_id = inc.request_id;
    organization_id = info.organization_id;
    team_id = info.team_id;
    user_id = info.user_id;
    api_key_id = info.key_id;
    classification = info.max_classification;
    received_at = inc.clock.received_at;
    project = inc.project;
    prefer_provider = inc.prefer_provider;
    trace_context = inc.trace_context;
  }

  abbrev pub errors_message : List ValidationError → Option String
  errors_message [] = none
  errors_message (e ∷ es) = some (formats.errors_text (e ∷ es))

  -- The message of the validation's error; without a validator only the two basic checks.
  abbrev pub check_with : Option (Limits fl.F) → AegisRequest fl.F → Option String
  check_with none req =
      if str_eq req.model ""
      then some "model is required"
      else if length req.messages == 0
      then some "messages is required"
      else none
  check_with (some limits) req = errors_message (validate fl limits req).errors

  unfoldable pub check_request : AegisRequest fl.F → Option String
  check_request req = check_with h.validator req

  -- What is told of a filter that blocks.
  abbrev pub block_events : FilterResult fl.F → List Event
  block_events r =
      when h.on.audit (filter_block r.filter_name (formats.message_text r.message))
      ++ when h.on.metrics (filter_action r.filter_name (action_text r.action))

  abbrev pub flag_events : List (FilterResult fl.F) → List Event
  flag_events [] = []
  flag_events (r ∷ rs) =
      (if is_flag r.action then when h.on.metrics (filter_action r.filter_name "flag") else [])
      ++ flag_events rs

  -- The chain's run: what is told, and the result that blocks.
  abbrev pub told :
      List (FilterResult fl.F) × Option (FilterResult fl.F)
      → List Event × Option (FilterResult fl.F)
  told (results, some r) = (block_events r, some r)
  told (results, none) = (flag_events results, none)

  abbrev pub filter_with :
      Option (List (Filter fl.F)) → AegisRequest fl.F → List Event × Option (FilterResult fl.F)
  filter_with none req = ([], none)
  filter_with (some filters) req = told (run filters req)

  unfoldable pub run_filters : AegisRequest fl.F → List Event × Option (FilterResult fl.F)
  run_filters req = filter_with h.filter_chain req

  -- The policy's result, where it blocks.
  abbrev pub if_blocks : FilterResult fl.F → Option (FilterResult fl.F)
  if_blocks r = if is_block r.action then some r else none

  abbrev pub policy_with :
      Option (AegisRequest fl.F → FilterResult fl.F)
      → AegisRequest fl.F
      → Option (FilterResult fl.F)
  policy_with none req = none
  policy_with (some scan) req = if_blocks (scan req)

  unfoldable pub run_policy : AegisRequest fl.F → Option (FilterResult fl.F)
  run_policy req = policy_with h.policy req
