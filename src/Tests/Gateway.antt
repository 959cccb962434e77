-- ===== src/Tests/Gateway.antt =====
-- The theorems on internal/gateway and internal/router/adapters at concrete inputs: a provider
-- "azure_openai" that is reached through the adapter named "openai".
use aegis_ai_gateway.Prelude.{
  arith, inr, ap, sym, ◌≡◌, insert, lookup, ◌∷◌, [], ok, some, none, false, true, pos, ℕ, Bool,
  whole_numbers, refl,
}
use aegis_ai_gateway.Types.{
  parse_classification, allows, level, AegisRequest, AegisResponse, AuthInfo,
}
use aegis_ai_gateway.Config.{ModelsConfig, ModelMapping, ProviderRoute}
use aegis_ai_gateway.Validation.Laws.{validate_iff}
use aegis_ai_gateway.Validation.{
  contains_dangerous_chars, is_valid_role, is_valid_model_char, all_model_chars,
  validate_stop_sequences, validate_message, message_loop, validate_messages, validate_model,
  validate, default_limits,
}
use aegis_ai_gateway.Filter.{run, Filter, flag, no_message}
use aegis_ai_gateway.Health.{is_available, get_breaker, tracker_success}
use aegis_ai_gateway.Router.{
  resolve_route, try_routes, try_route, route_eligible, provider_healthy, get,
}
use aegis_ai_gateway.Circuit.{new_circuit_breaker, allow, record_success}
use aegis_ai_gateway.Retry.{execute, execute_from, settle, is_retryable}
use aegis_ai_gateway.Cost.{calculate, get_price, configured_price}
use aegis_ai_gateway.Provider.{ProviderAdapter, Sent}
use aegis_ai_gateway.Gateway.{State}
use aegis_ai_gateway.Gateway.Handler.{
  find_route, complete, after_delivery, send_prepared, serve_route, route_request, serve_body,
  chat_completions,
}
use aegis_ai_gateway.Gateway.Parts.{
  enrich, run_policy, run_filters, check_request, Handler, Incoming, Formats, Body, decoded,
}
use aegis_ai_gateway.Gateway.Delivery.{deliver, plain_error}
use aegis_ai_gateway.Http.{HttpResponse}
use aegis_ai_gateway.Provider.{HttpRequest}
use aegis_ai_gateway.Gateway.Handler.Origin.{IsRoutedWithin, chat_completions-IsRoutedWithin}
use aegis_ai_gateway.Gateway.Handler.Answer.{Recovers, IsAnsweredWith, chat_completions_answered}
use aegis_ai_gateway.Gateway.Handler.Gates.{is_served, Passed, chat_completions-Passed}
use aegis_ai_gateway.Gateway.Handler.Passage.{outgoing}

abbrev route : ProviderRoute
route = record {
  provider = "azure_openai";
  model = "gpt-4o";
  deployment = "";
  endpoint = "";
  classification_ceiling = "CONFIDENTIAL";
}

abbrev gpt : ModelMapping
gpt = record { display_name = "GPT"; primary = route; fallback = [] }

abbrev models : ModelsConfig ℕ
models = record { models = ("gpt", gpt) ∷ []; pricing = none }

abbrev completion : AegisResponse ℕ
completion = record {
  request_id = "";
  model = "gpt-4o";
  provider = "openai";
  choices = [];
  usage = record { prompt_tokens = pos 2; completion_tokens = pos 1; total_tokens = pos 3 };
  estimated_cost_usd = 0;
}

-- The adapter over a provider that answers every call the same.
abbrev adapter : Sent → ProviderAdapter ℕ
adapter sent = record {
  name = "openai";
  supports_streaming = true;
  transform_request = λ req. ok (record { url = "u"; headers = []; body = req.model });
  transform_response = λ resp. ok completion;
  transform_stream_chunk = λ chunk. ok (some chunk);
  send_request = λ attempt r. sent;
}

abbrev pub answers : Sent
answers = (some (record { status_code = 200; body = "" }), none)

abbrev fails : Sent
fails = (none, some plain_error)

abbrev flags : Filter ℕ
flags = record {
  name = "f";
  enabled = true;
  scan_request = λ req. record {
    action = flag;
    filter_name = "f";
    message = no_message;
    detections = 1;
    score = 0;
  };
}

abbrev pub handler : Sent → Handler ℕ
handler sent = record {
  registry = ("azure_openai", adapter sent) ∷ [];
  models = models;
  filter_chain = some (flags ∷ []);
  policy = none;
  on = record { metrics = true; audit = true; usage = true };
  max_retries = some (pos 1);
  validator = some (default_limits whole_numbers);
}

abbrev pub info : AuthInfo
info = record {
  key_id = "k";
  organization_id = "o";
  team_id = "t";
  user_id = "u";
  max_classification = "INTERNAL";
  allowed_models = "gpt" ∷ [];
  rpm_limit = none;
  tpm_limit = none;
  daily_spend_limit_cents = none;
}

-- A body that claims another classification.
abbrev pub request : AegisRequest ℕ
request = record {
  request_id = "";
  organization_id = "";
  team_id = "";
  user_id = "";
  api_key_id = "";
  classification = "PUBLIC";
  model = "gpt";
  messages = record { role = "user"; content = "hi"; name = "" } ∷ [];
  temperature = none;
  max_tokens = none;
  stream = false;
  top_p = none;
  stop = [];
  project = "";
  prefer_provider = "";
  trace_context = "";
  skip_cache = false;
  provider_type = "";
  received_at = 0;
  estimated_tokens = pos 0;
}

abbrev pub incoming : Incoming ℕ
incoming = record {
  request_id = "r1";
  auth = some info;
  body = decoded request;
  project = "p";
  prefer_provider = "";
  trace_context = "";
  clock = record { received_at = 0; routed_at = 1; sent_at = 2; answered_at = 3; finished_at = 4 };
  cancelled_before = λ attempt. false;
  cancelled_waiting = λ attempt. false;
  line = record { flushes = true; picked = [] };
}

abbrev pub formats : Formats ℕ
formats = record {
  message_text = λ m. "m";
  errors_text = λ es. "e";
  route_text = λ e. "r";
  decode = λ chunk. none;
}

abbrev pub state : State ℕ
state = record {
  tracker = some (record { breakers = []; failure_threshold = 3; recovery_probe_interval = 30 });
  calculator = some (record { price_cache = [] });
}

served :
    is_served (chat_completions whole_numbers formats (handler answers) incoming state).reply ≡ true
unfolding chat_completions serve_body check_request run_filters run_policy route_request serve_route
    send_prepared deliver after_delivery complete enrich validate validate_model validate_messages
    message_loop validate_message validate_stop_sequences all_model_chars is_valid_model_char
    is_valid_role contains_dangerous_chars default_limits run resolve_route try_routes try_route
    route_eligible provider_healthy get lookup insert parse_classification allows level is_available
    get_breaker new_circuit_breaker allow execute execute_from settle is_retryable calculate
    get_price configured_price tracker_success record_success
served = refl

valid :
    (sent : Sent)
    → (validate whole_numbers
        (default_limits whole_numbers)
        (enrich whole_numbers formats (handler sent) incoming info request)).errors
      ≡ []
unfolding enrich validate validate_model validate_messages message_loop validate_message
    validate_stop_sequences all_model_chars is_valid_model_char is_valid_role
    contains_dangerous_chars default_limits
valid sent = refl

routed :
    (sent : Sent)
    → (find_route whole_numbers formats
        (handler sent)
        incoming
        (enrich whole_numbers formats (handler sent) incoming info request)
        state).1
      ≡ ok (adapter sent, "gpt-4o")
unfolding enrich resolve_route try_routes try_route route_eligible provider_healthy get lookup
    insert parse_classification allows level is_available get_breaker new_circuit_breaker allow
routed sent = refl

abbrev passed : (sent : Sent) → Passed whole_numbers formats (handler sent) incoming state
passed sent = record {
  info = info;
  req = request;
  adapter = adapter sent;
  provider_model = "gpt-4o";
  known = refl;
  sent = refl;
  accepted =
      (validate_iff whole_numbers (default_limits whole_numbers)
          (enrich whole_numbers formats (handler sent) incoming info request)).0
        (valid sent);
  clear = (inr refl, tt);
  routed = routed sent;
  permitted = tt;
}

chat_completions-Passed_example : Passed whole_numbers formats (handler answers) incoming state
chat_completions-Passed_example =
    chat_completions-Passed whole_numbers formats (handler answers) incoming state served

chat_completions-IsRoutedWithin_example :
    IsRoutedWithin whole_numbers formats
      (handler answers)
      incoming
      info
      request
      (chat_completions whole_numbers formats (handler answers) incoming state).reply
unfolding parse_classification
chat_completions-IsRoutedWithin_example =
    chat_completions-IsRoutedWithin whole_numbers formats (handler answers) incoming state info
      request refl refl refl served

abbrev raw : HttpResponse
raw = record { status_code = 200; body = "" }

abbrev sent_on : HttpRequest
sent_on = record { url = "u"; headers = []; body = "gpt-4o" }

recovers :
    Recovers whole_numbers formats
      (handler answers)
      incoming
      (adapter answers)
      (outgoing whole_numbers formats (handler answers) incoming state (passed answers))
      1
      0
      sent_on
      raw
recovers = record {
  retried = refl;
  within = omega arith;
  patient = λ i. (refl, refl);
  made = refl;
  before = λ i lt. absurd (omega (arith, lt));
  answers = refl;
  fine = omega arith;
}

chat_completions_answered_example :
    IsAnsweredWith whole_numbers formats
      (handler answers)
      incoming
      completion
      (chat_completions whole_numbers formats (handler answers) incoming state).reply
unfolding enrich
chat_completions_answered_example =
    chat_completions_answered whole_numbers formats (handler answers) incoming state
      (passed answers) 1 0 sent_on raw completion refl recovers refl

abbrev body_stream : Body ℕ → Bool
body_stream (decoded req) = req.stream
body_stream _ = false

pub whole : (req : AegisRequest ℕ) → incoming.body ≡ decoded req → req.stream ≡ false
whole req e = sym (ap body_stream e)
