-- ===== src/Tests/Server.antt =====
-- The router, the start and the reload of cmd/gateway/main.go at concrete inputs: one POST of a chat
-- completion, with the gateway and the provider of the tests of internal/gateway.
use aegis_ai_gateway.Prelude.{
  ℕ, String, Bool, true, false, pos, ok, some, none, List, [], ◌∷◌, ◌≡◌, refl, insert, lookup,
  trim_prefix, whole_numbers, arith,
}
use aegis_ai_gateway.Types.{parse_classification, allows, level}
use aegis_ai_gateway.Config.{ProviderConfig}
use aegis_ai_gateway.Config.Settings.{default_config}
use aegis_ai_gateway.Config.Loader.{Signal, changed, watch, holding, newest, brought}
use aegis_ai_gateway.Validation.{
  contains_dangerous_chars, is_valid_role, is_valid_model_char, all_model_chars,
  validate_stop_sequences, validate_message, message_loop, validate_messages, validate_model,
  validate, default_limits,
}
use aegis_ai_gateway.Filter.{run, pass, no_message}
use aegis_ai_gateway.Filter.Policy.{modules, answer, bool_value, text_value}
use aegis_ai_gateway.Health.{is_available, get_breaker, tracker_success}
use aegis_ai_gateway.Router.{
  resolve_route, try_routes, try_route, route_eligible, provider_healthy, get,
}
use aegis_ai_gateway.Circuit.{new_circuit_breaker, allow, record_success}
use aegis_ai_gateway.Retry.{execute, execute_from, settle, is_retryable}
use aegis_ai_gateway.Cost.{calculate, get_price, configured_price}
use aegis_ai_gateway.Auth.{KeyMetadata, authenticate, judge_row, lookup_via, lookup_key}
use aegis_ai_gateway.Auth.Guard.{HasToken}
use aegis_ai_gateway.RateLimit.Limiter.{check}
use aegis_ai_gateway.RateLimit.Breaker.{
  is_available as breaker_available, record_result, on_success, call, new_redis_circuit_breaker,
}
use aegis_ai_gateway.RateLimit.Budget.{redis_nil, check_daily_spend}
use aegis_ai_gateway.RateLimit.Middleware.{
  Limits, Replies, Setup, serve_next, middleware, after_check, check_budget, after_budget,
}
use aegis_ai_gateway.Gateway.Handler.{
  complete, after_delivery, send_prepared, serve_route, route_request, serve_body, chat_completions,
}
use aegis_ai_gateway.Gateway.Parts.{enrich, run_policy, run_filters, check_request}
use aegis_ai_gateway.Gateway.Handler.Billing.{charges}
use aegis_ai_gateway.Gateway.Delivery.{deliver}
use aegis_ai_gateway.Provider.Registry.{build_from_config}
use aegis_ai_gateway.Server.{
  Request, Server, ServerState, endpoint, request_id_of, serve_protected, serve,
}
use aegis_ai_gateway.Server.Entry.{Entered, is_completion, serve-Entered}
use aegis_ai_gateway.Server.Ids.{IsAnswered, serve-IsAnswered}
use aegis_ai_gateway.Server.Billing.{bill_of, serve_billed}
use aegis_ai_gateway.Server.Revocation.{serve_all, revoked_key_unserved}
use aegis_ai_gateway.Server.Reload.{App, Sources, callbacks, run_all, policies_after, reload-InStep}
use aegis_ai_gateway.Server.Startup.{Loaded, Outside, has_redis, new_server, new_state}
use aegis_ai_gateway.Server.Startup.Laws.{start_without_redis_unlimited}
use aegis_ai_gateway.Tests.Gateway.{answers, formats, handler, info, incoming, state, whole}
use aegis_ai_gateway.Tests.Operations.{codecs, providers}

abbrev key : KeyMetadata
key = record {
  id = "k";
  organization_id = "o";
  team_id = "t";
  user_id = "u";
  name = "ci";
  max_classification = "INTERNAL";
  allowed_models = "gpt" ∷ [];
  rpm_limit = none;
  tpm_limit = none;
  daily_spend_limit_cents = some (pos 500);
  expires_at = 1_000;
}

abbrev server : Server ℕ
server = record {
  db = λ now key_hash. ok (some key);
  hash_key = λ token. token;
  handler = handler answers;
  version = "1";
}

-- Redis lets the request through as the fourth of its minute, and knows no spend.
abbrev replies : Replies
replies = record {
  script = ok (4, true);
  spend = redis_nil;
  rate_now = 200;
  rate_done = 201;
  budget_now = 202;
  budget_done = 203;
}

abbrev request_at : ℕ → Request ℕ
request_at now = record {
  method = "POST";
  path = "/v1/chat/completions";
  request_id = "r1";
  authorization = "Bearer t";
  generated = "g";
  now = now;
  reached = true;
  replies = replies;
  database_ping = none;
  redis_ping = none;
  incoming = incoming;
}

abbrev limits : Limits
limits = record {
  limiter = some (new_redis_circuit_breaker 3 30_000_000_000);
  budget = some (new_redis_circuit_breaker 3 30_000_000_000);
}

abbrev begun : ServerState ℕ
begun = record { cache = []; limits = limits; state = state }

abbrev ServesAfter : List (Request ℕ) → ℕ → Type 0
ServesAfter rs now =
    is_completion
      (serve whole_numbers formats server (request_at now)
        (serve_all whole_numbers formats server begun rs)).1.content
    ≡ true

served : ServesAfter [] 5
unfolding serve serve_protected endpoint request_id_of authenticate judge_row lookup_via lookup_key
    lookup trim_prefix middleware check call new_redis_circuit_breaker after_check check_budget
    after_budget check_daily_spend record_result on_success breaker_available chat_completions
    serve_body check_request run_filters run_policy route_request serve_route send_prepared deliver
    after_delivery complete enrich validate validate_model validate_messages message_loop
    validate_message validate_stop_sequences all_model_chars is_valid_model_char is_valid_role
    contains_dangerous_chars default_limits run resolve_route try_routes try_route route_eligible
    provider_healthy get insert parse_classification allows level is_available get_breaker
    new_circuit_breaker allow execute execute_from settle is_retryable calculate get_price
    configured_price tracker_success record_success
served = refl

-- More than five minutes later, with the key in the cache.
abbrev before : List (Request ℕ)
before = request_at 5 ∷ []

served_again : ServesAfter before 300_000_000_020
unfolding serve serve_protected endpoint request_id_of authenticate judge_row lookup_via lookup_key
    lookup trim_prefix middleware check call new_redis_circuit_breaker after_check check_budget
    after_budget check_daily_spend record_result on_success breaker_available chat_completions
    serve_body check_request run_filters run_policy route_request serve_route send_prepared deliver
    after_delivery complete enrich validate validate_model validate_messages message_loop
    validate_message validate_stop_sequences all_model_chars is_valid_model_char is_valid_role
    contains_dangerous_chars default_limits run resolve_route try_routes try_route route_eligible
    provider_healthy get insert parse_classification allows level is_available get_breaker
    new_circuit_breaker allow execute execute_from settle is_retryable calculate get_price
    configured_price tracker_success record_success
served_again = refl

serve-Entered_example : Entered whole_numbers formats server (request_at 5) begun
serve-Entered_example = serve-Entered whole_numbers formats server (request_at 5) begun served

serve-IsAnswered_example :
    IsAnswered whole_numbers formats server
      (request_at 5)
      (serve whole_numbers formats server (request_at 5) begun)
serve-IsAnswered_example = serve-IsAnswered whole_numbers formats server (request_at 5) begun

revoked_key_unserved_example :
    (token : String) × HasToken (request_at 300_000_000_020).authorization token
    × ((meta : KeyMetadata) × (server.db (request_at 300_000_000_020).now (server.hash_key token)
          ≡ ok (some meta)))
revoked_key_unserved_example =
    revoked_key_unserved whole_numbers formats server begun before 5 (request_at 300_000_000_020)
      refl (omega arith, tt) (omega arith) served_again

serve_billed_example :
    charges (serve whole_numbers formats server (request_at 5) begun).1.effects
    ≡ bill_of server.handler.on.usage
        (serve whole_numbers formats server (request_at 5) begun).1.content
serve_billed_example = serve_billed whole_numbers formats server (request_at 5) begun whole

abbrev reads : Sources whole_numbers String Bool (List (String × ProviderConfig))
reads = record {
  codecs = codecs;
  prepare = λ given. ok "query";
  eval = λ q input. answer (bool_value true) (text_value "");
  enabled = λ c. c;
  bundle = λ c. modules (("a.rego", "package aegis") ∷ []);
  providers_of = λ p. p;
}

abbrev app : App whole_numbers String
app = record { registry = build_from_config whole_numbers codecs providers; prepared = none }

-- A change that brings the policy and takes the providers away.
abbrev signals : List (Signal String Bool String (List (String × ProviderConfig)))
signals = changed true false (record { gateway = ok true; models = ok "m"; providers = ok [] }) ∷ []

reload-InStep_example :
    ((run_all whole_numbers reads
        (watch signals (holding callbacks (false, "m", providers))).1
        app).registry
      ≡ build_from_config whole_numbers reads.codecs
          (reads.providers_of (newest (false, "m", providers) (brought signals)).2))
    × ((run_all whole_numbers reads
          (watch signals (holding callbacks (false, "m", providers))).1
          app).prepared
        ≡ policies_after whole_numbers reads app.prepared (brought signals))
reload-InStep_example = reload-InStep whole_numbers reads signals (false, "m", providers) app refl

abbrev loaded : Loaded ℕ
loaded = record {
  config = default_config whole_numbers;
  models = (handler answers).models;
  providers = providers;
}

abbrev outside : Outside ℕ
outside = record {
  show_version = false;
  load = ok loaded;
  parses_dsn = λ dsn. true;
  opens_pool = λ config. true;
  answers_ping = λ address. false;
  db = server.db;
  hash_key = server.hash_key;
  version = "1";
  filters = [];
  policy = λ req. record {
    action = pass;
    filter_name = "policy";
    message = no_message;
    detections = 0;
    score = 0;
  };
}

abbrev setup : Setup
setup = record { request_id = "r1"; audit = true; metrics = true }

no_ping : has_redis whole_numbers codecs outside loaded.config.redis.addresses ≡ false
unfolding default_config
no_ping = refl

start_without_redis_unlimited_example :
    (middleware setup
      (some info)
      replies
      (serve_all whole_numbers formats
        (new_server whole_numbers codecs outside loaded)
        (new_state whole_numbers codecs outside loaded)
        before).limits).decision
    ≡ serve_next
start_without_redis_unlimited_example =
    start_without_redis_unlimited whole_numbers codecs outside formats loaded before setup info
      replies no_ping
