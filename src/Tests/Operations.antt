-- ===== src/Tests/Operations.antt =====
-- The theorems on the registry that is built of a configuration and on the health check, and a request to
-- a provider of a specific name, at concrete inputs.
use aegis_ai_gateway.Prelude.{
  inr, All, eq_iff, ◌↔◌, insert, arith, refl, ◌≢◌, ◌≡◌, inl, ℕ, pos, lookup, List, String, ◌∷◌, [],
  ok, err, some, none, false, true, whole_numbers,
}
use aegis_ai_gateway.Config.{ProviderConfig}
use aegis_ai_gateway.Types.{AegisRequest, AuthInfo}
use aegis_ai_gateway.Circuit.{allow, new_circuit_breaker, CircuitBreaker, state_open}
use aegis_ai_gateway.Health.{HealthTracker, is_available, get_breaker}
use aegis_ai_gateway.Router.{
  Registry, get, registered_providers, register, resolve_route, try_routes, try_route,
  route_eligible, provider_healthy,
}
use aegis_ai_gateway.Provider.Registry.{
  Codecs, IsGeneric, adapter_of, build_from_config, register_all, new_registry,
}
use aegis_ai_gateway.Status.{health_handler}
use aegis_ai_gateway.Status.Laws.{IsRefusing, health_handler_iff}
use aegis_ai_gateway.Gateway.Handler.{chat_completions, find_route}
use aegis_ai_gateway.Gateway.Parts.{Handler, Incoming, Formats, enrich, decoded}
use aegis_ai_gateway.Gateway.Delivery.{plain_error}
use aegis_ai_gateway.Gateway.Handler.Gates.{Passed}
use aegis_ai_gateway.Gateway.Handler.Breakers.{breaker_of}
use aegis_ai_gateway.Gateway.Handler.Providers.{chat_completions_generic_breakers}

abbrev pub codecs : Codecs whole_numbers
codecs = record {
  marshal_openai = λ b. ok b.model;
  unmarshal_openai = λ s. err "no response";
  marshal_anthropic = λ b. ok b.model;
  unmarshal_anthropic = λ s. err "no response";
  marshal_chunk = λ c. ok "";
  unmarshal_event = λ s. none;
  client = λ cfg attempt r. (none, some plain_error);
}

abbrev provider : String → ProviderConfig
provider type_name = record {
  type_name = type_name;
  base_url = "https://p";
  api_key = "k";
  api_version = "";
  max_concurrent = pos 4;
  timeout = 0;
  headers = [];
}

abbrev pub providers : List (String × ProviderConfig)
providers = ("azure_openai", provider "openai") ∷ ("claude", provider "anthropic") ∷ []

abbrev handler : Handler ℕ
handler = record {
  registry = build_from_config whole_numbers codecs providers;
  models = record {
    models =
        (
          "gpt",
          record {
            display_name = "GPT";
            primary = record {
              provider = "azure_openai";
              model = "gpt-4o";
              deployment = "";
              endpoint = "";
              classification_ceiling = "";
            };
            fallback = [];
          },
        )
        ∷ [];
    pricing = none;
  };
  filter_chain = none;
  policy = none;
  on = record { metrics = true; audit = true; usage = true };
  max_retries = some (pos 0);
  validator = none;
}

abbrev info : AuthInfo
info = record {
  key_id = "k";
  organization_id = "o";
  team_id = "t";
  user_id = "u";
  max_classification = "INTERNAL";
  allowed_models = [];
  rpm_limit = none;
  tpm_limit = none;
  daily_spend_limit_cents = none;
}

abbrev request : AegisRequest ℕ
request = record {
  request_id = "";
  organization_id = "";
  team_id = "";
  user_id = "";
  api_key_id = "";
  classification = "";
  model = "gpt";
  messages = record { role = "user"; content = "hi"; name = "" } ∷ [];
  temperature = none;
  max_tokens = none;
  stream = false;
  top_p = none;
  stop = [];
  project = "";
  prefer_provider = "";
  trace_context = "";
  skip_cache = false;
  provider_type = "";
  received_at = 0;
  estimated_tokens = pos 0;
}

abbrev incoming : Incoming ℕ
incoming = record {
  request_id = "r1";
  auth = some info;
  body = decoded request;
  project = "";
  prefer_provider = "";
  trace_context = "";
  clock = record { received_at = 0; routed_at = 1; sent_at = 2; answered_at = 3; finished_at = 4 };
  cancelled_before = λ attempt. false;
  cancelled_waiting = λ attempt. false;
  line = record { flushes = true; picked = [] };
}

abbrev formats : Formats ℕ
formats = record {
  message_text = λ m. "m";
  errors_text = λ es. "e";
  route_text = λ e. "r";
  decode = λ chunk. none;
}

-- The breaker of "azure_openai" is open and its recovery interval is not over.
abbrev opened : CircuitBreaker
opened = record {
  state = state_open;
  failures = 3;
  successes = 0;
  last_failure = 10;
  opened_at = 10;
  failure_threshold = 3;
  recovery_probe_interval = 30;
}

abbrev fresh_tracker : HealthTracker
fresh_tracker = record { breakers = []; failure_threshold = 3; recovery_probe_interval = 30 }

abbrev tracker : HealthTracker
tracker = record {
  breakers = ("azure_openai", opened) ∷ [];
  failure_threshold = 3;
  recovery_probe_interval = 30;
}

routed :
    (find_route whole_numbers formats handler incoming
      (enrich whole_numbers formats handler incoming info request)
      (record { tracker = some fresh_tracker; calculator = none })).1
    ≡ ok (adapter_of whole_numbers codecs (provider "openai"), "gpt-4o")
unfolding enrich resolve_route try_routes try_route route_eligible provider_healthy get lookup
    insert is_available get_breaker new_circuit_breaker allow build_from_config register_all
    new_registry register
routed = refl

named : (enrich whole_numbers formats handler incoming info request).model ≢ ""
unfolding enrich
named e = ground (arith, e, eq_iff "gpt" "")

given : (enrich whole_numbers formats handler incoming info request).messages ≢ []
unfolding enrich
given e = cc e

abbrev passed :
    Passed whole_numbers formats handler incoming
      (record { tracker = some fresh_tracker; calculator = none })
passed = record {
  info = info;
  req = request;
  adapter = adapter_of whole_numbers codecs (provider "openai");
  provider_model = "gpt-4o";
  known = refl;
  sent = refl;
  accepted = (named, given);
  clear = tt;
  routed = routed;
  permitted = tt;
}

specific : ¬ IsGeneric whole_numbers codecs "azure_openai"
specific (inl e) = ground (arith, eq_iff "azure_openai" "openai")
specific (inr e) = ground (arith, eq_iff "azure_openai" "anthropic")

chat_completions_generic_breakers_example :
    breaker_of "azure_openai"
      (chat_completions whole_numbers formats handler incoming
        (record { tracker = some fresh_tracker; calculator = none })).state.tracker
    ≡ breaker_of "azure_openai"
        (find_route whole_numbers formats handler incoming
          (enrich whole_numbers formats handler incoming info request)
          (record { tracker = some fresh_tracker; calculator = none })).0
unfolding lookup
chat_completions_generic_breakers_example =
    chat_completions_generic_breakers whole_numbers codecs providers formats handler incoming
      (record { tracker = some fresh_tracker; calculator = none }) passed refl (refl, (refl, tt))
      "azure_openai" specific

abbrev one_adapter : Registry ℕ
one_adapter = ("azure_openai", 1) ∷ []

health_handler_iff_example :
    ((health_handler 20 "1.0" none none none (some one_adapter) (some tracker)).1 ≡ 503)
    ↔ ((registered_providers one_adapter ≢ []) × All (IsRefusing 20 tracker) ("azure_openai" ∷ []))
unfolding registered_providers
health_handler_iff_example = health_handler_iff 20 "1.0" none none none one_adapter tracker (tt, tt)
