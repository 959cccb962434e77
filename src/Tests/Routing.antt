-- ===== src/Tests/Routing.antt =====
-- Resolution, the health tracker and the breaker of internal/router at concrete inputs.
use aegis_ai_gateway.Types.{parse_classification, allows, level}
use aegis_ai_gateway.Config.{ProviderRoute, ModelMapping, ModelsConfig}
use aegis_ai_gateway.Circuit.{new_circuit_breaker, allow, current_state}
use aegis_ai_gateway.Circuit.Trace.{call_allow, call_failure, perform_all}
use aegis_ai_gateway.Circuit.Laws.{IsCoherent, circuit-IsCoherent}
use aegis_ai_gateway.Health.{HealthTracker, new_health_tracker, is_available, get_breaker}
use aegis_ai_gateway.Router.{
  Registry, resolve_route, try_routes, try_route, route_eligible, provider_healthy, get,
}
use mathlib.Core.List.{Memᴰ}
use aegis_ai_gateway.Prelude.{arith, refl, none, some, Option, ℕ, String, ◌≡◌, [], ◌∷◌, lookup, ok}
use aegis_ai_gateway.Router.Spec.{resolution, healthy_at}
use aegis_ai_gateway.Health.Refinement.{
  view, run_calls, calls_of, told_failure, ask_available, run_calls-view,
}
use aegis_ai_gateway.Router.Laws.{Permits, resolve_route-resolution, resolve_route_classification}

abbrev route : String → String → ProviderRoute
route provider ceiling = record {
  provider = provider;
  model = "gpt-4o";
  deployment = "";
  endpoint = "";
  classification_ceiling = ceiling;
}

-- The primary takes INTERNAL at most, the fallback everything.
abbrev gpt : ModelMapping
gpt = record {
  display_name = "GPT";
  primary = route "openai" "INTERNAL";
  fallback = route "azure" "RESTRICTED" ∷ [];
}

abbrev models : ModelsConfig ℕ
models = record { models = ("gpt", gpt) ∷ []; pricing = none }

abbrev adapters : Registry ℕ
adapters = ("openai", 1) ∷ ("azure", 2) ∷ []

abbrev tracker : Option HealthTracker
tracker = some (record { breakers = []; failure_threshold = 3; recovery_probe_interval = 30 })

fallback_taken : (resolve_route 5 adapters "CONFIDENTIAL" models tracker "gpt").1 ≡ ok (2, "gpt-4o")
unfolding resolve_route try_routes try_route route_eligible provider_healthy get lookup
    parse_classification allows level is_available get_breaker new_circuit_breaker allow
    current_state
fallback_taken = refl

confidential_known : parse_classification "CONFIDENTIAL" ≡ some "CONFIDENTIAL"
unfolding parse_classification
confidential_known = refl

resolve_route_classification_example :
    (mapping : ModelMapping) × (r : ProviderRoute) × (lookup "gpt" models.models ≡ some mapping)
    × Memᴰ r (mapping.primary ∷ mapping.fallback)
    × (lookup r.provider adapters ≡ some 2)
    × (r.model ≡ "gpt-4o")
    × Permits r "CONFIDENTIAL"
resolve_route_classification_example =
    resolve_route_classification 5 adapters "CONFIDENTIAL" models tracker "gpt" (2, "gpt-4o")
      confidential_known fallback_taken

resolve_route-resolution_example :
    (resolve_route 5 adapters "CONFIDENTIAL" models tracker "gpt").1
    ≡ resolution (healthy_at 5 tracker) adapters "CONFIDENTIAL" (lookup "gpt" models.models) "gpt"
resolve_route-resolution_example =
    resolve_route-resolution 5 adapters "CONFIDENTIAL" models tracker "gpt"

run_calls-view_example :
    view
      (run_calls
        ((1, told_failure, "openai") ∷ (2, ask_available, "azure") ∷ [])
        (new_health_tracker 3 30))
      "openai"
    ≡ perform_all
        (calls_of "openai" ((1, told_failure, "openai") ∷ (2, ask_available, "azure") ∷ []))
        (view (new_health_tracker 3 30) "openai")
run_calls-view_example =
    run_calls-view ((1, told_failure, "openai") ∷ (2, ask_available, "azure") ∷ [])
      (new_health_tracker 3 30) "openai"

circuit-IsCoherent_example :
    IsCoherent (perform_all ((1, call_failure) ∷ (2, call_allow) ∷ []) (new_circuit_breaker 2 30))
circuit-IsCoherent_example =
    circuit-IsCoherent 2 30 ((1, call_failure) ∷ (2, call_allow) ∷ []) (omega arith)
