-- ===== src/Router.antt =====
-- internal/router/provider.go: the registry of adapters and the choice of a provider for a request.
-- `A` is the type of the registered adapters.
pub mod Spec
pub mod Laws
use mathlib.Core.Option
use aegis_ai_gateway.Prelude.{
  ℕ, String, List, [], ◌∷◌, Option, none, some, Bool, true, false, map, lookup, insert, str_eq,
  if◌then◌else◌, Result, ok, err,
}
use aegis_ai_gateway.Types.{parse_classification, allows}
use aegis_ai_gateway.Config.{ProviderRoute, ModelsConfig}
use aegis_ai_gateway.Health.{HealthTracker, is_available}

abbrev pub Registry : Type 0 → Type 0
Registry A = List (String × A)

module _ {A : Type 0} where
  unfoldable pub register : Registry A → String → A → Registry A
  register r name adapter = insert name adapter r

  unfoldable pub get : Registry A → String → Option A
  get r name = lookup name r

  unfoldable pub registered_providers : Registry A → List String
  registered_providers r = map (λ e. e.0) r

abbrev pub eligible_under : Option String → String → Bool
eligible_under none classification = false
eligible_under (some ceiling) classification = elim (parse_classification classification) [
  | none ↦ true
  | some req_class ↦ allows ceiling req_class
]

unfoldable pub route_eligible : ProviderRoute → String → Bool
route_eligible route classification =
    if str_eq route.classification_ceiling ""
    then true
    else eligible_under (parse_classification route.classification_ceiling) classification

-- One reading `now` of the clock stands for those that one resolution makes.
unfoldable pub provider_healthy : ℕ → Option HealthTracker → String → Option HealthTracker × Bool
provider_healthy now none provider = (none, true)
provider_healthy now (some ht) provider =
    let (ht', available) = is_available now ht provider in (some ht', available)

pub data RouteError : Type 0 where
  unknown_model : String → RouteError
  no_eligible_provider : String → String → RouteError

abbrev pub or_no_provider :
    {A : Type 0} → String → String → Option (A × String) → Result RouteError (A × String)
or_no_provider classification model (some x) = ok x
or_no_provider classification model none = err (no_eligible_provider model classification)

module _ {A : Type 0} (now : ℕ) (registry : Registry A) (classification : String) where
  -- The test and the lookup of one route: the primary's, and the body of the loop.
  unfoldable pub try_route :
      Option HealthTracker → ProviderRoute → Option HealthTracker × Option (A × String)
  unfolding provider_healthy get
  try_route ht route =
      if route_eligible route classification
      then (let (ht', healthy) = provider_healthy now ht route.provider in
          (
            ht',
            if healthy
                then Option.map (λ adapter. (adapter, route.model)) (get registry route.provider)
                else none,
          ))
      else (ht, none)

  -- Both loops: the primary first, then the fallbacks in order.
  unfoldable pub try_routes :
      Option HealthTracker → List ProviderRoute → Option HealthTracker × Option (A × String)
  try_routes ht [] = (ht, none)
  try_routes ht (r ∷ rs) =
      let (ht', found) = try_route ht r in
      elim found [ some x ↦ (ht', some x) | none ↦ try_routes ht' rs ]

  unfoldable pub resolve_route :
      {F : Type 0}
      → ModelsConfig F
      → Option HealthTracker
      → String
      → Option HealthTracker × Result RouteError (A × String)
  unfolding try_route try_routes
  resolve_route models_cfg ht model_name = elim (lookup model_name models_cfg.models) [
    | none ↦ (ht, err (unknown_model model_name))
    | some mapping ↦
        let (ht', found) = try_routes ht (mapping.primary ∷ mapping.fallback) in
        (ht', or_no_provider classification model_name found)
  ]
