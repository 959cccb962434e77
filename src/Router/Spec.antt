-- ===== src/Router/Spec.antt =====
-- What internal/router/provider.go promises of a resolution: the first route that may serve the
-- request, by the health of each provider at the start, with no state passed along.
use mathlib.Core.Option
use aegis_ai_gateway.Prelude.{
  ℕ, String, List, [], ◌∷◌, Option, none, some, Bool, true, lookup, if◌then◌else◌, ◌≡◌, All, arith,
  Option-cases, Result, err, inl, inr, ◌∙◌,
}
use aegis_ai_gateway.Config.{ProviderRoute, ModelMapping}
use aegis_ai_gateway.Circuit.{allow}
use aegis_ai_gateway.Health.{HealthTracker}
use aegis_ai_gateway.Health.Refinement.{view}
use aegis_ai_gateway.Router.{Registry, route_eligible, RouteError, unknown_model, or_no_provider}

-- Whether each provider is healthy, as its breaker (or a new one) says at the time.
abbrev pub healthy_at : ℕ → Option HealthTracker → String → Bool
healthy_at now none p = true
healthy_at now (some ht) p = (allow now (view ht p)).1

module _ {A : Type 0} (healthy : String → Bool) (registry : Registry A)
    (classification : String) where
  pub record IsUsable (r : ProviderRoute) (adapter : A) : Type 0 where
    pub eligible : route_eligible r classification ≡ true
    pub available : healthy r.provider ≡ true
    pub registered : lookup r.provider registry ≡ some adapter

  -- `x` is what the first usable route of the list gives.
  pub data IsFirst (x : A × String) : List ProviderRoute → Type 0 where
    this :
        {r : ProviderRoute} {rs : List ProviderRoute}
        → IsUsable r x.0
        → r.model ≡ x.1
        → IsFirst x (r ∷ rs)
    later :
        {r : ProviderRoute} {rs : List ProviderRoute}
        → ((adapter : A) → ¬ IsUsable r adapter)
        → IsFirst x rs
        → IsFirst x (r ∷ rs)

  abbrev pub serves : ProviderRoute → Option (A × String)
  serves r =
      if route_eligible r classification
      then (if healthy r.provider
          then Option.map (λ adapter. (adapter, r.model)) (lookup r.provider registry)
          else none)
      else none

  unfoldable pub choose : List ProviderRoute → Option (A × String)
  choose [] = none
  choose (r ∷ rs) = elim (serves r) [ some x ↦ some x | none ↦ choose rs ]

  serves-IsUsable :
      (r : ProviderRoute) (x : A × String) → serves r ≡ some x → IsUsable r x.0 × (r.model ≡ x.1)
  serves-IsUsable r (adapter, model) h = (
    record { eligible = ground arith; available = ground arith; registered = ground arith },
    ground arith,
  )

  serves-none : (r : ProviderRoute) (adapter : A) → serves r ≡ none → ¬ IsUsable r adapter
  serves-none r adapter h u = ground (arith, u.eligible, u.available, u.registered)

  pub choose-IsFirst :
      (rs : List ProviderRoute) (x : A × String) → choose rs ≡ some x → IsFirst x rs
  unfolding choose
  choose-IsFirst [] x h = cc
  choose-IsFirst (r ∷ rs) x h = elim (Option-cases (serves r)) [
    | inl missed ↦
        later (λ adapter. serves-none r adapter missed)
          (choose-IsFirst rs x (rw (missed, choose) at h))
    | inr (y, found) ↦
        let (usable, model) = serves-IsUsable r x (found ∙ (rw (found, choose) at h)) in
        this usable model
  ]

  pub choose-none :
      (rs : List ProviderRoute)
      → choose rs ≡ none
      → All (λ r. (adapter : A) → ¬ IsUsable r adapter) rs
  unfolding choose
  choose-none [] h = tt
  choose-none (r ∷ rs) h =
      ((λ adapter. serves-none r adapter (ground arith)), choose-none rs (ground arith))

  -- The resolution of a model name by the routes configured for it.
  abbrev pub resolution : Option ModelMapping → String → Result RouteError (A × String)
  resolution none name = err (unknown_model name)
  resolution (some mapping) name =
      or_no_provider classification name (choose (mapping.primary ∷ mapping.fallback))
