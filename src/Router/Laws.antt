-- ===== src/Router/Laws.antt =====
-- What internal/router/provider.go guarantees of a resolved route.
use mathlib.Core.List.{Memᴰ}
use aegis_ai_gateway.Prelude.{
  ℕ, String, List, [], ◌∷◌, Option, none, some, Bool, true, lookup, ◌≡◌, All, ◌≤ℤ◌, ◌⊎◌, arith,
  Option-cases, Bool-cases, inl, inr, ◌∙◌, refl, sym, str_eq, eq_iff, ok, err,
}
use aegis_ai_gateway.Types.{Classification, parse_classification, level}
use aegis_ai_gateway.Types.Lattice.{allows_iff}
use aegis_ai_gateway.Config.{ProviderRoute, ModelMapping, ModelsConfig}
use aegis_ai_gateway.Circuit.{CircuitBreaker, allow}
use aegis_ai_gateway.Health.{HealthTracker}
use aegis_ai_gateway.Health.Refinement.{view, is_available-view, view-is_available}
use aegis_ai_gateway.Router.{
  Registry, route_eligible, provider_healthy, try_route, try_routes, resolve_route, or_no_provider,
  RouteError,
}
use aegis_ai_gateway.Router.Spec.{
  healthy_at, serves, choose, resolution, IsFirst, this, later, IsUsable, choose-IsFirst,
  choose-none,
}

allow_idempotent :
    (now : ℕ) (cb : CircuitBreaker) → (allow now (allow now cb).0).1 ≡ (allow now cb).1
unfolding allow
allow_idempotent now cb = ground arith

-- Asking about one provider changes no answer, for that provider or another.
healthy_at-provider_healthy :
    (now : ℕ) (ht : Option HealthTracker) (p q : String)
    → healthy_at now (provider_healthy now ht p).0 q ≡ healthy_at now ht q
unfolding provider_healthy allow
healthy_at-provider_healthy now none p q = refl
healthy_at-provider_healthy now (some ht) p q = elim (Bool-cases (str_eq p q)) [
  | inl same ↦
      rw (view-is_available now p q ht, same, (eq_iff p q).0 same)
        (allow_idempotent now (view ht q))
  | inr other ↦ rw (view-is_available now p q ht, other)
]

provider_healthy-healthy_at :
    (now : ℕ) (ht : Option HealthTracker) (p : String)
    → (provider_healthy now ht p).1 ≡ healthy_at now ht p
unfolding provider_healthy
provider_healthy-healthy_at now none p = refl
provider_healthy-healthy_at now (some ht) p = is_available-view now ht p

or_no_provider-ok :
    {A : Type 0} (classification name : String) (o : Option (A × String)) (x : A × String)
    → or_no_provider classification name o ≡ ok x
    → o ≡ some x
or_no_provider-ok classification name none x h = cc
or_no_provider-ok classification name (some y) x h = cc

or_no_provider-err :
    {A : Type 0} (classification name : String) (o : Option (A × String)) (e : RouteError)
    → or_no_provider classification name o ≡ err e
    → o ≡ none
or_no_provider-err classification name none e h = refl
or_no_provider-err classification name (some y) e h = cc

module _ {A : Type 0} (healthy : String → Bool) (registry : Registry A)
    (classification : String) where
  resolution_sound :
      (m : Option ModelMapping) (name : String) (x : A × String)
      → resolution healthy registry classification m name ≡ ok x
      → (mapping : ModelMapping) × (m ≡ some mapping)
        × IsFirst healthy registry classification x (mapping.primary ∷ mapping.fallback)
  resolution_sound none name x h = cc
  resolution_sound (some mapping) name x h = (
    mapping,
    refl,
    choose-IsFirst healthy registry classification _ x
        (or_no_provider-ok classification name _ x h),
  )

  resolution_fails :
      (mapping : ModelMapping) (name : String) (e : RouteError)
      → resolution healthy registry classification (some mapping) name ≡ err e
      → All
          (λ r. (adapter : A) → ¬ IsUsable healthy registry classification r adapter)
          (mapping.primary ∷ mapping.fallback)
  resolution_fails mapping name e h =
      choose-none healthy registry classification _ (or_no_provider-err classification name _ e h)

  IsFirst-IsUsable :
      {x : A × String} {rs : List ProviderRoute}
      → IsFirst healthy registry classification x rs
      → (r : ProviderRoute) × Memᴰ r rs
        × IsUsable healthy registry classification r x.0
        × (r.model ≡ x.1)
  IsFirst-IsUsable (this u m) = (_, Memᴰ.head refl, u, m)
  IsFirst-IsUsable (later _ f) = let (r, at, u, m) = IsFirst-IsUsable f in (r, Memᴰ.tail at, u, m)

module _ {A : Type 0} (now : ℕ) (registry : Registry A) (classification : String) where
  healthy_at-try_route :
      (ht : Option HealthTracker) (r : ProviderRoute) (q : String)
      → healthy_at now (try_route now registry classification ht r).0 q ≡ healthy_at now ht q
  unfolding try_route
  healthy_at-try_route ht r q = elim (Bool-cases (route_eligible r classification)) [
    | inl e ↦ rw e (healthy_at-provider_healthy now ht r.provider q)
    | inr e ↦ rw e
  ]

  try_route-serves :
      (ht : Option HealthTracker) (r : ProviderRoute)
      → (try_route now registry classification ht r).1
        ≡ serves (healthy_at now ht) registry classification r
  unfolding try_route
  try_route-serves ht r = ground (arith, provider_healthy-healthy_at now ht r.provider)

  try_routes-choose :
      (rs : List ProviderRoute) (ht : Option HealthTracker) (healthy : String → Bool)
      → ((q : String) → healthy_at now ht q ≡ healthy q)
      → (try_routes now registry classification ht rs).1 ≡ choose healthy registry classification rs
  unfolding try_routes choose
  try_routes-choose [] ht healthy h = refl
  try_routes-choose (r ∷ rs) ht healthy h =
      let same : serves (healthy_at now ht) registry classification r
          ≡ serves healthy registry classification r =
        rw (h r.provider) in
      let served = try_route-serves ht r ∙ same in
      elim (Option-cases (serves healthy registry classification r)) [
        | inl missed ↦
            rw (served ∙ missed, try_routes, missed, choose)
              (try_routes-choose rs (try_route now registry classification ht r).0 healthy
                (λ q. healthy_at-try_route ht r q ∙ h q))
        | inr (x, found) ↦ rw (served ∙ found, try_routes, found, choose)
      ]

-- A resolution gives what the first usable route of the model gives, primary first, by the health of
-- every provider at its start, and fails if there is none or the model is unknown: the breakers that
-- it asks on the way do not change the choice.
pub resolve_route-resolution :
    {A F : Type 0} (now : ℕ) (registry : Registry A) (classification : String)
    (cfg : ModelsConfig F) (ht : Option HealthTracker) (name : String)
    → (resolve_route now registry classification cfg ht name).1
      ≡ resolution (healthy_at now ht) registry classification (lookup name cfg.models) name
unfolding resolve_route
resolve_route-resolution now registry classification cfg ht name =
    elim (Option-cases (lookup name cfg.models)) [
      | inl unknown ↦ rw (unknown, resolve_route)
      | inr (mapping, known) ↦
          rw
            (
              known,
              resolve_route,
              try_routes-choose now registry classification (mapping.primary ∷ mapping.fallback) ht
                  (healthy_at now ht) (λ q. refl),
            )
            refl
    ]

-- A resolved route is the first usable one of the model's routes: its ceiling permits the request's
-- classification, its provider is healthy and registered, and no earlier route is usable.
pub resolve_route_sound :
    {A F : Type 0} (now : ℕ) (registry : Registry A) (classification : String)
    (cfg : ModelsConfig F) (ht : Option HealthTracker) (name : String) (x : A × String)
    → (resolve_route now registry classification cfg ht name).1 ≡ ok x
    → (mapping : ModelMapping) × (lookup name cfg.models ≡ some mapping)
      × IsFirst (healthy_at now ht) registry classification x (mapping.primary ∷ mapping.fallback)
resolve_route_sound now registry classification cfg ht name x h =
    resolution_sound (healthy_at now ht) registry classification (lookup name cfg.models) name x
      (sym (resolve_route-resolution now registry classification cfg ht name) ∙ h)

-- Resolution of a known model fails only if none of its routes is usable.
pub resolve_route_fails :
    {A F : Type 0} (now : ℕ) (registry : Registry A) (classification : String)
    (cfg : ModelsConfig F) (ht : Option HealthTracker) (name : String) (mapping : ModelMapping)
    (e : RouteError)
    → lookup name cfg.models ≡ some mapping
    → (resolve_route now registry classification cfg ht name).1 ≡ err e
    → All
        (λ r. (adapter : A) → ¬ IsUsable (healthy_at now ht) registry classification r adapter)
        (mapping.primary ∷ mapping.fallback)
resolve_route_fails now registry classification cfg ht name mapping e known h =
    resolution_fails (healthy_at now ht) registry classification mapping name e
      (rw known at (sym (resolve_route-resolution now registry classification cfg ht name) ∙ h))

-- The ceiling of a route permits a classification: none is configured, or it is one of the four
-- constants and stands at the classification's level or above.
abbrev pub Permits : ProviderRoute → Classification → Type 0
Permits r c =
    (r.classification_ceiling ≡ "")
    ⊎ ((k : Classification) × (parse_classification r.classification_ceiling ≡ some k)
        × (level c ≤ℤ level k))

route_eligible-Permits :
    (r : ProviderRoute) (c : Classification)
    → parse_classification c ≡ some c
    → route_eligible r c ≡ true
    → Permits r c
unfolding route_eligible
route_eligible-Permits r c known h =
    elim (Option-cases (parse_classification r.classification_ceiling)) [
      | inl bad ↦ inl ((eq_iff _ _).0 (ground arith))
      | inr (k, good) ↦ elim (Bool-cases (str_eq r.classification_ceiling "")) [
        | inl none_set ↦ inl ((eq_iff _ _).0 none_set)
        | inr some_set ↦ inr (k, good, (allows_iff k c).0 (ground arith))
      ]
    ]

-- A request of a known classification is only ever given to a route whose ceiling permits it.
pub resolve_route_classification :
    {A F : Type 0} (now : ℕ) (registry : Registry A) (c : Classification) (cfg : ModelsConfig F)
    (ht : Option HealthTracker) (name : String) (x : A × String)
    → parse_classification c ≡ some c
    → (resolve_route now registry c cfg ht name).1 ≡ ok x
    → (mapping : ModelMapping) × (r : ProviderRoute) × (lookup name cfg.models ≡ some mapping)
      × Memᴰ r (mapping.primary ∷ mapping.fallback)
      × (lookup r.provider registry ≡ some x.0)
      × (r.model ≡ x.1)
      × Permits r c
resolve_route_classification now registry c cfg ht name x known h =
    let (mapping, found, first) = resolve_route_sound now registry c cfg ht name x h in
    let (r, at, usable, model) = IsFirst-IsUsable (healthy_at now ht) registry c first in
    (
      mapping,
      r,
      found,
      at,
      usable.registered,
      model,
      route_eligible-Permits r c known usable.eligible,
    )

-- The adapter of a resolved route is registered.
pub resolve_route-registered :
    {A F : Type 0} (now : ℕ) (registry : Registry A) (classification : String)
    (cfg : ModelsConfig F) (ht : Option HealthTracker) (name : String) (x : A × String)
    → (resolve_route now registry classification cfg ht name).1 ≡ ok x
    → (provider : String) × (lookup provider registry ≡ some x.0)
resolve_route-registered now registry classification cfg ht name x h =
    let (mapping, found, first) = resolve_route_sound now registry classification cfg ht name x h in
    let (r, at, usable, model) =
      IsFirst-IsUsable (healthy_at now ht) registry classification first in
    (r.provider, usable.registered)
