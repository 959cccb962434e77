-- ===== src/Server/Reload.antt =====
-- The two callbacks that cmd/gateway/main.go gives to OnReload, behind the watch loop of
-- internal/config/loader.go. What LoadRegoFiles finds is taken with the configuration that is
-- loaded just before it.
use aegis_ai_gateway.Prelude.{
  String, Bool, Option, none, some, Result, List, [], ◌∷◌, if◌then◌else◌, ◌≡◌, refl, ap, Float64,
}
use aegis_ai_gateway.Config.{ProviderConfig}
use aegis_ai_gateway.Config.Loader.{
  Loader, Signal, watch, brought, newest, holding, fired, watch-holding,
}
use aegis_ai_gateway.Router.{Registry}
use aegis_ai_gateway.Provider.{ProviderAdapter}
use aegis_ai_gateway.Provider.Registry.{Codecs, build_from_config, replace_from}
use aegis_ai_gateway.Filter.Policy.{Loaded, PolicyInput, EvalReply, load}

pub data Callback : Type 0 where
  rebuild_providers : Callback
  reload_policies : Callback

-- What the callbacks change: the registry of the providers and the policy's prepared query.
pub record App (fl : Float64) (Query : Type 0) : Type 0 where
  pub registry : Registry (ProviderAdapter fl.F)
  pub prepared : Option Query

-- In the order in which main registers them.
abbrev pub callbacks : List Callback
callbacks = rebuild_providers ∷ reload_policies ∷ []

-- What the callbacks take from outside: OPA, and how they read the files that the loader holds.
pub record Sources (fl : Float64) (Query C P : Type 0) : Type 0 where
  pub codecs : Codecs fl
  pub prepare : List (String × String) → Result String Query
  pub eval : Query → PolicyInput → EvalReply
  pub enabled : C → Bool
  pub bundle : C → Loaded
  pub providers_of : P → List (String × ProviderConfig)

module _ (fl : Float64) {Query C P : Type 0} (sources : Sources fl Query C P) where
  abbrev pub rebuilt : Option P → App fl Query → App fl Query
  rebuilt none app = app
  rebuilt (some p) app = record app {
    registry =
        replace_from app.registry (build_from_config fl sources.codecs (sources.providers_of p));
  }

  abbrev pub reload_with : C → Option Query → Option Query
  reload_with c prepared =
      if sources.enabled c
      then (load sources.prepare sources.eval prepared (sources.bundle c)).0
      else prepared

  abbrev pub repoliced : Option C → App fl Query → App fl Query
  repoliced none app = app
  repoliced (some c) app = record app { prepared = reload_with c app.prepared }

  -- A callback reads the loader as it finds it; it has no file yet only before the first load.
  unfoldable pub run_callback :
      {M : Type 0} → Callback × Loader C M P Callback → App fl Query → App fl Query
  run_callback (rebuild_providers, l) app = rebuilt l.providers app
  run_callback (reload_policies, l) app = repoliced l.cfg app

  unfoldable pub run_all :
      {M : Type 0} → List (Callback × Loader C M P Callback) → App fl Query → App fl Query
  unfolding run_callback
  run_all [] app = app
  run_all (c ∷ cs) app = run_all cs (run_callback c app)

  -- The loads that the configurations ask for, one after another.
  abbrev pub policies_after : {M : Type 0} → Option Query → List (C × M × P) → Option Query
  policies_after prepared [] = prepared
  policies_after prepared ((c, m, p) ∷ xs) = policies_after (reload_with c prepared) xs

  abbrev built : {M : Type 0} → C × M × P → Registry (ProviderAdapter fl.F)
  built x = build_from_config fl sources.codecs (sources.providers_of x.2)

  run_all-fired :
      {M : Type 0} (x : C × M × P) (xs : List (C × M × P)) (app : App fl Query)
      → app.registry ≡ built x
      → ((run_all (fired callbacks xs) app).registry ≡ built (newest x xs))
        × ((run_all (fired callbacks xs) app).prepared ≡ policies_after app.prepared xs)
  unfolding run_all fired newest replace_from
  run_all-fired x [] app h = (h, refl)
  run_all-fired x ((c, m, p) ∷ xs) app h =
      run_all-fired (c, m, p) xs
        (record { registry = built (c, m, p); prepared = reload_with c app.prepared }) refl

  -- Started with the registry of its configuration, the gateway has after any run of the watch loop the
  -- registry of exactly the newest configuration that a change has brought, and the policy that the
  -- loads of the configurations brought, those that enable it, leave one after another.
  pub reload-InStep :
      {E M : Type 0} (signals : List (Signal E C M P)) (x : C × M × P) (app : App fl Query)
      → app.registry ≡ build_from_config fl sources.codecs (sources.providers_of x.2)
      → ((run_all (watch signals (holding callbacks x)).1 app).registry
          ≡ build_from_config fl sources.codecs
              (sources.providers_of (newest x (brought signals)).2))
        × ((run_all (watch signals (holding callbacks x)).1 app).prepared
            ≡ policies_after app.prepared (brought signals))
  reload-InStep signals x app h =
      let heard = ap (λ z. z.1) (watch-holding signals callbacks x) in
      rw heard (run_all-fired x (brought signals) app h)
