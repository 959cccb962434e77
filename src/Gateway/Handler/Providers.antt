-- ===== src/Gateway/Handler/Providers.antt =====
-- `ChatCompletions` of internal/gateway over the registry that internal/router builds of a configuration.
use aegis_ai_gateway.Prelude.{◌∙◌, sym, lookup, ap, subst, ◌≡◌, String, List, Float64}
use aegis_ai_gateway.Config.{ProviderConfig}
use aegis_ai_gateway.Router.Laws.{resolve_route-registered}
use aegis_ai_gateway.Provider.Registry.{
  Codecs, IsMap, IsGeneric, build_from_config, build_from_config-IsGeneric,
}
use aegis_ai_gateway.Gateway.{String, List, State}
use aegis_ai_gateway.Gateway.Handler.{Float64, find_route, chat_completions}
use aegis_ai_gateway.Gateway.Parts.{Handler, Incoming, Formats, enrich}
use aegis_ai_gateway.Gateway.Handler.Gates.{Passed}
use aegis_ai_gateway.Gateway.Handler.Breakers.{breaker_of, chat_completions_other_breakers}

module _ (fl : Float64) (codecs : Codecs fl) (providers : List (String × ProviderConfig))
    (formats : Formats fl.F) (h : Handler fl.F) (inc : Incoming fl.F) (s : State fl.F) where
  Passed-IsGeneric :
      (p : Passed fl formats h inc s)
      → h.registry ≡ build_from_config fl codecs providers
      → IsMap providers
      → IsGeneric fl codecs p.adapter.name
  unfolding enrich
  Passed-IsGeneric p built distinct =
      let (provider, registered) =
        resolve_route-registered inc.clock.routed_at h.registry p.info.max_classification h.models
          s.tracker p.req.model (p.adapter, p.provider_model) p.routed in
      build_from_config-IsGeneric fl codecs providers provider p.adapter distinct
        (ap (lookup provider) (sym built) ∙ registered)

  -- With the registry of a configuration, no request that is sent on, whatever becomes of it, tells the
  -- health tracker of a provider that is not called "openai" or "anthropic": the circuit breaker of every
  -- other provider is after it as the routing left it.
  pub chat_completions_generic_breakers :
      (p : Passed fl formats h inc s)
      → h.registry ≡ build_from_config fl codecs providers
      → IsMap providers
      → (q : String) → ¬ IsGeneric fl codecs q
      → breaker_of q (chat_completions fl formats h inc s).state.tracker
        ≡ breaker_of q (find_route fl formats h inc (enrich fl formats h inc p.info p.req) s).0
  chat_completions_generic_breakers p built distinct q other =
      chat_completions_other_breakers fl formats h inc s p q
        (λ same. other (subst (IsGeneric fl codecs) same (Passed-IsGeneric p built distinct)))
