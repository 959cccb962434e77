-- ===== src/Provider/Registry.antt =====
-- The registry's construction and reload of internal/router/provider.go. The HTTP client that is made of
-- a provider's configuration is the parameter `client`.
use mathlib.Core.Option
use aegis_ai_gateway.Prelude.{
  lookup-insert, eq_iff, if-both, subst, sym, refl, inr, inl, Bool-cases, str_eq, insert, ◌⊎◌, ◌∙◌,
  ℕ, Result, Option, if◌then◌else◌, ◌≡◌, lookup, List, Float64, String, ◌∷◌, [], some, none,
}
use aegis_ai_gateway.Config.{ProviderConfig}
use aegis_ai_gateway.Router.{Registry, register, get}
use aegis_ai_gateway.Provider.{HttpRequest, Sent, ProviderAdapter}
use aegis_ai_gateway.Provider.Openai.{OpenaiRequestBody, OpenaiResponseBody, openai_adapter}
use aegis_ai_gateway.Provider.Anthropic.{
  AnthropicRequestBody, AnthropicResponseBody, OpenaiStreamChunk, StreamEvent, anthropic_adapter,
}

module _ {A : Type 0} where
  unfoldable pub new_registry : Registry A
  new_registry = []

  -- The copy is the other registry's entries; those of this one go.
  unfoldable pub replace_from : Registry A → Registry A → Registry A
  replace_from r other = other

  -- The adapter, or nil.
  unfoldable pub get_provider : Registry A → String → Option A
  unfolding get
  get_provider r name = get r name

-- The encoders and decoders of the two adapters, and the client.
pub record Codecs (fl : Float64) : Type 0 where
  pub marshal_openai : OpenaiRequestBody fl.F → Result String String
  pub unmarshal_openai : String → Result String OpenaiResponseBody
  pub marshal_anthropic : AnthropicRequestBody fl.F → Result String String
  pub unmarshal_anthropic : String → Result String AnthropicResponseBody
  pub marshal_chunk : OpenaiStreamChunk → Result String String
  pub unmarshal_event : String → Option StreamEvent
  pub client : ProviderConfig → ℕ → HttpRequest → Sent

-- The providers of a configuration, which is a map: no name stands twice.
abbrev pub IsMap {ℓ} : {V : Type ℓ} → List (String × V) → Type ℓ
IsMap [] = Unit
IsMap ((name, v) ∷ rest) = (lookup name rest ≡ none) × IsMap rest

module _ (fl : Float64) (codecs : Codecs fl) where
  -- The `switch`: an unknown type is taken for one that is compatible with OpenAI.
  unfoldable pub adapter_of : ProviderConfig → ProviderAdapter fl.F
  adapter_of cfg =
      if str_eq cfg.type_name "anthropic"
      then anthropic_adapter fl codecs.marshal_anthropic codecs.unmarshal_anthropic
          codecs.marshal_chunk codecs.unmarshal_event cfg (codecs.client cfg)
      else openai_adapter fl codecs.marshal_openai codecs.unmarshal_openai cfg (codecs.client cfg)

  unfoldable pub register_all :
      Registry (ProviderAdapter fl.F)
      → List (String × ProviderConfig)
      → Registry (ProviderAdapter fl.F)
  unfolding register
  register_all r [] = r
  register_all r ((name, cfg) ∷ rest) = register_all (register r name (adapter_of cfg)) rest

  unfoldable pub build_from_config :
      List (String × ProviderConfig) → Registry (ProviderAdapter fl.F)
  unfolding register_all new_registry
  build_from_config providers = register_all new_registry providers

  abbrev or_else :
      Option (ProviderAdapter fl.F) → Option ProviderConfig → Option (ProviderAdapter fl.F)
  or_else before none = before
  or_else before (some cfg) = some (adapter_of cfg)

  register_all-lookup :
      (r : Registry (ProviderAdapter fl.F)) (providers : List (String × ProviderConfig))
      (q : String)
      → IsMap providers
      → lookup q (register_all r providers) ≡ or_else (lookup q r) (lookup q providers)
  unfolding register_all register lookup
  register_all-lookup r [] q distinct = refl
  register_all-lookup r ((name, cfg) ∷ rest) q (fresh, distinct) =
      register_all-lookup (insert name (adapter_of cfg) r) rest q distinct
      ∙ elim (Bool-cases (str_eq name q)) [
        | inl same ↦
            let last : lookup q rest ≡ none =
              subst (λ z. lookup z rest ≡ none) ((eq_iff name q).0 same) fresh in
            rw (lookup-insert name q (adapter_of cfg) r, same, last) refl
        | inr other ↦ rw (lookup-insert name q (adapter_of cfg) r, other) refl
      ]

  -- The registry of a configuration has an adapter under exactly the names of its providers, and under
  -- each the one of that provider's type.
  pub build_from_config-get :
      (providers : List (String × ProviderConfig)) (q : String)
      → IsMap providers
      → get (build_from_config providers) q ≡ Option.map adapter_of (lookup q providers)
  unfolding build_from_config get lookup
  build_from_config-get providers q distinct = register_all-lookup [] providers q distinct

  abbrev pub IsGeneric : String → Type 0
  IsGeneric name = (name ≡ "openai") ⊎ (name ≡ "anthropic")

  adapter_of-IsGeneric : (cfg : ProviderConfig) → IsGeneric (adapter_of cfg).name
  unfolding adapter_of openai_adapter anthropic_adapter
  adapter_of-IsGeneric cfg =
      if-both (λ (z : ProviderAdapter fl.F). IsGeneric z.name) (str_eq cfg.type_name "anthropic")
        (inr refl) (inl refl)

  mapped-IsGeneric :
      (found : Option ProviderConfig) (adapter : ProviderAdapter fl.F)
      → Option.map adapter_of found ≡ some adapter
      → IsGeneric adapter.name
  mapped-IsGeneric none adapter e = cc e
  mapped-IsGeneric (some cfg) adapter e =
      let same : adapter_of cfg ≡ adapter = cc e in
      subst (λ z. IsGeneric z.name) same (adapter_of-IsGeneric cfg)

  -- Every adapter of the registry is named "openai" or "anthropic", whatever the name of its provider.
  pub build_from_config-IsGeneric :
      (providers : List (String × ProviderConfig)) (q : String) (adapter : ProviderAdapter fl.F)
      → IsMap providers
      → lookup q (build_from_config providers) ≡ some adapter
      → IsGeneric adapter.name
  unfolding get
  build_from_config-IsGeneric providers q adapter distinct e =
      mapped-IsGeneric (lookup q providers) adapter
        (sym (build_from_config-get providers q distinct) ∙ e)
