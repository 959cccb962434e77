-- ===== src/Gateway/Refactored/Adapters.antt =====
-- `ChatCompletionsRefactored` and `ChatCompletions` of internal/gateway over the adapters that
-- internal/router/adapters gives them.
use mathlib.Core.Option
use aegis_ai_gateway.Prelude.{Float64, pos, ◌≤ℤ◌, String, true, Option, Result, ok, ◌⊎◌, ◌≡◌}
use aegis_ai_gateway.Types.{AegisRequest, AegisResponse, AuthInfo}
use aegis_ai_gateway.Provider.Openai.{OpenaiResponseBody, openai_body}
use aegis_ai_gateway.Provider.Anthropic.{AnthropicResponseBody, anthropic_body}
use aegis_ai_gateway.Provider.Registry.{Codecs}
use aegis_ai_gateway.Gateway.Parts.{Handler, Incoming, Formats, decoded, enrich}
use aegis_ai_gateway.Gateway.Refactored.Stages.{has_tokens}

-- What was read of a body that was unmarshalled.
pub record WasRead {B A : Type 0} (u : Result String B) (f : B → A) (r : A) : Type 0 where
  pub body : B
  pub parsed : u ≡ ok body
  pub made : f body ≡ r

module _ (fl : Float64) (codecs : Codecs fl) (formats : Formats fl.F) (h : Handler fl.F)
    (inc : Incoming fl.F) where
  -- The body that was decoded can be encoded again for any model, as a value without a NaN or an
  -- infinity can.
  pub record IsEncodable : Type 0 where
    pub openai :
        (info : AuthInfo) (req : AegisRequest fl.F) (m : String)
        → inc.body ≡ decoded req
        → (content : String) × (codecs.marshal_openai (
              openai_body fl codecs.marshal_openai codecs.unmarshal_openai
                (record (enrich fl formats h inc info req) { model = m }))
            ≡ ok content)
    pub anthropic :
        (info : AuthInfo) (req : AegisRequest fl.F) (m : String)
        → inc.body ≡ decoded req
        → (content : String) × (codecs.marshal_anthropic (
              anthropic_body fl codecs.marshal_anthropic codecs.unmarshal_anthropic
                codecs.marshal_chunk codecs.unmarshal_event
                (record (enrich fl formats h inc info req) { model = m }))
            ≡ ok content)

  -- No provider reports a negative number of tokens.
  pub record IsCounting : Type 0 where
    pub openai :
        (content : String) (r : OpenaiResponseBody)
        → codecs.unmarshal_openai content ≡ ok r
        → (pos 0 ≤ℤ r.usage.prompt_tokens) × (pos 0 ≤ℤ r.usage.completion_tokens)
    pub anthropic :
        (content : String) (r : AnthropicResponseBody)
        → codecs.unmarshal_anthropic content ≡ ok r
        → (pos 0 ≤ℤ r.input_tokens) × (pos 0 ≤ℤ r.output_tokens)

  module _ (encodable : IsEncodable) (counting : IsCounting) where
    abbrev Counts : AegisResponse fl.F → Type 0
    Counts r =
        (has_tokens fl formats h inc r ≡ true)
        ⊎ ((r.usage.prompt_tokens ≡ pos 0)
            × (r.usage.completion_tokens ≡ pos 0)
            × (r.estimated_cost_usd ≡ fl.of_int (pos 0)))
