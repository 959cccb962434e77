-- ===== src/Tests/Handlers.antt =====
-- The two handlers of internal/gateway over a registry with both adapters of internal/router/adapters.
use aegis_ai_gateway.Prelude.{String, List, ℕ, pos, ok, none, ◌∷◌, [], whole_numbers}
use aegis_ai_gateway.Config.{ProviderConfig}
use aegis_ai_gateway.Provider.Openai.{OpenaiResponseBody}
use aegis_ai_gateway.Provider.Anthropic.{AnthropicResponseBody}
use aegis_ai_gateway.Provider.Registry.{Codecs, build_from_config}
use aegis_ai_gateway.Gateway.Parts.{Handler}
use aegis_ai_gateway.Tests.Gateway.{answers, handler}

abbrev openai_answer : OpenaiResponseBody
openai_answer = record {
  model = "gpt-4o";
  choices = [];
  usage = record { prompt_tokens = pos 2; completion_tokens = pos 1; total_tokens = pos 3 };
}

abbrev anthropic_answer : AnthropicResponseBody
anthropic_answer = record {
  model = "claude";
  content = [];
  stop_reason = "end_turn";
  input_tokens = pos 4;
  output_tokens = pos 0;
}

abbrev answering : Codecs whole_numbers
answering = record {
  marshal_openai = λ b. ok b.model;
  unmarshal_openai = λ s. ok openai_answer;
  marshal_anthropic = λ b. ok b.model;
  unmarshal_anthropic = λ s. ok anthropic_answer;
  marshal_chunk = λ c. ok "";
  unmarshal_event = λ s. none;
  client = λ cfg attempt r. answers;
}

abbrev provider : String → ProviderConfig
provider type_name = record {
  type_name = type_name;
  base_url = "u";
  api_key = "k";
  api_version = "";
  max_concurrent = pos 4;
  timeout = 0;
  headers = [];
}

abbrev both : List (String × ProviderConfig)
both = ("azure_openai", provider "openai") ∷ ("anthropic", provider "anthropic") ∷ []

abbrev served : Handler ℕ
served = record (handler answers) { registry = build_from_config whole_numbers answering both }
