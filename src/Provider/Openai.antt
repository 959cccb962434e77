-- ===== src/Provider/Openai.antt =====
-- internal/router/adapters/openai.go, nearly a pass-through. `Json` stands for encoding/json.
use aegis_ai_gateway.Prelude.{
  ℤ, some, [], Option, ok, true, Bool, ℕ, ◌∷◌, err, pos, List, Result, String, Float64,
}
use Prim.Native.String.{◌++◌}
use aegis_ai_gateway.Types.{AegisRequest, AegisResponse, Message, Choice, Usage}
use aegis_ai_gateway.Config.{ProviderConfig}
use aegis_ai_gateway.Http.{HttpResponse}
use aegis_ai_gateway.Provider.{HttpRequest, ProviderAdapter, Sent, set_headers, read_ok}

pub record OpenaiRequestBody (F : Type 0) : Type 0 where
  pub model : String
  pub messages : List Message
  pub stream : Bool
  pub temperature : Option F
  pub max_tokens : Option ℤ
  pub top_p : Option F
  pub stop : List String

pub record OpenaiResponseBody : Type 0 where
  pub model : String
  pub choices : List Choice
  pub usage : Usage

module _ (fl : Float64) (marshal : OpenaiRequestBody fl.F → Result String String)
    (unmarshal : String → Result String OpenaiResponseBody) where
  abbrev pub openai_body : AegisRequest fl.F → OpenaiRequestBody fl.F
  openai_body req = record {
    model = req.model;
    messages = req.messages;
    stream = req.stream;
    temperature = req.temperature;
    max_tokens = req.max_tokens;
    top_p = req.top_p;
    stop = req.stop;
  }

  abbrev pub openai_http : ProviderConfig → String → HttpRequest
  openai_http cfg content = record {
    url = cfg.base_url ++ "/chat/completions";
    headers =
        set_headers cfg.headers
          (("Content-Type", "application/json") ∷ ("Authorization", "Bearer " ++ cfg.api_key) ∷ []);
    body = content;
  }

  -- An address that cannot be parsed is left out: the request is made.
  unfoldable pub openai_transform_request :
      ProviderConfig → AegisRequest fl.F → Result String HttpRequest
  openai_transform_request cfg req = elim (marshal (openai_body req)) [
    | err e ↦ err ("marshal openai request: " ++ e)
    | ok content ↦ ok (openai_http cfg content)
  ]

  -- The copy of a choice keeps role and content, and drops the name.
  abbrev pub openai_choices : List Choice → List Choice
  openai_choices [] = []
  openai_choices (c ∷ cs) =
      record {
        index = c.index;
        message = record { role = c.message.role; content = c.message.content; name = "" };
        finish_reason = c.finish_reason;
      }
      ∷ openai_choices cs

  abbrev pub openai_response : OpenaiResponseBody → AegisResponse fl.F
  openai_response r = record {
    request_id = "";
    model = r.model;
    provider = "openai";
    choices = openai_choices r.choices;
    usage = r.usage;
    estimated_cost_usd = fl.of_int (pos 0);
  }

  unfoldable pub openai_transform_response : HttpResponse → Result String (AegisResponse fl.F)
  openai_transform_response resp = read_ok "openai returned status" resp (λ content.
      elim (unmarshal content) [
        | err e ↦ err ("unmarshal openai response: " ++ e)
        | ok r ↦ ok (openai_response r)
      ])

  -- `send` is `client.Do`.
  unfoldable pub openai_adapter : ProviderConfig → (ℕ → HttpRequest → Sent) → ProviderAdapter fl.F
  openai_adapter cfg send = record {
    name = "openai";
    supports_streaming = true;
    transform_request = openai_transform_request cfg;
    transform_response = openai_transform_response;
    transform_stream_chunk = λ chunk. ok (some chunk);
    send_request = send;
  }
