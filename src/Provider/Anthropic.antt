-- ===== src/Provider/Anthropic.antt =====
-- internal/router/adapters/anthropic.go: the conversion to and from the Messages API. The functions
-- of encoding/json at each type are parameters.
pub mod Laws
use aegis_ai_gateway.Prelude.{
  ◌∷◌, [], none, true, ok, ◌+ℤ◌, some, err, pos, str_eq, ℕ, Result, Option, Bool, if◌then◌else◌,
  String, Float64, ℤ, List,
}
use Prim.Native.String.{◌++◌}
use aegis_ai_gateway.Types.{AegisRequest, AegisResponse, Message, Choice, Usage}
use aegis_ai_gateway.Config.{ProviderConfig}
use aegis_ai_gateway.Http.{HttpResponse}
use aegis_ai_gateway.Provider.{HttpRequest, ProviderAdapter, Sent, set_headers, read_ok}

pub record AnthropicMessage : Type 0 where
  pub role : String
  pub content : String

pub record AnthropicRequestBody (F : Type 0) : Type 0 where
  pub model : String
  pub messages : List AnthropicMessage
  pub system : String
  pub max_tokens : ℤ
  pub stream : Bool
  pub temperature : Option F
  pub top_p : Option F
  pub stop : List String

pub record ContentBlock : Type 0 where
  pub type_name : String
  pub text : String

pub record AnthropicResponseBody : Type 0 where
  pub model : String
  pub content : List ContentBlock
  pub stop_reason : String
  pub input_tokens : ℤ
  pub output_tokens : ℤ

-- The event of a stream, and the chunk in the OpenAI format with its only choice.
pub record StreamEvent : Type 0 where
  pub type_name : String
  pub index : ℤ
  pub delta_type : String
  pub delta_text : String
  pub delta_stop_reason : String

pub record OpenaiStreamChunk : Type 0 where
  pub index : ℤ
  pub content : String
  pub finish_reason : Option String

unfoldable pub map_stop_reason : String → String
map_stop_reason reason =
    if str_eq reason "end_turn"
    then "stop"
    else if str_eq reason "max_tokens"
    then "length"
    else if str_eq reason "stop_sequence"
    then "stop"
    else reason

-- The loop over the messages: the system text so far, and the other messages in order.
unfoldable pub split_messages : String → List Message → String × List AnthropicMessage
split_messages system [] = (system, [])
split_messages system (m ∷ ms) =
    let is_system = str_eq m.role "system" in
    let (last, others) = split_messages (if is_system then m.content else system) ms in
    (last, if is_system then others else record { role = m.role; content = m.content } ∷ others)

-- The first block of type "text", or the empty text.
unfoldable pub first_text : List ContentBlock → String
first_text [] = ""
first_text (b ∷ bs) = let rest = first_text bs in if str_eq b.type_name "text" then b.text else rest

abbrev pub or_default : ℤ → Option ℤ → ℤ
or_default n none = n
or_default n (some m) = m

module _ (fl : Float64) (marshal : AnthropicRequestBody fl.F → Result String String)
    (unmarshal : String → Result String AnthropicResponseBody)
    (marshal_chunk : OpenaiStreamChunk → Result String String)
    (unmarshal_event : String → Option StreamEvent) where
  unfoldable pub anthropic_body : AegisRequest fl.F → AnthropicRequestBody fl.F
  unfolding split_messages
  anthropic_body req =
      let (system, messages) = split_messages "" req.messages in
      record {
        model = req.model;
        messages = messages;
        system = system;
        max_tokens = or_default (pos 4096) req.max_tokens;
        stream = req.stream;
        temperature = req.temperature;
        top_p = req.top_p;
        stop = req.stop;
      }

  abbrev pub anthropic_http : ProviderConfig → String → HttpRequest
  anthropic_http cfg content = record {
    url = cfg.base_url ++ "/messages";
    headers =
        set_headers cfg.headers
          (("Content-Type", "application/json") ∷ ("x-api-key", cfg.api_key) ∷ []);
    body = content;
  }

  -- An address that cannot be parsed is left out: the request is made.
  unfoldable pub anthropic_transform_request :
      ProviderConfig → AegisRequest fl.F → Result String HttpRequest
  unfolding anthropic_body
  anthropic_transform_request cfg req = elim (marshal (anthropic_body req)) [
    | err e ↦ err ("marshal anthropic request: " ++ e)
    | ok content ↦ ok (anthropic_http cfg content)
  ]

  unfoldable pub anthropic_response : AnthropicResponseBody → AegisResponse fl.F
  unfolding first_text map_stop_reason
  anthropic_response r = record {
    request_id = "";
    model = r.model;
    provider = "anthropic";
    choices =
        record {
          index = pos 0;
          message = record { role = "assistant"; content = first_text r.content; name = "" };
          finish_reason = map_stop_reason r.stop_reason;
        }
        ∷ [];
    usage = record {
      prompt_tokens = r.input_tokens;
      completion_tokens = r.output_tokens;
      total_tokens = r.input_tokens +ℤ r.output_tokens;
    };
    estimated_cost_usd = fl.of_int (pos 0);
  }

  unfoldable pub anthropic_transform_response : HttpResponse → Result String (AegisResponse fl.F)
  unfolding anthropic_response
  anthropic_transform_response resp = read_ok "anthropic returned status" resp (λ content.
      elim (unmarshal content) [
        | err e ↦ err ("unmarshal anthropic response: " ++ e)
        | ok r ↦ ok (anthropic_response r)
      ])

  abbrev pub marshalled : String → OpenaiStreamChunk → Result String (Option String)
  marshalled failure chunk = elim (marshal_chunk chunk) [
    | err e ↦ err (failure ++ e)
    | ok content ↦ ok (some content)
  ]

  abbrev pub convert : StreamEvent → Result String (Option String)
  convert event =
      if str_eq event.type_name "content_block_delta"
      then if str_eq event.delta_type "text_delta"
        then marshalled "marshal openai chunk: "
            (record { index = event.index; content = event.delta_text; finish_reason = none })
        else ok none
      else if str_eq event.type_name "message_delta"
      then marshalled "marshal openai finish chunk: " (record {
        index = pos 0;
        content = "";
        finish_reason = some (map_stop_reason event.delta_stop_reason);
      })
      else if str_eq event.type_name "message_stop"
      then ok (some "[DONE]")
      else ok none

  unfoldable pub anthropic_transform_stream_chunk : String → Result String (Option String)
  anthropic_transform_stream_chunk chunk = elim (unmarshal_event chunk) [
    | none ↦ ok none
    | some event ↦ convert event
  ]

  -- `send` is `client.Do`.
  unfoldable pub anthropic_adapter :
      ProviderConfig → (ℕ → HttpRequest → Sent) → ProviderAdapter fl.F
  anthropic_adapter cfg send = record {
    name = "anthropic";
    supports_streaming = true;
    transform_request = anthropic_transform_request cfg;
    transform_response = anthropic_transform_response;
    transform_stream_chunk = anthropic_transform_stream_chunk;
    send_request = send;
  }
