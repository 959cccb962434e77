-- ===== src/Provider.antt =====
-- internal/router/adapters: the interface of adapter.go, and the adapters of openai.go and
-- anthropic.go in the children. A request to a provider is its address, headers and body; the HTTP
-- client and the encoding of JSON are parameters.
pub mod Openai
pub mod Registry
pub mod Anthropic
use aegis_ai_gateway.Prelude.{
  insert, str_eq, ◌∷◌, [], err, ◌==◌, ℕ, if◌then◌else◌, Result, Bool, String, Option, List,
}
use aegis_ai_gateway.Types.{AegisRequest, AegisResponse}
use aegis_ai_gateway.Http.{HttpResponse}
use aegis_ai_gateway.Retry.{GoError}

pub record HttpRequest : Type 0 where
  pub url : String
  pub headers : List (String × String)
  pub body : String

-- What a call of the HTTP client gives.
abbrev pub Sent : Type 0
Sent = Option HttpResponse × Option GoError

-- `ProviderAdapter`. An error is its text; a chunk that is skipped is `none`. `send_request` takes the
-- number of the call: the provider may answer each differently.
pub record ProviderAdapter (F : Type 0) : Type 0 where
  pub name : String
  pub supports_streaming : Bool
  pub transform_request : AegisRequest F → Result String HttpRequest
  pub transform_response : HttpResponse → Result String (AegisResponse F)
  pub transform_stream_chunk : String → Result String (Option String)
  pub send_request : ℕ → HttpRequest → Sent

-- The headers of a provider's configuration that are not empty, written over those that are there.
-- Their names are taken to be in canonical form.
abbrev pub set_headers : List (String × String) → List (String × String) → List (String × String)
set_headers [] headers = headers
set_headers ((k, v) ∷ rest) headers =
    set_headers rest (if str_eq v "" then headers else insert k v headers)

-- `io.ReadAll(resp.Body)` of a body that can be read to its end, and the test of the status.
-- The error leaves out the status and the body, which only the log reads.
abbrev pub read_ok :
    {A : Type 0} → String → HttpResponse → (String → Result String A) → Result String A
read_ok returned resp decode = if resp.status_code == 200 then decode resp.body else err returned
