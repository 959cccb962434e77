-- ===== src/Gateway/Handler/Ids.antt =====
-- The request's id in what internal/gateway/handler.go answers.
use aegis_ai_gateway.Prelude.{
  if-both, Float64, String, Bool, true, false, Option, none, some, Result, ok, err, List, ◌≡◌, refl,
  Bool-cases, inl, inr, ◌==◌,
}
use aegis_ai_gateway.Types.{AegisRequest, AegisResponse, AuthInfo}
use aegis_ai_gateway.Http.{
  HttpResponse, write_auth_error, write_bad_request_error, write_content_blocked_error,
  write_internal_error, write_service_unavailable_error,
}
use aegis_ai_gateway.Events.{Event}
use aegis_ai_gateway.Filter.{FilterResult}
use aegis_ai_gateway.Router.{RouteError}
use aegis_ai_gateway.Cost.{Calculator, calculate}
use aegis_ai_gateway.Provider.{HttpRequest, ProviderAdapter, Sent}
use aegis_ai_gateway.Gateway.{Reply, refused, answered, streamed, crashed, State, Outcome}
use aegis_ai_gateway.Gateway.Stream.{Line, handle_stream, stream_reply}
use aegis_ai_gateway.Gateway.Streaming.{Streamed}
use aegis_ai_gateway.Gateway.Parts.{
  Handler, Body, unreadable, invalid_json, decoded, Incoming, Formats,
}
use aegis_ai_gateway.Gateway.Delivery.{Delivered, deliver, price, set_cost}
use aegis_ai_gateway.Gateway.Handler.{
  complete, respond, receive, after_delivery, send_prepared, apply_policy, serve_route,
  route_request, filtered, checked, serve_body, authenticated_as, chat_completions,
}

-- What is written as JSON has the id: an error in its body, a completion in its field.
abbrev pub Carries : {F : Type 0} → String → Reply F → Type 0
Carries id (refused e) = e.request_id ≡ id
Carries id (answered resp) = resp.request_id ≡ id
Carries id (streamed writes) = Unit
Carries id crashed = Unit

module _ (fl : Float64) (formats : Formats fl.F) (h : Handler fl.F) (inc : Incoming fl.F) where
  abbrev IsMarked : Outcome fl.F → Type 0
  IsMarked o = Carries inc.request_id o.reply

  set_cost-id :
      (c : fl.F × Bool) (r : AegisResponse fl.F)
      → (set_cost fl formats h inc c r).request_id ≡ r.request_id
  set_cost-id (cost, true) r = refl
  set_cost-id (cost, false) r = refl

  price-id :
      (c : Option (Calculator fl.F)) (r : AegisResponse fl.F)
      → (price fl formats h inc c r).1.request_id ≡ r.request_id
  price-id none r = refl
  price-id (some c) r =
      let (c', cost, found) =
        calculate fl (some h.models) c r.provider r.model r.usage.prompt_tokens
          r.usage.completion_tokens in
      set_cost-id (cost, found) r

  respond-IsMarked :
      (info : AuthInfo) (original : String) (adapter : ProviderAdapter fl.F)
      (req : AegisRequest fl.F) (s : State fl.F) (r : Result String (AegisResponse fl.F))
      → IsMarked (respond fl formats h inc info original adapter req s r)
  unfolding complete write_internal_error
  respond-IsMarked info original adapter req s (err e) = refl
  respond-IsMarked info original adapter req s (ok resp) = price-id _ _

  receive-IsMarked :
      (info : AuthInfo) (original : String) (adapter : ProviderAdapter fl.F)
      (req : AegisRequest fl.F) (s : State fl.F) (r : Option HttpResponse)
      → IsMarked (receive fl formats h inc info original adapter req s r)
  receive-IsMarked info original adapter req s none = tt
  receive-IsMarked info original adapter req s (some resp) =
      respond-IsMarked info original adapter req s (adapter.transform_response resp)

  after_delivery-IsMarked :
      (info : AuthInfo) (original : String) (adapter : ProviderAdapter fl.F)
      (req : AegisRequest fl.F) (s : State fl.F) (d : Delivered)
      → IsMarked (after_delivery fl formats h inc info original adapter req s d)
  unfolding after_delivery write_service_unavailable_error
  after_delivery-IsMarked info original adapter req s d = elim (Bool-cases d.failed) [
    | inl failed ↦ rw failed refl
    | inr done ↦ rw done (receive-IsMarked info original adapter req s d.response)
  ]

  stream_reply-Carries :
      (id : String) (done : Option (Streamed fl.F)) → Carries id (stream_reply fl id done)
  unfolding write_internal_error
  stream_reply-Carries id none = refl
  stream_reply-Carries id (some s) = tt

  handle_stream-IsMarked :
      (original : String) (info : AuthInfo) (req : AegisRequest fl.F)
      (adapter : ProviderAdapter fl.F) (s : State fl.F) (l : Line) (sent : Sent)
      → IsMarked (
          handle_stream fl h.on inc.clock
            (some h.models)
            formats.decode
            inc.request_id
            original
            info
            req
            adapter
            s
            l
            sent)
  unfolding handle_stream write_internal_error write_service_unavailable_error
  handle_stream-IsMarked original info req adapter s l (resp, some e) = refl
  handle_stream-IsMarked original info req adapter s l (none, none) = tt
  handle_stream-IsMarked original info req adapter s l (some resp, none) =
      elim (Bool-cases (resp.status_code == 200)) [
        | inl fine ↦ rw fine (stream_reply-Carries inc.request_id _)
        | inr odd ↦ rw odd refl
      ]

  send_prepared-IsMarked :
      (info : AuthInfo) (original : String) (adapter : ProviderAdapter fl.F)
      (req : AegisRequest fl.F) (s : State fl.F) (r : Result String HttpRequest)
      → IsMarked (send_prepared fl formats h inc info original adapter req s r)
  unfolding send_prepared write_internal_error
  send_prepared-IsMarked info original adapter req s (err e) = refl
  send_prepared-IsMarked info original adapter req s (ok r) =
      if-both IsMarked req.stream
        (handle_stream-IsMarked original info req adapter s inc.line (adapter.send_request 0 r))
        (after_delivery-IsMarked info original adapter req s
          (deliver fl formats h inc adapter req r))

  apply_policy-IsMarked :
      (info : AuthInfo) (adapter : ProviderAdapter fl.F) (provider_model : String)
      (req : AegisRequest fl.F) (s : State fl.F) (r : Option (FilterResult fl.F))
      → IsMarked (apply_policy fl formats h inc info adapter provider_model req s r)
  unfolding write_content_blocked_error
  apply_policy-IsMarked info adapter provider_model req s (some r) = refl
  apply_policy-IsMarked info adapter provider_model req s none =
      send_prepared-IsMarked info req.model adapter _ s _

  serve_route-IsMarked :
      (info : AuthInfo) (req : AegisRequest fl.F) (s : State fl.F)
      (found : Result RouteError (ProviderAdapter fl.F × String))
      → IsMarked (serve_route fl formats h inc info req s found)
  unfolding serve_route write_service_unavailable_error
  serve_route-IsMarked info req s (err e) = refl
  serve_route-IsMarked info req s (ok (adapter, provider_model)) =
      apply_policy-IsMarked info adapter provider_model _ s _

  filtered-IsMarked :
      (info : AuthInfo) (req : AegisRequest fl.F) (s : State fl.F)
      (r : List Event × Option (FilterResult fl.F))
      → IsMarked (filtered fl formats h inc info req s r)
  unfolding route_request write_content_blocked_error
  filtered-IsMarked info req s (events, some r) = refl
  filtered-IsMarked info req s (events, none) = serve_route-IsMarked info req _ _

  checked-IsMarked :
      (info : AuthInfo) (req : AegisRequest fl.F) (s : State fl.F) (message : Option String)
      → IsMarked (checked fl formats h inc info req s message)
  unfolding write_bad_request_error
  checked-IsMarked info req s (some message) = refl
  checked-IsMarked info req s none = filtered-IsMarked info req s _

  serve_body-IsMarked :
      (info : AuthInfo) (body : Body fl.F) (s : State fl.F)
      → IsMarked (serve_body fl formats h inc info body s)
  unfolding serve_body write_bad_request_error
  serve_body-IsMarked info unreadable s = refl
  serve_body-IsMarked info (invalid_json e) s = refl
  serve_body-IsMarked info (decoded req) s = checked-IsMarked info _ s _

  authenticated_as-IsMarked :
      (auth : Option AuthInfo) (s : State fl.F)
      → IsMarked (authenticated_as fl formats h inc auth s)
  unfolding write_auth_error
  authenticated_as-IsMarked none s = refl
  authenticated_as-IsMarked (some info) s = serve_body-IsMarked info inc.body s

  -- Whatever the handler answers with JSON, an error of any stage or a completion, carries the id of the
  -- request.
  pub chat_completions-Carries :
      (s : State fl.F) → Carries inc.request_id (chat_completions fl formats h inc s).reply
  unfolding chat_completions
  chat_completions-Carries s = authenticated_as-IsMarked inc.auth s
