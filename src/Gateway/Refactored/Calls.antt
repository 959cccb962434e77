-- ===== src/Gateway/Refactored/Calls.antt =====
-- `ChatCompletionsRefactored` and `ChatCompletions` of internal/gateway, from the call of the provider on.
use aegis_ai_gateway.Prelude.{
  subst, ℤ, Result, sym, if◌then◌else◌, ◌∙◌, Option, pos, ◌⊎◌, ap, true, String, refl, Float64, ◌≡◌,
  ok, err, some, none,
}
use aegis_ai_gateway.Types.{AegisRequest, AegisResponse, AuthInfo}
use aegis_ai_gateway.Http.{HttpResponse}
use aegis_ai_gateway.Gateway.Stream.{handle_stream}
use aegis_ai_gateway.Cost.{Calculator}
use aegis_ai_gateway.Provider.{Sent, HttpRequest, ProviderAdapter}
use aegis_ai_gateway.Gateway.{ℤ, failed_at, succeeded_at, Option, true, String, State}
use aegis_ai_gateway.Gateway.Handler.{send_prepared, respond, receive, after_delivery, prefixed}
use aegis_ai_gateway.Gateway.Parts.{Handler, Incoming, Formats, decoded, enrich}
use aegis_ai_gateway.Gateway.Delivery.{is_some, call_of, send_with, world_of, deliver, Delivered}
use aegis_ai_gateway.Gateway.Refactored.{
  execute, Text, Result, handle_stream, pos, Float64, boxed, step_error, write_http_error,
}
use aegis_ai_gateway.Gateway.Refactored.Stages.{
  send_stage, transform_stage, receive_stage, execute_provider_request, give_up, has_tokens,
}
-- The same response, effects and prices; the health tracker may have been told otherwise.
use aegis_ai_gateway.Gateway.Refactored.Answers.{
  Agrees, same, if-Agrees, prefixed-Agrees, IsCounted, complete-Agrees,
}

module _ (fl : Float64) (formats : Formats fl.F) (h : Handler fl.F) (inc : Incoming fl.F) where
  -- The adapter makes a request of the body that was decoded, for any model, and the same one whatever
  -- provider stands in it; its responses cost nothing yet, and report tokens, or none at all.
  pub record IsPlain (adapter : ProviderAdapter fl.F) : Type 0 where
    pub prepares :
        (info : AuthInfo) (req : AegisRequest fl.F) (m : String)
        → inc.body ≡ decoded req
        → (r : HttpRequest) × (adapter.transform_request
              (record (enrich fl formats h inc info req) { model = m })
            ≡ ok r)
    pub ignores :
        (req : AegisRequest fl.F) (p : String)
        → adapter.transform_request (record req { provider_type = p })
          ≡ adapter.transform_request req
    pub counts :
        (resp : HttpResponse) (r : AegisResponse fl.F)
        → adapter.transform_response resp ≡ ok r
        → (has_tokens fl formats h inc r ≡ true)
          ⊎ ((r.usage.prompt_tokens ≡ pos 0)
              × (r.usage.completion_tokens ≡ pos 0)
              × (r.estimated_cost_usd ≡ fl.of_int (pos 0)))

  module _ (info : AuthInfo) (original : String) (c : Calculator fl.F) where
    module _ (adapter : ProviderAdapter fl.F) (plain : IsPlain adapter) (base : AegisRequest fl.F)
        (p p' : String) (s : State fl.F) (priced : s.calculator ≡ some c) where
      abbrev req : AegisRequest fl.F
      req = record base { provider_type = p }

      abbrev req' : AegisRequest fl.F
      req' = record base { provider_type = p' }

      respond-Agrees :
          (r : Result String (AegisResponse fl.F))
          → ((resp : AegisResponse fl.F) → r ≡ ok resp → IsCounted fl formats h inc resp)
          → Agrees
              (respond fl formats h inc info original adapter req s r)
              (transform_stage fl formats h inc info original req' (succeeded_at adapter.name s) r)
      unfolding write_http_error
      respond-Agrees (err e) counted = record { reply = refl; effects = refl; calculator = refl }
      respond-Agrees (ok resp) counted =
          complete-Agrees fl formats h inc info original c base p p' _ _ resp priced priced
            (counted resp refl)

      receive-Agrees :
          (resp : Option HttpResponse)
          → Agrees (receive fl formats h inc info original adapter req s resp) (
              receive_stage fl formats h inc info original adapter req'
                (succeeded_at adapter.name s)
                resp)
      receive-Agrees none = record { reply = refl; effects = refl; calculator = refl }
      receive-Agrees (some resp) =
          respond-Agrees (adapter.transform_response resp) (plain.counts resp)

      settle-Agrees :
          (d : Delivered)
          → Agrees (after_delivery fl formats h inc info original adapter req s d) (
              prefixed fl formats h inc d.events (
                if d.failed
                then give_up fl formats h inc
                    (failed_at inc.clock.answered_at adapter.name s)
                    (step_error 503 (Text.plain "Provider request failed"))
                else receive_stage fl formats h inc info original adapter req'
                    (succeeded_at adapter.name s)
                    d.response))
      unfolding after_delivery write_http_error
      settle-Agrees d =
          prefixed-Agrees fl formats h inc d.events _ _
            (if-Agrees d.failed _ _ _ _ (same _) (receive-Agrees d.response))

      same_request : adapter.transform_request req ≡ adapter.transform_request req'
      same_request = plain.ignores base p ∙ sym (plain.ignores base p')

      same_world : world_of fl formats h inc adapter req ≡ world_of fl formats h inc adapter req'
      same_world =
          ap
            (λ z. record {
              call = call_of fl formats h inc adapter z;
              cancelled_before = inc.cancelled_before;
              cancelled_waiting = inc.cancelled_waiting;
            })
            same_request

      retried-Agrees :
          (retries : ℤ) (r : HttpRequest)
          → Agrees
              (after_delivery fl formats h inc info original adapter req s
                (send_with fl formats h inc (some retries) adapter req r))
              (execute_provider_request fl formats h inc
                (boxed (some retries))
                info
                original
                adapter
                req'
                r
                s)
      unfolding execute_provider_request
      retried-Agrees retries r =
          subst
            (λ w.
              let o = execute retries h.on.metrics adapter.name w in
              Agrees
                (after_delivery fl formats h inc info original adapter req s
                  (send_with fl formats h inc (some retries) adapter req r))
                (prefixed fl formats h inc o.events (
                  if is_some o.error
                  then give_up fl formats h inc (failed_at inc.clock.answered_at adapter.name s)
                      (step_error 503 (Text.plain "Provider request failed"))
                  else receive_stage fl formats h inc info original adapter req'
                      (succeeded_at adapter.name s) o.response)))
            same_world (settle-Agrees (send_with fl formats h inc (some retries) adapter req r))

      execute-Agrees :
          (retries : ℤ) (r : HttpRequest)
          → h.max_retries ≡ some retries
          → Agrees
              (after_delivery fl formats h inc info original adapter req s
                (deliver fl formats h inc adapter req r))
              (execute_provider_request fl formats h inc
                (boxed h.max_retries)
                info
                original
                adapter
                req'
                r
                s)
      unfolding deliver execute_provider_request
      execute-Agrees retries r given =
          subst
            (λ m.
              Agrees
                (after_delivery fl formats h inc info original adapter req s
                  (send_with fl formats h inc m adapter req r))
                (execute_provider_request fl formats h inc (boxed m) info original adapter req' r
                  s))
            (sym given) (retried-Agrees retries r)

      handle_stream-Agrees :
          (sent : Sent)
          → Agrees
              (handle_stream fl h.on inc.clock
                (some h.models)
                formats.decode
                inc.request_id
                original
                info
                req
                adapter
                s
                inc.line
                sent)
              (handle_stream fl h.on inc.clock
                (some h.models)
                formats.decode
                inc.request_id
                original
                info
                req'
                adapter
                s
                inc.line
                sent)
      unfolding handle_stream
      handle_stream-Agrees (resp, some e) = same _
      handle_stream-Agrees (none, none) = same _
      handle_stream-Agrees (some resp, none) = same _

      pub send-Agrees :
          (retries : ℤ) (r : HttpRequest)
          → h.max_retries ≡ some retries
          → Agrees
              (send_prepared fl formats h inc info original adapter req s (ok r))
              (send_stage fl formats h inc info original adapter req' r s)
      unfolding send_prepared
      send-Agrees retries r given =
          if-Agrees base.stream _ _ _ _ (handle_stream-Agrees (adapter.send_request 0 r))
            (execute-Agrees retries r given)
