-- ===== src/Gateway/Handler/Breakers.antt =====
-- What internal/gateway/handler.go tells the health tracker of a request that it has routed: it names
-- the adapter, where the routing asks for the provider of the route.
use aegis_ai_gateway.Prelude.{
  if-both, refl, str_eq-false, ◌∙◌, ◌⊎◌, ◌==◌, ap, ◌≡◌, inl, inr, Result, ◌≢◌, Option, ℕ, Float64,
  String, ok, err, some, none,
}
use mathlib.Core.Option
use aegis_ai_gateway.Types.{AegisRequest, AuthInfo, AegisResponse}
use aegis_ai_gateway.Http.{HttpResponse}
use aegis_ai_gateway.Circuit.{CircuitBreaker}
use aegis_ai_gateway.Health.{HealthTracker, tracker_failure, tracker_success}
use aegis_ai_gateway.Health.Refinement.{view, run_call, told_failure, told_success, view-run_call}
use aegis_ai_gateway.Provider.{ProviderAdapter, HttpRequest, Sent}
use aegis_ai_gateway.Gateway.{Option, ℕ, String, State, Outcome}
use aegis_ai_gateway.Gateway.Stream.{Line, handle_stream}
use aegis_ai_gateway.Gateway.Handler.{
  receive, respond, complete, after_delivery, Result, Float64, send_prepared, find_route,
  chat_completions,
}
use aegis_ai_gateway.Gateway.Parts.{enrich, Handler, Incoming, Formats}
use aegis_ai_gateway.Gateway.Delivery.{deliver, Delivered}
use aegis_ai_gateway.Gateway.Handler.Gates.{Passed}
use aegis_ai_gateway.Gateway.Handler.Passage.{outgoing, routed_state, chat_completions_passed}

-- Nothing is told, or a failure, or a success, of one provider.
abbrev pub IsTold : ℕ → String → Option HealthTracker → Option HealthTracker → Type 0
IsTold now name before after =
    (after ≡ before)
    ⊎ (after ≡ Option.map (λ ht. tracker_failure now ht name) before)
    ⊎ (after ≡ Option.map (λ ht. tracker_success ht name) before)

-- The breaker that the tracker has, or would make, for a provider.
abbrev pub breaker_of : String → Option HealthTracker → Option CircuitBreaker
breaker_of provider ht = Option.map (λ z. view z provider) ht

breaker_of-failure :
    (now : ℕ) (name q : String) (ht : Option HealthTracker)
    → name ≢ q
    → breaker_of q (Option.map (λ z. tracker_failure now z name) ht) ≡ breaker_of q ht
unfolding run_call
breaker_of-failure now name q none differ = refl
breaker_of-failure now name q (some ht) differ =
    ap some (view-run_call now told_failure name q ht ∙ rw (str_eq-false name q differ) refl)

breaker_of-success :
    (name q : String) (ht : Option HealthTracker)
    → name ≢ q
    → breaker_of q (Option.map (λ z. tracker_success z name) ht) ≡ breaker_of q ht
unfolding run_call
breaker_of-success name q none differ = refl
breaker_of-success name q (some ht) differ =
    ap some (view-run_call 0 told_success name q ht ∙ rw (str_eq-false name q differ) refl)

IsTold-breaker_of :
    (now : ℕ) (name q : String) (before after : Option HealthTracker)
    → IsTold now name before after
    → name ≢ q
    → breaker_of q after ≡ breaker_of q before
IsTold-breaker_of now name q before after (inl same) differ = ap (breaker_of q) same
IsTold-breaker_of now name q before after (inr (inl failed)) differ =
    ap (breaker_of q) failed ∙ breaker_of-failure now name q before differ
IsTold-breaker_of now name q before after (inr (inr done)) differ =
    ap (breaker_of q) done ∙ breaker_of-success name q before differ

module _ (fl : Float64) (formats : Formats fl.F) (h : Handler fl.F) (inc : Incoming fl.F)
    (info : AuthInfo) (original : String) (adapter : ProviderAdapter fl.F) (req : AegisRequest fl.F)
    (s : State fl.F) where
  abbrev Tells : Outcome fl.F → Type 0
  Tells o = IsTold inc.clock.answered_at adapter.name s.tracker o.state.tracker

  respond-Tells :
      (r : Result String (AegisResponse fl.F))
      → Tells (respond fl formats h inc info original adapter req s r)
  unfolding complete
  respond-Tells (err e) = inl refl
  respond-Tells (ok resp) = inr (inr refl)

  receive-Tells :
      (r : Option HttpResponse) → Tells (receive fl formats h inc info original adapter req s r)
  receive-Tells none = inl refl
  receive-Tells (some resp) = respond-Tells (adapter.transform_response resp)

  after_delivery-Tells :
      (d : Delivered) → Tells (after_delivery fl formats h inc info original adapter req s d)
  unfolding after_delivery
  after_delivery-Tells d = if-both Tells d.failed (inr (inl refl)) (receive-Tells d.response)

  handle_stream-Tells :
      (l : Line) (sent : Sent)
      → Tells (
          handle_stream fl h.on inc.clock
            (some h.models)
            formats.decode
            inc.request_id
            original
            info
            req
            adapter
            s
            l
            sent)
  unfolding handle_stream
  handle_stream-Tells l (resp, some e) = inr (inl refl)
  handle_stream-Tells l (none, none) = inl refl
  handle_stream-Tells l (some resp, none) =
      if-both Tells (resp.status_code == 200) (inl refl) (inl refl)

  send_prepared-Tells :
      (r : Result String HttpRequest)
      → Tells (send_prepared fl formats h inc info original adapter req s r)
  unfolding send_prepared
  send_prepared-Tells (err e) = inl refl
  send_prepared-Tells (ok r) =
      if-both Tells req.stream (handle_stream-Tells inc.line (adapter.send_request 0 r))
        (after_delivery-Tells (deliver fl formats h inc adapter req r))

module _ (fl : Float64) (formats : Formats fl.F) (h : Handler fl.F) (inc : Incoming fl.F)
    (s : State fl.F) (p : Passed fl formats h inc s) where
  -- A routed request leaves the health tracker as routing left it, or with one failure or one success
  -- of the provider that the adapter is named after.
  pub chat_completions-IsTold :
      IsTold inc.clock.answered_at p.adapter.name
        (routed_state fl formats h inc s p).tracker
        (chat_completions fl formats h inc s).state.tracker
  chat_completions-IsTold = rw (chat_completions_passed fl formats h inc s p) (
      send_prepared-Tells fl formats h inc p.info p.req.model p.adapter
        (outgoing fl formats h inc s p) (routed_state fl formats h inc s p) _)

  -- Whatever a routed request meets, a provider whose name is not the adapter's own has after it the
  -- circuit breaker that routing left it.
  pub chat_completions_other_breakers :
      (q : String)
      → p.adapter.name ≢ q
      → breaker_of q (chat_completions fl formats h inc s).state.tracker
        ≡ breaker_of q (find_route fl formats h inc (enrich fl formats h inc p.info p.req) s).0
  chat_completions_other_breakers q differ =
      IsTold-breaker_of inc.clock.answered_at p.adapter.name q _ _ chat_completions-IsTold differ
