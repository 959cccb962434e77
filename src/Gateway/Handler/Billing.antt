-- ===== src/Gateway/Handler/Billing.antt =====
-- The usage that internal/gateway/handler.go records of requests that are not streamed.
use aegis_ai_gateway.Prelude.{
  if-second, ap, sym, true, refl, ◌∙◌, if-both, ℤ, Result, ◌++◌, Option, ◌≡◌, Bool, String, List,
  Float64, ◌∷◌, [], ok, err, some, none, false,
}
use aegis_ai_gateway.Types.{AegisRequest, AuthInfo, AegisResponse}
use aegis_ai_gateway.Http.{HttpResponse}
use aegis_ai_gateway.Events.{Event}
use aegis_ai_gateway.Filter.{FilterResult}
use aegis_ai_gateway.Router.{RouteError}
use aegis_ai_gateway.Provider.{ProviderAdapter, HttpRequest}
use aegis_ai_gateway.Gateway.{
  refuse, if_on, RequestLabels, ℤ, Option, ErrorResponse, Bool, String, List, State, Outcome, Reply,
  refused, answered, crashed, Effect, noted, request_recorded, streaming_recorded, usage_recorded,
  UsageRecord, note_all,
}
use aegis_ai_gateway.Gateway.{RequestLabels}
use aegis_ai_gateway.Cost.{calculate, Calculator}
use aegis_ai_gateway.Gateway.Handler.{
  authenticated_as, settle_delivery, find_route, filtered, respond, checked, serve_route,
  apply_policy, route_request, receive, Result, serve_body, after_delivery, prefixed, complete,
  Float64, send_prepared, chat_completions,
}
use aegis_ai_gateway.Gateway.Parts.{
  block_events, enrich, Handler, Incoming, Formats, Body, unreadable, invalid_json, decoded,
}
use aegis_ai_gateway.Gateway.Delivery.{price, deliver, Delivered}

-- The request, model, provider, tokens and cost that a usage record charges.
abbrev pub Charge : Type 0 → Type 0
Charge F = String × String × String × ℤ × ℤ × ℤ × F

module _ {F : Type 0} where
  abbrev pub charges : List (Effect F) → List (Charge F)
  charges [] = []
  charges (noted e ∷ es) = charges es
  charges (request_recorded l ∷ es) = charges es
  charges (streaming_recorded l ∷ es) = charges es
  charges (usage_recorded u ∷ es) =
      (
        u.request_id, u.model_served, u.provider, u.prompt_tokens, u.completion_tokens,
        u.total_tokens, u.estimated_cost_usd,
      )
      ∷ charges es

  -- What a response to the client says of itself, where usage is recorded.
  abbrev pub bill : Bool → Reply F → List (Charge F)
  bill true (answered r) =
      (
        r.request_id, r.model, r.provider, r.usage.prompt_tokens, r.usage.completion_tokens,
        r.usage.total_tokens, r.estimated_cost_usd,
      )
      ∷ []
  bill _ _ = []

  pub charges-note_all :
      (es : List Event) (rest : List (Effect F)) → charges (note_all es ++ rest) ≡ charges rest
  charges-note_all [] rest = refl
  charges-note_all (e ∷ es) rest = charges-note_all es rest

  bill-refused : (b : Bool) (e : ErrorResponse) → bill b (refused e) ≡ []
  bill-refused true e = refl
  bill-refused false e = refl

  bill-crashed : (b : Bool) → bill b crashed ≡ []
  bill-crashed true = refl
  bill-crashed false = refl

module _ (fl : Float64) (formats : Formats fl.F) (h : Handler fl.F) (inc : Incoming fl.F) where
  abbrev IsBilled : Outcome fl.F → Type 0
  IsBilled o = charges o.effects ≡ bill h.on.usage o.reply

  refused_billed : (e : ErrorResponse) → [] ≡ bill {F = fl.F} h.on.usage (refused e)
  refused_billed e = sym (bill-refused h.on.usage e)

  prefixed-IsBilled :
      (es : List Event) (o : Outcome fl.F) → IsBilled o → IsBilled (prefixed fl formats h inc es o)
  prefixed-IsBilled es o billed = charges-note_all es o.effects ∙ billed

  blocked-IsBilled :
      (es : List Event) (s : State fl.F) (e : ErrorResponse)
      → IsBilled (prefixed fl formats h inc es (refuse s [] e))
  blocked-IsBilled es s e = charges-note_all {F = fl.F} es [] ∙ refused_billed e

  effects_billed :
      (metrics usage : Bool) (l : RequestLabels fl.F) (u : UsageRecord fl.F)
      (r : AegisResponse fl.F)
      → charges (usage_recorded u ∷ []) ≡ bill true (answered r)
      → charges (if_on metrics (request_recorded l) ++ if_on usage (usage_recorded u))
        ≡ bill usage (answered r)
  effects_billed true true l u r same = same
  effects_billed true false l u r same = refl
  effects_billed false true l u r same = same
  effects_billed false false l u r same = refl

  price-request_id :
      (c : Option (Calculator fl.F)) (r : AegisResponse fl.F)
      → (price fl formats h inc c r).1.request_id ≡ r.request_id
  price-request_id none r = refl
  price-request_id (some c) r =
      if-both (λ (z : AegisResponse fl.F). z.request_id ≡ r.request_id)
        (calculate fl (some h.models) c r.provider r.model r.usage.prompt_tokens
          r.usage.completion_tokens).2
        refl refl

  module _ (info : AuthInfo) where
    complete-IsBilled :
        (original : String) (req : AegisRequest fl.F) (s : State fl.F) (r : AegisResponse fl.F)
        → IsBilled (complete fl formats h inc info original req s r)
    unfolding complete
    complete-IsBilled original req s r =
        let priced =
          (price fl formats h inc s.calculator (record r { request_id = inc.request_id })).1 in
        effects_billed h.on.metrics h.on.usage _ _ priced (
          ap
            (λ z.
              (
                z, priced.model, priced.provider, priced.usage.prompt_tokens,
                priced.usage.completion_tokens, priced.usage.total_tokens,
                priced.estimated_cost_usd,
              )
              ∷ [])
            (sym (price-request_id s.calculator (record r { request_id = inc.request_id }))))

    module _ (original : String) (adapter : ProviderAdapter fl.F) (req : AegisRequest fl.F)
        (s : State fl.F) where
      respond-IsBilled :
          (r : Result String (AegisResponse fl.F))
          → IsBilled (respond fl formats h inc info original adapter req s r)
      respond-IsBilled (err e) = refused_billed _
      respond-IsBilled (ok r) = complete-IsBilled original req _ r

      receive-IsBilled :
          (r : Option HttpResponse)
          → IsBilled (receive fl formats h inc info original adapter req s r)
      receive-IsBilled none = sym (bill-crashed h.on.usage)
      receive-IsBilled (some r) = respond-IsBilled (adapter.transform_response r)

      after_delivery-IsBilled :
          (d : Delivered) → IsBilled (after_delivery fl formats h inc info original adapter req s d)
      unfolding after_delivery
      after_delivery-IsBilled d =
          prefixed-IsBilled d.events
            (settle_delivery fl formats h inc info original adapter req s d)
            (if-both IsBilled d.failed (refused_billed _) (receive-IsBilled d.response))

      send_prepared-IsBilled :
          (r : Result String HttpRequest)
          → req.stream ≡ false
          → IsBilled (send_prepared fl formats h inc info original adapter req s r)
      unfolding send_prepared
      send_prepared-IsBilled (err e) whole = refused_billed _
      send_prepared-IsBilled (ok r) whole =
          if-second IsBilled req.stream _ whole
            (after_delivery-IsBilled (deliver fl formats h inc adapter req r))

    module _ (req : AegisRequest fl.F) (s : State fl.F) (whole : req.stream ≡ false) where
      apply_policy-IsBilled :
          (adapter : ProviderAdapter fl.F) (m p : String) (found : Option (FilterResult fl.F))
          → IsBilled (
              apply_policy fl formats h inc info adapter m
                (record req { provider_type = p })
                s
                found)
      apply_policy-IsBilled adapter m p (some r) =
          blocked-IsBilled (block_events fl formats h inc r) s _
      apply_policy-IsBilled adapter m p none = send_prepared-IsBilled _ adapter _ s _ whole

      serve_route-IsBilled :
          (found : Result RouteError (ProviderAdapter fl.F × String))
          → IsBilled (serve_route fl formats h inc info req s found)
      unfolding serve_route
      serve_route-IsBilled (err e) = refused_billed _
      serve_route-IsBilled (ok (adapter, m)) = apply_policy-IsBilled adapter m adapter.name _

    module _ (req : AegisRequest fl.F) (s : State fl.F) (whole : req.stream ≡ false) where
      filtered-IsBilled :
          (found : List Event × Option (FilterResult fl.F))
          → IsBilled (filtered fl formats h inc info req s found)
      unfolding route_request
      filtered-IsBilled (es, some r) = blocked-IsBilled es s _
      filtered-IsBilled (es, none) =
          let routed = record s { tracker = (find_route fl formats h inc req s).0 } in
          let found = (find_route fl formats h inc req s).1 in
          prefixed-IsBilled es (serve_route fl formats h inc info req routed found)
            (serve_route-IsBilled req routed whole found)

      checked-IsBilled :
          (message : Option String) → IsBilled (checked fl formats h inc info req s message)
      checked-IsBilled (some m) = refused_billed _
      checked-IsBilled none = filtered-IsBilled _

    serve_body-IsBilled :
        (body : Body fl.F) (s : State fl.F)
        → ((req : AegisRequest fl.F) → body ≡ decoded req → req.stream ≡ false)
        → IsBilled (serve_body fl formats h inc info body s)
    unfolding serve_body enrich
    serve_body-IsBilled unreadable s whole = refused_billed _
    serve_body-IsBilled (invalid_json e) s whole = refused_billed _
    serve_body-IsBilled (decoded req) s whole = checked-IsBilled _ s (whole req refl) _

  authenticated_as-IsBilled :
      (auth : Option AuthInfo) (s : State fl.F)
      → ((req : AegisRequest fl.F) → inc.body ≡ decoded req → req.stream ≡ false)
      → IsBilled (authenticated_as fl formats h inc auth s)
  authenticated_as-IsBilled none s whole = refused_billed _
  authenticated_as-IsBilled (some info) s whole = serve_body-IsBilled info inc.body s whole

  -- A request that is not streamed leaves a usage record exactly if it is answered and usage is
  -- recorded, and then one, with the id, the model, the provider, the tokens and the cost that the
  -- answer shows to the client.
  pub chat_completions_billed :
      (s : State fl.F)
      → ((req : AegisRequest fl.F) → inc.body ≡ decoded req → req.stream ≡ false)
      → charges (chat_completions fl formats h inc s).effects
        ≡ bill h.on.usage (chat_completions fl formats h inc s).reply
  unfolding chat_completions
  chat_completions_billed s whole = authenticated_as-IsBilled inc.auth s whole
