-- ===== src/Gateway/Handler/Origin.antt =====
-- Where the completions and the streams of internal/gateway/handler.go come from: the adapter of the route,
-- and what its provider answers to the request that the adapter makes.
use mathlib.Core.List.{Memᴰ}
use aegis_ai_gateway.Prelude.{
  Float64, ℕ, ℤ, String, true, false, Option, none, some, Result, ok, err, ◌∷◌, ◌≡◌, refl, sym, ap,
  ◌∙◌, subst, Bool-cases, Option-cases, inl, inr, lookup, ◌==◌, arith, if-both,
}
use aegis_ai_gateway.Types.{AegisRequest, AegisResponse, AuthInfo, parse_classification}
use aegis_ai_gateway.Http.{HttpResponse}
use aegis_ai_gateway.Config.{ModelMapping, ProviderRoute}
use aegis_ai_gateway.Cost.{Calculator, calculate}
use aegis_ai_gateway.Router.Laws.{Permits, resolve_route_classification}
use aegis_ai_gateway.Retry.Given.{execute-WasGiven}
use aegis_ai_gateway.Provider.{ProviderAdapter, HttpRequest, Sent}
use aegis_ai_gateway.Gateway.{State, Outcome, Reply, refused, answered, streamed, crashed}
use aegis_ai_gateway.Gateway.Streaming.{Streamed}
use aegis_ai_gateway.Gateway.Stream.{handle_stream, stream_with_monitoring}
use aegis_ai_gateway.Gateway.Parts.{Handler, Incoming, Formats, decoded, enrich}
use aegis_ai_gateway.Gateway.Delivery.{
  is_some, Delivered, world_of, call_of, send_with, deliver, price,
}
use aegis_ai_gateway.Gateway.Handler.{
  complete, respond, receive, settle_delivery, send_prepared, chat_completions,
}
use aegis_ai_gateway.Gateway.Handler.Gates.{is_served, Passed, chat_completions-Passed}
use aegis_ai_gateway.Gateway.Handler.Passage.{outgoing, routed_state, chat_completions_passed}

-- The completion but for its id and its cost.
abbrev pub IsOf : {F : Type 0} → AegisResponse F → AegisResponse F → Type 0
IsOf given a =
    (a.model ≡ given.model)
    × (a.provider ≡ given.provider)
    × (a.choices ≡ given.choices)
    × (a.usage ≡ given.usage)

not_some : {A : Type 0} (o : Option A) → is_some o ≡ false → o ≡ none
not_some none e = refl
not_some (some a) e = cc e

module _ (fl : Float64) (formats : Formats fl.F) (h : Handler fl.F) (inc : Incoming fl.F) where
  -- The adapter makes a request of what is sent, the provider answers one of the calls with it without an
  -- error, and the adapter makes the completion of that answer; or the writes of what comes after it.
  abbrev pub ComesFrom : ProviderAdapter fl.F → AegisRequest fl.F → Reply fl.F → Type 0
  ComesFrom adapter sent (answered a) =
      (r : HttpRequest) × (t : ℕ) × (raw : HttpResponse) × (given : AegisResponse fl.F)
      × (adapter.transform_request sent ≡ ok r)
      × (adapter.send_request t r ≡ (some raw, none))
      × (adapter.transform_response raw ≡ ok given)
      × IsOf given a
  ComesFrom adapter sent (streamed writes) =
      (r : HttpRequest) × (raw : HttpResponse) × (s : Streamed fl.F) × (adapter.transform_request
          sent
        ≡ ok r)
      × (adapter.send_request 0 r ≡ (some raw, none))
      × (raw.status_code ≡ 200)
      × ((stream_with_monitoring fl adapter formats.decode h.on.metrics inc.clock.answered_at
            inc.line).1
          ≡ some s)
      × (writes ≡ s.writes)
  ComesFrom adapter sent (refused e) = ⊥
  ComesFrom adapter sent crashed = ⊥

  pub price-IsOf :
      (c : Option (Calculator fl.F)) (r : AegisResponse fl.F)
      → (IsOf r (price fl formats h inc c r).1)
        × ((price fl formats h inc c r).1.request_id ≡ r.request_id)
  price-IsOf none r = ((refl, refl, refl, refl), refl)
  price-IsOf (some c) r =
      let (c', cost, found) =
        calculate fl (some h.models) c r.provider r.model r.usage.prompt_tokens
          r.usage.completion_tokens in
      if-both (λ (z : AegisResponse fl.F). IsOf r z × (z.request_id ≡ r.request_id)) found
        ((refl, refl, refl, refl), refl) ((refl, refl, refl, refl), refl)

  module _ (adapter : ProviderAdapter fl.F) (req : AegisRequest fl.F) (r : HttpRequest)
      (made : adapter.transform_request req ≡ ok r) where
    -- The calls of the executor are calls of the adapter with this request.
    pub calls : (t : ℕ) → (world_of fl formats h inc adapter req).call t ≡ adapter.send_request t r
    calls t = ap (λ z. call_of fl formats h inc adapter z t) made

    send_with-given :
        (m : Option ℤ) (raw : HttpResponse)
        → (send_with fl formats h inc m adapter req r).failed ≡ false
        → (send_with fl formats h inc m adapter req r).response ≡ some raw
        → (t : ℕ) × (adapter.send_request t r ≡ (some raw, none))
    send_with-given none raw fine there = (0, cc (there, not_some _ fine))
    send_with-given (some retries) raw fine there =
        let w = world_of fl formats h inc adapter req in
        let (t, same, no_error) =
          execute-WasGiven retries h.on.metrics adapter.name w (not_some _ fine) in
        (t, cc (sym (calls t), same, there, no_error))

    module _ (info : AuthInfo) (original : String) (s : State fl.F) where
      complete-ComesFrom :
          (s' : State fl.F) (t : ℕ) (raw : HttpResponse) (given : AegisResponse fl.F)
          → adapter.send_request t r ≡ (some raw, none)
          → adapter.transform_response raw ≡ ok given
          → ComesFrom adapter req (complete fl formats h inc info original req s' given).reply
      unfolding complete
      complete-ComesFrom s' t raw given sent read =
          let named = record given { request_id = inc.request_id } in
          (r, t, raw, given, made, sent, read, (price-IsOf s'.calculator named).0)

      respond-ComesFrom :
          (t : ℕ) (raw : HttpResponse) (read : Result String (AegisResponse fl.F))
          → adapter.send_request t r ≡ (some raw, none)
          → adapter.transform_response raw ≡ read
          → is_served (respond fl formats h inc info original adapter req s read).reply ≡ true
          → ComesFrom adapter req (respond fl formats h inc info original adapter req s read).reply
      respond-ComesFrom t raw (err e) sent same g = cc g
      respond-ComesFrom t raw (ok given) sent same g = complete-ComesFrom _ t raw given sent same

      receive-ComesFrom :
          (there : Option HttpResponse)
          → ((raw : HttpResponse)
              → there ≡ some raw
              → (t : ℕ) × (adapter.send_request t r ≡ (some raw, none)))
          → is_served (receive fl formats h inc info original adapter req s there).reply ≡ true
          → ComesFrom adapter req (receive fl formats h inc info original adapter req s there).reply
      receive-ComesFrom none from g = cc g
      receive-ComesFrom (some raw) from g =
          let (t, sent) = from raw refl in
          respond-ComesFrom t raw (adapter.transform_response raw) sent refl g

      settle-ComesFrom :
          (d : Delivered)
          → (d.failed ≡ false
              → (raw : HttpResponse) → d.response ≡ some raw
              → (t : ℕ) × (adapter.send_request t r ≡ (some raw, none)))
          → is_served (settle_delivery fl formats h inc info original adapter req s d).reply ≡ true
          → ComesFrom adapter req
              (settle_delivery fl formats h inc info original adapter req s d).reply
      settle-ComesFrom d from g = elim (Bool-cases d.failed) [
        | inl bad ↦ cc (rw bad at g)
        | inr fine ↦ rw fine (receive-ComesFrom d.response (from fine) (rw fine at g))
      ]

      stream-ComesFrom :
          (sent : Sent)
          → adapter.send_request 0 r ≡ sent
          → let o =
              handle_stream fl h.on inc.clock
                (some h.models)
                formats.decode
                inc.request_id
                original
                info
                req
                adapter
                s
                inc.line
                sent in
            is_served o.reply ≡ true → ComesFrom adapter req o.reply
      unfolding handle_stream
      stream-ComesFrom (raw, some e) same g = cc g
      stream-ComesFrom (none, none) same g = cc g
      stream-ComesFrom (some raw, none) same g = elim (Bool-cases (raw.status_code == 200)) [
        | inr other ↦ cc (rw other at g)
        | inl fine ↦
            elim (Option-cases
              (stream_with_monitoring fl adapter formats.decode h.on.metrics inc.clock.answered_at
                inc.line).1) [
                  | inl refuses ↦ cc (rw (fine, refuses) at g)
                  | inr (st, writes) ↦
                      rw (fine, writes) (r, raw, st, made, same, ground (arith, fine), writes, refl)
                ]
      ]

  module _ (info : AuthInfo) (original : String) (adapter : ProviderAdapter fl.F)
      (req : AegisRequest fl.F) (s : State fl.F) where
    send_prepared-ComesFrom :
        (found : Result String HttpRequest)
        → adapter.transform_request req ≡ found
        → is_served (send_prepared fl formats h inc info original adapter req s found).reply ≡ true
        → ComesFrom adapter req
            (send_prepared fl formats h inc info original adapter req s found).reply
    unfolding send_prepared deliver
    send_prepared-ComesFrom (err e) made = λ g. cc g
    send_prepared-ComesFrom (ok r) made =
        if-both (λ (o : Outcome fl.F). is_served o.reply ≡ true → ComesFrom adapter req o.reply)
          req.stream
          (stream-ComesFrom adapter req r made info original s (adapter.send_request 0 r) refl)
          (settle-ComesFrom adapter req r made info original s
            (deliver fl formats h inc adapter req r)
            (λ fine raw there. send_with-given adapter req r made h.max_retries raw fine there))

  -- A route of the asked model whose ceiling permits the classification, and what its adapter is sent.
  pub record IsRoutedWithin (info : AuthInfo) (req : AegisRequest fl.F) (reply : Reply fl.F)
      : Type 0 where
    pub mapping : ModelMapping
    pub route : ProviderRoute
    pub adapter : ProviderAdapter fl.F
    pub asked : lookup req.model h.models.models ≡ some mapping
    pub named : Memᴰ route (mapping.primary ∷ mapping.fallback)
    pub registered : lookup route.provider h.registry ≡ some adapter
    pub permits : Permits route info.max_classification
    pub origin :
        ComesFrom adapter
          (record (enrich fl formats h inc info req) {
            provider_type = adapter.name;
            model = route.model;
          })
          reply

  module _ (s : State fl.F) where
    Passed-IsRoutedWithin :
        (p : Passed fl formats h inc s)
        → parse_classification p.info.max_classification ≡ some p.info.max_classification
        → is_served (chat_completions fl formats h inc s).reply ≡ true
        → IsRoutedWithin p.info p.req (chat_completions fl formats h inc s).reply
    unfolding enrich
    Passed-IsRoutedWithin p class g =
        let (mapping, route, asked, at, registered, model, permits) =
          resolve_route_classification inc.clock.routed_at h.registry p.info.max_classification
            h.models s.tracker p.req.model (p.adapter, p.provider_model) class p.routed in
        let same = ap (λ o. o.reply) (chat_completions_passed fl formats h inc s p) in
        let sent = outgoing fl formats h inc s p in
        let from =
          send_prepared-ComesFrom p.info p.req.model p.adapter sent
            (routed_state fl formats h inc s p) (p.adapter.transform_request sent) refl
            (sym (ap is_served same) ∙ g) in
        record {
          mapping = mapping;
          route = route;
          adapter = p.adapter;
          asked = asked;
          named = at;
          registered = registered;
          permits = permits;
          origin =
              subst
                (λ m.
                  ComesFrom p.adapter (record sent { model = m })
                    (chat_completions fl formats h inc s).reply)
                (sym model) (subst (ComesFrom p.adapter sent) (sym same) from);
        }

    -- A completion, or a stream, is what the adapter of some route of the asked model makes of an answer
    -- that its provider gives without an error, with status 200 for a stream, to the request that the
    -- adapter makes of the client's with the route's model in it; and the route's ceiling, if it has one,
    -- permits the classification of the client's key, where that is one of the four constants. A
    -- completion has the model, the provider, the choices and the usage of the adapter's response.
    pub chat_completions-IsRoutedWithin :
        (info : AuthInfo) (req : AegisRequest fl.F)
        → inc.auth ≡ some info
        → inc.body ≡ decoded req
        → parse_classification info.max_classification ≡ some info.max_classification
        → is_served (chat_completions fl formats h inc s).reply ≡ true
        → IsRoutedWithin info req (chat_completions fl formats h inc s).reply
    chat_completions-IsRoutedWithin info req known sent class g =
        let reply = (chat_completions fl formats h inc s).reply in
        let p = chat_completions-Passed fl formats h inc s g in
        let same_info : p.info ≡ info = cc (p.known, known) in
        let same_req : p.req ≡ req = cc (p.sent, sent) in
        subst (λ z. IsRoutedWithin z req reply) same_info
          (subst (λ z. IsRoutedWithin p.info z reply) same_req
            (Passed-IsRoutedWithin p (rw same_info class) g))
