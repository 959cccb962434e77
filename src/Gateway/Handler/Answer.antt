-- ===== src/Gateway/Handler/Answer.antt =====
-- That internal/gateway/handler.go answers: what a request that passes every gate gets from a provider that
-- recovers in time.
use aegis_ai_gateway.Prelude.{
  Float64, ℕ, pos, ◌≤◌, ◌<◌, String, Bool, true, false, if◌then◌else◌, subst, none, some, ok, ◌≡◌,
  refl, sym, ap, ◌∙◌,
}
use aegis_ai_gateway.Types.{AegisRequest, AegisResponse, AuthInfo}
use aegis_ai_gateway.Http.{HttpResponse}
use aegis_ai_gateway.Retry.Loop.{Fails, IsPatient, execute_success}
use aegis_ai_gateway.Provider.{ProviderAdapter, HttpRequest}
use aegis_ai_gateway.Gateway.{State, Outcome, Reply, answered}
use aegis_ai_gateway.Gateway.Parts.{enrich, Handler, Incoming, Formats}
use aegis_ai_gateway.Gateway.Delivery.{is_some, Delivered, world_of, deliver}
use aegis_ai_gateway.Gateway.Handler.{complete, settle_delivery, send_prepared, chat_completions}
use aegis_ai_gateway.Gateway.Handler.Gates.{Passed}
use aegis_ai_gateway.Gateway.Handler.Passage.{outgoing, routed_state, chat_completions_passed}
use aegis_ai_gateway.Gateway.Handler.Origin.{IsOf, price-IsOf, calls}

module _ (fl : Float64) (formats : Formats fl.F) (h : Handler fl.F) (inc : Incoming fl.F) where
  -- A completion under the request's id, of the adapter's response.
  abbrev pub IsAnsweredWith : AegisResponse fl.F → Reply fl.F → Type 0
  IsAnsweredWith given reply =
      (a : AegisResponse fl.F) × (reply ≡ answered a)
      × (a.request_id ≡ inc.request_id)
      × IsOf given a

  otherwise :
      (given : AegisResponse fl.F) (b : Bool) (x y : Outcome fl.F)
      → b ≡ false
      → IsAnsweredWith given y.reply
      → IsAnsweredWith given (if b then x else y).reply
  otherwise given true x y e h = cc e
  otherwise given false x y e h = h

  complete-IsAnsweredWith :
      (info : AuthInfo) (original : String) (req : AegisRequest fl.F) (s : State fl.F)
      (given : AegisResponse fl.F)
      → IsAnsweredWith given (complete fl formats h inc info original req s given).reply
  unfolding complete
  complete-IsAnsweredWith info original req s given =
      let (same, id) =
        price-IsOf fl formats h inc s.calculator (record given { request_id = inc.request_id }) in
      (_, refl, id, same)

  settle-IsAnsweredWith :
      (info : AuthInfo) (original : String) (adapter : ProviderAdapter fl.F)
      (req : AegisRequest fl.F) (s : State fl.F) (d : Delivered) (raw : HttpResponse)
      (given : AegisResponse fl.F)
      → d.failed ≡ false
      → d.response ≡ some raw
      → adapter.transform_response raw ≡ ok given
      → IsAnsweredWith given (settle_delivery fl formats h inc info original adapter req s d).reply
  settle-IsAnsweredWith info original adapter req s d raw given fine there read =
      rw (fine, there, read) (complete-IsAnsweredWith info original req _ given)

  module _ (adapter : ProviderAdapter fl.F) (req : AegisRequest fl.F) (retries t : ℕ)
      (r : HttpRequest) (raw : HttpResponse) where
    -- The provider answers the call `t`, among those that the executor makes, with a status below 500,
    -- after failures that are tried again, and the client stays.
    pub record Recovers : Type 0 where
      pub retried : h.max_retries ≡ some (pos retries)
      pub within : t ≤ retries
      pub patient : IsPatient (world_of fl formats h inc adapter req)
      pub made : adapter.transform_request req ≡ ok r
      pub before : (i : ℕ) → i < t → Fails (world_of fl formats h inc adapter req) i
      pub answers : adapter.send_request t r ≡ (some raw, none)
      pub fine : raw.status_code < 500

    delivered :
        Recovers
        → ((deliver fl formats h inc adapter req r).failed ≡ false)
          × ((deliver fl formats h inc adapter req r).response ≡ some raw)
    unfolding deliver
    delivered c =
        let (response, error, n) =
          execute_success retries t h.on.metrics adapter.name
            (world_of fl formats h inc adapter req) raw c.patient c.within c.before
            (calls fl formats h inc adapter req r c.made t ∙ c.answers) c.fine in
        rw c.retried (ap is_some error, response)

    send_prepared-IsAnsweredWith :
        (info : AuthInfo) (original : String) (s : State fl.F) (given : AegisResponse fl.F)
        → Recovers
        → req.stream ≡ false
        → adapter.transform_response raw ≡ ok given
        → IsAnsweredWith given
            (send_prepared fl formats h inc info original adapter req s (ok r)).reply
    unfolding send_prepared
    send_prepared-IsAnsweredWith info original s given c whole read =
        let (fine, there) = delivered c in
        let d = deliver fl formats h inc adapter req r in
        otherwise given req.stream _ _ whole
          (settle-IsAnsweredWith info original adapter req s d raw given fine there read)

  -- A request that passes every gate and asks for no stream is answered with a completion under its own id
  -- that has the model, the provider, the choices and the usage that the adapter reads from an answer of the
  -- provider, where the adapter makes a request of the client's with the identity and the route written over
  -- it, one of the calls with that request gives this answer with a status below 500 within the retries,
  -- after failures that are tried again, and the client stays.
  pub chat_completions_answered :
      (s : State fl.F) (p : Passed fl formats h inc s) (retries t : ℕ) (r : HttpRequest)
      (raw : HttpResponse) (given : AegisResponse fl.F)
      → p.req.stream ≡ false
      → Recovers p.adapter (outgoing fl formats h inc s p) retries t r raw
      → p.adapter.transform_response raw ≡ ok given
      → IsAnsweredWith given (chat_completions fl formats h inc s).reply
  unfolding enrich
  chat_completions_answered s p retries t r raw given whole c read =
      let sent = outgoing fl formats h inc s p in
      let passed = ap (λ o. o.reply) (chat_completions_passed fl formats h inc s p) in
      let prepared =
        send_prepared-IsAnsweredWith p.adapter sent retries t r raw p.info p.req.model
          (routed_state fl formats h inc s p) given c whole read in
      subst (IsAnsweredWith given)
        (sym (
          passed
          ∙ ap
              (λ z.
                (send_prepared fl formats h inc p.info p.req.model p.adapter sent
                  (routed_state fl formats h inc s p) z).reply)
              c.made))
        prepared
