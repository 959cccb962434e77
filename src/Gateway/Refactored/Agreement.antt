-- ===== src/Gateway/Refactored/Agreement.antt =====
-- Where `ChatCompletionsRefactored` of internal/gateway does what `ChatCompletions` does.
use aegis_ai_gateway.Prelude.{
  lookup, ◌∙◌, sym, subst, refl, Result, Option, List, String, true, ◌≡◌, ℤ, Float64, ok, err, some,
  none,
}
use aegis_ai_gateway.Types.{AegisRequest, AuthInfo}
use aegis_ai_gateway.Events.{Event}
use aegis_ai_gateway.Validation.{Limits}
use aegis_ai_gateway.Filter.{FilterResult}
use aegis_ai_gateway.Router.{RouteError}
use aegis_ai_gateway.Router.Laws.{resolve_route-registered}
use aegis_ai_gateway.Cost.{Calculator}
use aegis_ai_gateway.Provider.{HttpRequest, ProviderAdapter}
use aegis_ai_gateway.Gateway.{Option, List, String, true, ℤ, State}
use aegis_ai_gateway.Gateway.Handler.{
  authenticated_as, find_route, route_request, serve_body, filtered, checked, apply_policy,
  send_prepared, serve_route, chat_completions,
}
use aegis_ai_gateway.Gateway.Parts.{
  check_with, enrich, check_request, run_filters, if_blocks, policy_with, run_policy, Handler, Body,
  unreadable, invalid_json, decoded, Incoming, Formats,
}
use aegis_ai_gateway.Gateway.Refactored.{
  validate_request, as_bad_request, validated, parse_and_validate_request, Result, Float64, boxed,
  write_http_error,
}
use aegis_ai_gateway.Gateway.Refactored.Stages.{
  refactored_as, filter_stage, route_stage, after_filters, policy_stage, prepared_stage, permit,
  send_stage, route_to_provider, chat_completions_refactored,
}
use aegis_ai_gateway.Gateway.Refactored.Answers.{Agrees, prefixed-Agrees}
use aegis_ai_gateway.Gateway.Refactored.Calls.{IsPlain, send-Agrees}
use aegis_ai_gateway.Gateway.Refactored.Filters.{as_step, run_filter_stage-run_filters}

module _ (fl : Float64) (formats : Formats fl.F) (h : Handler fl.F) (inc : Incoming fl.F) where
  -- Every adapter that is registered is plain.
  abbrev pub ArePlain : Type 0
  ArePlain =
      (name : String) (adapter : ProviderAdapter fl.F)
      → lookup name h.registry ≡ some adapter
      → IsPlain fl formats h inc adapter

module _ (fl : Float64) (formats : Formats fl.F) (h : Handler fl.F) (inc : Incoming fl.F)
    (retries : ℤ) (retried : h.max_retries ≡ some retries) (measured : h.on.metrics ≡ true) where
  module _ (info : AuthInfo) (c : Calculator fl.F) (s : State fl.F)
      (priced : s.calculator ≡ some c) where
    sent-Agrees :
        (original : String) (adapter : ProviderAdapter fl.F) (base : AegisRequest fl.F)
        (p p' : String) (r : HttpRequest)
        → IsPlain fl formats h inc adapter
        → adapter.transform_request base ≡ ok r
        → Agrees
            (send_prepared fl formats h inc info original adapter
              (record base { provider_type = p })
              s
              (adapter.transform_request (record base { provider_type = p })))
            (send_stage fl formats h inc info original adapter
              (record base { provider_type = p' })
              r
              s)
    sent-Agrees original adapter base p p' r plain e =
        subst
          (λ z.
            Agrees
              (send_prepared fl formats h inc info original adapter
                (record base { provider_type = p }) s z)
              (send_stage fl formats h inc info original adapter
                (record base { provider_type = p' }) r s))
          (sym (plain.ignores base p ∙ e))
          (send-Agrees fl formats h inc info original c adapter plain base p p' s priced retries r
            retried)

    module _ (req : AegisRequest fl.F) (adapter : ProviderAdapter fl.F) (provider_model : String)
        (plain : IsPlain fl formats h inc adapter) (r : HttpRequest)
        (prepared : adapter.transform_request (record req { model = provider_model }) ≡ ok r) where
      permit-Agrees :
          (found : Option (FilterResult fl.F))
          → Agrees
              (apply_policy fl formats h inc info adapter provider_model
                (record req { provider_type = adapter.name })
                s
                found)
              (permit fl formats h inc info req.model adapter
                (record req { provider_type = adapter.name; model = provider_model })
                r
                s
                found)
      unfolding write_http_error
      permit-Agrees (some blocks) = record { reply = refl; effects = refl; calculator = refl }
      permit-Agrees none =
          sent-Agrees req.model adapter (record req { model = provider_model }) adapter.name
            adapter.name r plain prepared

      policy-Agrees :
          (policy : Option (AegisRequest fl.F → FilterResult fl.F))
          → Agrees
              (apply_policy fl formats h inc info adapter provider_model
                (record req { provider_type = adapter.name })
                s
                (policy_with fl formats h inc policy (record req { provider_type = adapter.name })))
              (policy_stage fl formats h inc policy info req.model adapter
                (record req { model = provider_model })
                r
                s)
      policy-Agrees none =
          sent-Agrees req.model adapter (record req { model = provider_model }) adapter.name
            req.provider_type r plain prepared
      policy-Agrees (some scan) =
          permit-Agrees
            (if_blocks fl formats h inc (scan (record req { provider_type = adapter.name })))

    route-Agrees :
        (req : AegisRequest fl.F) (found : Result RouteError (ProviderAdapter fl.F × String))
        → ((x : ProviderAdapter fl.F × String)
            → found ≡ ok x
            → IsPlain fl formats h inc x.0
              × ((r : HttpRequest) × (x.0.transform_request (record req { model = x.1 }) ≡ ok r)))
        → Agrees
            (serve_route fl formats h inc info req s found)
            (route_to_provider fl formats h inc info req s found)
    unfolding serve_route route_to_provider write_http_error run_policy
    route-Agrees req (err e) plain = record { reply = refl; effects = refl; calculator = refl }
    route-Agrees req (ok (adapter, m)) plain =
        let (fits, made) = plain (adapter, m) refl in
        let (r, prepared) = made in
        subst
          (λ z.
            Agrees (serve_route fl formats h inc info req s (ok (adapter, m))) (
              prepared_stage fl formats h inc info req.model adapter (record req { model = m }) s
                z))
          (sym prepared) (policy-Agrees req adapter m fits r prepared h.policy)

  module _ (info : AuthInfo) (c : Calculator fl.F) (s : State fl.F) (priced : s.calculator ≡ some c)
      (plain : ArePlain fl formats h inc) (sent : AegisRequest fl.F)
      (given : inc.body ≡ decoded sent) where
    abbrev req : AegisRequest fl.F
    req = enrich fl formats h inc info sent

    routed-Agrees :
        Agrees (route_request fl formats h inc info req s) (route_stage fl formats h inc info req s)
    unfolding route_request
    routed-Agrees =
        route-Agrees info c (record s { tracker = (find_route fl formats h inc req s).0 }) priced
          req (find_route fl formats h inc req s).1
          (λ x found.
            let (provider, registered) =
              resolve_route-registered inc.clock.routed_at h.registry req.classification h.models
                s.tracker req.model x found in
            let fits = plain provider x.0 registered in (fits, fits.prepares info sent x.1 given))

    filtered-Agrees :
        (r : List Event × Option (FilterResult fl.F))
        → Agrees
            (filtered fl formats h inc info req s r)
            (after_filters fl formats h inc info req s (as_step fl formats h inc r))
    unfolding write_http_error
    filtered-Agrees (es, none) = prefixed-Agrees fl formats h inc es _ _ routed-Agrees
    filtered-Agrees (es, some r) = record { reply = refl; effects = refl; calculator = refl }

    checked-Agrees :
        (message : Option String)
        → Agrees (checked fl formats h inc info req s message) (
            filter_stage fl formats h inc info s
              (validated fl formats h inc req (as_bad_request fl formats h inc message)))
    unfolding write_http_error
    checked-Agrees (some message) = record { reply = refl; effects = refl; calculator = refl }
    checked-Agrees none =
        subst
          (λ z.
            Agrees (checked fl formats h inc info req s none)
              (after_filters fl formats h inc info req s z))
          (sym (run_filter_stage-run_filters fl formats h inc measured req))
          (filtered-Agrees (run_filters fl formats h inc req))

  module _ (info : AuthInfo) (c : Calculator fl.F) (s : State fl.F) (priced : s.calculator ≡ some c)
      (plain : ArePlain fl formats h inc) where
    body-Agrees :
        (limits : Limits fl.F) (body : Body fl.F)
        → h.validator ≡ some limits
        → inc.body ≡ body
        → Agrees (serve_body fl formats h inc info body s) (
            filter_stage fl formats h inc info s
              (parse_and_validate_request fl formats h inc (boxed h.validator) info body))
    unfolding serve_body parse_and_validate_request write_http_error check_request validate_request
    body-Agrees limits unreadable valid given = record {
      reply = refl;
      effects = refl;
      calculator = refl;
    }
    body-Agrees limits (invalid_json e) valid given = record {
      reply = refl;
      effects = refl;
      calculator = refl;
    }
    body-Agrees limits (decoded req) valid given =
        let e = enrich fl formats h inc info req in
        subst
          (λ v. Agrees (checked fl formats h inc info e s (check_with fl formats h inc v e)) (
            filter_stage fl formats h inc info s
              (validated fl formats h inc e (validate_request fl formats h inc (boxed v) e))))
          (sym valid)
          (checked-Agrees info c s priced plain req given
            (check_with fl formats h inc (some limits) e))

as-Agrees :
    (fl : Float64) (formats : Formats fl.F) (h : Handler fl.F) (inc : Incoming fl.F)
    (auth : Option AuthInfo) (retries : ℤ)
    → h.max_retries ≡ some retries
    → h.on.metrics ≡ true
    → (limits : Limits fl.F) → h.validator ≡ some limits
    → (c : Calculator fl.F) (s : State fl.F) → s.calculator ≡ some c
    → ArePlain fl formats h inc
    → Agrees (authenticated_as fl formats h inc auth s) (refactored_as fl formats h inc auth s)
as-Agrees fl formats h inc none retries retried measured limits validated c s priced plain =
    record { reply = refl; effects = refl; calculator = refl }
as-Agrees fl formats h inc (some info) retries retried measured limits validated c s priced plain =
    body-Agrees fl formats h inc retries retried measured info c s priced plain limits inc.body
      validated refl

pub chat_completions_refactored-Agrees :
    (fl : Float64) (formats : Formats fl.F) (h : Handler fl.F) (inc : Incoming fl.F) (retries : ℤ)
    (limits : Limits fl.F) (c : Calculator fl.F) (s : State fl.F)
    → h.max_retries ≡ some retries
    → h.on.metrics ≡ true
    → h.validator ≡ some limits
    → s.calculator ≡ some c
    → ArePlain fl formats h inc
    → Agrees (chat_completions fl formats h inc s) (chat_completions_refactored fl formats h inc s)
unfolding chat_completions chat_completions_refactored
chat_completions_refactored-Agrees fl formats h inc retries limits c s retried measured validated
      priced plain =
    as-Agrees fl formats h inc inc.auth retries retried measured limits validated c s priced plain
