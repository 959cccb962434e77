-- ===== src/Gateway/Handler/Passage.antt =====
-- What becomes of a request that passes every gate of internal/gateway/handler.go.
use aegis_ai_gateway.Prelude.{
  str_eq-false, ◌∙◌, arith, false, ◌==◌, length, ap, refl, ◌≡◌, ◌≢◌, Option, List, Float64, ◌∷◌, [],
  some, none,
}
use aegis_ai_gateway.Gateway.{false, List, Option, State}
use aegis_ai_gateway.Gateway.Handler.{
  apply_policy, filtered, checked, authenticated_as, send_prepared, prefixed, serve_route,
  route_request, length, serve_body, find_route, chat_completions,
}
use aegis_ai_gateway.Gateway.Parts.{
  run_policy, run_filters, errors_message, check_request, told, policy_with, filter_with,
  check_with, flag_events, enrich, Handler, Incoming, Formats,
}
use aegis_ai_gateway.Types.{AegisRequest}
use aegis_ai_gateway.Validation.{Limits}
use aegis_ai_gateway.Filter.{Filter, FilterResult}
use aegis_ai_gateway.Events.{Event}
use aegis_ai_gateway.Validation.Laws.{validate_iff}
use aegis_ai_gateway.Filter.Chain.{scans, run_clear}
use aegis_ai_gateway.Gateway.Handler.Gates.{Accepted, AllClear, Permitted, Passed}

length-not_zero : {A : Type 0} (xs : List A) → xs ≢ [] → (length xs == 0) ≡ false
length-not_zero [] f = absurd (f refl)
length-not_zero (x ∷ xs) f = ground arith

module _ (fl : Float64) (formats : Formats fl.F) (h : Handler fl.F) (inc : Incoming fl.F) where
  Accepted-check_with :
      (v : Option (Limits fl.F)) (req : AegisRequest fl.F)
      → Accepted fl v req
      → check_with fl formats h inc v req ≡ none
  Accepted-check_with none req (named, given) =
      rw (str_eq-false req.model "" named, length-not_zero req.messages given) refl
  Accepted-check_with (some limits) req valid =
      ap (errors_message fl formats h inc) ((validate_iff fl limits req).1 valid)

  told_clear :
      (r : List (FilterResult fl.F) × Option (FilterResult fl.F))
      → r.1 ≡ none
      → told fl formats h inc r ≡ (flag_events fl formats h inc r.0, none)
  told_clear (results, none) e = refl
  told_clear (results, some r) e = cc e

  -- What the chain is told of, where no filter blocks: the flags of the filters.
  abbrev pub flagged : Option (List (Filter fl.F)) → AegisRequest fl.F → List Event
  flagged none req = []
  flagged (some filters) req = flag_events fl formats h inc (scans req filters)

  AllClear-filter_with :
      (chain : Option (List (Filter fl.F))) (req : AegisRequest fl.F)
      → AllClear chain req
      → filter_with fl formats h inc chain req ≡ (flagged chain req, none)
  AllClear-filter_with none req clear = refl
  AllClear-filter_with (some filters) req clear =
      ap (told fl formats h inc) (run_clear req filters clear)

  Permitted-policy_with :
      (policy : Option (AegisRequest fl.F → FilterResult fl.F)) (req : AegisRequest fl.F)
      → Permitted policy req
      → policy_with fl formats h inc policy req ≡ none
  Permitted-policy_with none req p = refl
  Permitted-policy_with (some scan) req p = rw p refl

  module _ (s : State fl.F) (p : Passed fl formats h inc s) where
    -- The request as it goes to the adapter: the identity's, with the provider and its model.
    abbrev pub outgoing : AegisRequest fl.F
    outgoing = record (enrich fl formats h inc p.info p.req) {
      provider_type = p.adapter.name;
      model = p.provider_model;
    }

    abbrev pub routed_state : State fl.F
    routed_state = record s {
      tracker = (find_route fl formats h inc (enrich fl formats h inc p.info p.req) s).0;
    }

    -- A request that passes every gate is sent to the adapter of its route, after the flags of the
    -- filters are told, with the health tracker as routing leaves it.
    pub chat_completions_passed :
        chat_completions fl formats h inc s
        ≡ prefixed fl formats h inc
            (flagged h.filter_chain (enrich fl formats h inc p.info p.req))
            (send_prepared fl formats h inc p.info p.req.model p.adapter outgoing routed_state
              (p.adapter.transform_request outgoing))
    unfolding chat_completions serve_body check_request run_filters run_policy route_request
        serve_route
    chat_completions_passed =
        let req = enrich fl formats h inc p.info p.req in
        let told_flags = flagged h.filter_chain req in
        ap (λ z. authenticated_as fl formats h inc z s) p.known
        ∙ ap (λ z. serve_body fl formats h inc p.info z s) p.sent
        ∙ ap (checked fl formats h inc p.info req s)
            (Accepted-check_with h.validator req p.accepted)
        ∙ ap (filtered fl formats h inc p.info req s)
            (AllClear-filter_with h.filter_chain req p.clear)
        ∙ ap
            (λ z.
              prefixed fl formats h inc told_flags
                (serve_route fl formats h inc p.info req routed_state z))
            p.routed
        ∙ ap
            (λ z. prefixed fl formats h inc told_flags (
              apply_policy fl formats h inc p.info p.adapter p.provider_model
                (record req { provider_type = p.adapter.name }) routed_state z))
            (Permitted-policy_with h.policy _ p.permitted)
