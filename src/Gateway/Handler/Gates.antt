-- ===== src/Gateway/Handler/Gates.antt =====
-- What stands between a client and a provider in internal/gateway/handler.go, and what a request that
-- does not pass is told.
use aegis_ai_gateway.Prelude.{
  ap, eq_iff, ◌∙◌, str_eq, Bool-cases, arith, sym, inr, inl, Option-cases, ◌==◌, refl, All, length,
  true, false, String, ◌≢◌, List, ◌≡◌, Result, Option, Float64, Bool, ◌∷◌, [], ok, err, some, none,
}
use aegis_ai_gateway.Types.{AegisRequest, AuthInfo}
use aegis_ai_gateway.Validation.{Limits}
use aegis_ai_gateway.Validation.Spec.{IsValid}
use aegis_ai_gateway.Validation.Laws.{validate_iff}
use aegis_ai_gateway.Filter.{Filter, FilterResult, run, is_block}
use aegis_ai_gateway.Filter.Chain.{IsClear, run-IsClear_iff}
use aegis_ai_gateway.Router.{RouteError}
use aegis_ai_gateway.Provider.{ProviderAdapter}
use aegis_ai_gateway.Gateway.{
  Event, true, String, List, false, Option, Bool, State, Reply, refused, answered, streamed,
  crashed,
}
use aegis_ai_gateway.Gateway.Handler.{
  authenticated_as, filtered, route_request, serve_body, checked, str_eq, ValidationError, length,
  Result, Float64, serve_route, find_route, chat_completions,
}
use aegis_ai_gateway.Gateway.Parts.{
  filter_with, check_with, policy_with, Handler, Body, unreadable, invalid_json, decoded, Incoming,
  Formats, enrich, check_request, run_filters, run_policy, errors_message, told,
}

abbrev pub is_served : {F : Type 0} → Reply F → Bool
is_served (refused e) = false
is_served (answered resp) = true
is_served (streamed writes) = true
is_served crashed = false

module _ {F : Type 0} where
  -- No enabled filter blocks.
  abbrev pub AllClear : Option (List (Filter F)) → AegisRequest F → Type 0
  AllClear none req = Unit
  AllClear (some filters) req = All (IsClear req) filters

  abbrev pub Permitted : Option (AegisRequest F → FilterResult F) → AegisRequest F → Type 0
  Permitted none req = Unit
  Permitted (some scan) req = is_block (scan req).action ≡ false

module _ (fl : Float64) where
  -- Within the validator's limits, or with a model and a message where there is no validator.
  abbrev pub Accepted : Option (Limits fl.F) → AegisRequest fl.F → Type 0
  Accepted none req = (req.model ≢ "") × (req.messages ≢ [])
  Accepted (some limits) req = IsValid fl limits req

  module _ (formats : Formats fl.F) (h : Handler fl.F) (inc : Incoming fl.F) where
    -- All that a request has passed before it is sent to an adapter.
    pub record Passed (s : State fl.F) : Type 0 where
      pub info : AuthInfo
      pub req : AegisRequest fl.F
      pub adapter : ProviderAdapter fl.F
      pub provider_model : String
      pub known : inc.auth ≡ some info
      pub sent : inc.body ≡ decoded req
      pub accepted : Accepted h.validator (enrich fl formats h inc info req)
      pub clear : AllClear h.filter_chain (enrich fl formats h inc info req)
      pub routed :
          (find_route fl formats h inc (enrich fl formats h inc info req) s).1
          ≡ ok (adapter, provider_model)
      pub permitted :
          Permitted h.policy
            (record (enrich fl formats h inc info req) { provider_type = adapter.name })

    errors_message-none :
        (es : List ValidationError) → errors_message fl formats h inc es ≡ none → es ≡ []
    errors_message-none [] e = refl
    errors_message-none (x ∷ es) e = cc e

    length-zero : {A : Type 0} (xs : List A) → (length xs == 0) ≡ false → xs ≢ []
    length-zero [] e f = cc e
    length-zero (x ∷ xs) e f = cc f

    check_with-Accepted :
        (v : Option (Limits fl.F)) (req : AegisRequest fl.F)
        → check_with fl formats h inc v req ≡ none
        → Accepted v req
    check_with-Accepted none req e = elim (Bool-cases (str_eq req.model "")) [
      | inl empty ↦ absurd (ground arith)
      | inr named ↦
          (λ same. ground (arith, eq_iff req.model ""), length-zero req.messages (ground arith))
    ]
    check_with-Accepted (some limits) req e =
        (validate_iff fl limits req).0 (errors_message-none _ e)

    told-none :
        (r : List (FilterResult fl.F) × Option (FilterResult fl.F))
        → (told fl formats h inc r).1 ≡ r.1
    told-none (results, none) = refl
    told-none (results, some r) = refl

    filter_with-AllClear :
        (chain : Option (List (Filter fl.F))) (req : AegisRequest fl.F)
        → (filter_with fl formats h inc chain req).1 ≡ none
        → AllClear chain req
    filter_with-AllClear none req e = tt
    filter_with-AllClear (some filters) req e =
        (run-IsClear_iff req filters).0 (sym (told-none (run filters req)) ∙ e)

    policy_with-Permitted :
        (policy : Option (AegisRequest fl.F → FilterResult fl.F)) (req : AegisRequest fl.F)
        → policy_with fl formats h inc policy req ≡ none
        → Permitted policy req
    policy_with-Permitted none req e = tt
    policy_with-Permitted (some scan) req e = ground arith

    serve_route-served :
        (info : AuthInfo) (req : AegisRequest fl.F) (s : State fl.F)
        (found : Result RouteError (ProviderAdapter fl.F × String))
        → is_served (serve_route fl formats h inc info req s found).reply ≡ true
        → (x : ProviderAdapter fl.F × String) × (found ≡ ok x)
          × (run_policy fl formats h inc (record req { provider_type = x.0.name }) ≡ none)
    unfolding serve_route
    serve_route-served info req s (err e) g = cc g
    serve_route-served info req s (ok x) g =
        elim (Option-cases
          (run_policy fl formats h inc (record req { provider_type = x.0.name }))) [
            | inl clean ↦ (x, refl, clean)
            | inr (r, bad) ↦ cc g
          ]

    filtered-served :
        (info : AuthInfo) (req : AegisRequest fl.F) (s : State fl.F)
        (r : List Event × Option (FilterResult fl.F))
        → is_served (filtered fl formats h inc info req s r).reply ≡ true
        → (r.1 ≡ none) × (is_served (route_request fl formats h inc info req s).reply ≡ true)
    filtered-served info req s (events, some r) g = cc g
    filtered-served info req s (events, none) g = (refl, g)

    checked-served :
        (info : AuthInfo) (req : AegisRequest fl.F) (s : State fl.F) (message : Option String)
        → is_served (checked fl formats h inc info req s message).reply ≡ true
        → (message ≡ none)
          × ((run_filters fl formats h inc req).1 ≡ none)
          × (is_served (route_request fl formats h inc info req s).reply ≡ true)
    checked-served info req s (some message) g = cc g
    checked-served info req s none g =
        let (clean, rest) = filtered-served info req s (run_filters fl formats h inc req) g in
        (refl, clean, rest)

    serve_body-served :
        (info : AuthInfo) (body : Body fl.F) (s : State fl.F)
        → is_served (serve_body fl formats h inc info body s).reply ≡ true
        → (req : AegisRequest fl.F) × (body ≡ decoded req)
          × (check_request fl formats h inc (enrich fl formats h inc info req) ≡ none)
          × ((run_filters fl formats h inc (enrich fl formats h inc info req)).1 ≡ none)
          × (is_served
                (route_request fl formats h inc info (enrich fl formats h inc info req) s).reply
              ≡ true)
    unfolding serve_body
    serve_body-served info unreadable s g = cc g
    serve_body-served info (invalid_json e) s g = cc g
    serve_body-served info (decoded req) s g =
        let (valid, clean, rest) = checked-served info (enrich fl formats h inc info req) s _ g in
        (req, refl, valid, clean, rest)

    -- A completion, or a stream, goes only to a client with an identity, whose request as it stands
    -- after the identity's fields are written over it is accepted, whom no enabled filter blocks, whose
    -- model has a route for the identity's classification, and whom the policy permits.
    pub chat_completions-Passed :
        (s : State fl.F) → is_served (chat_completions fl formats h inc s).reply ≡ true → Passed s
    unfolding chat_completions check_request run_filters run_policy route_request
    chat_completions-Passed s g = elim (Option-cases inc.auth) [
      | inl none_known ↦ cc g
      | inr (info, known) ↦
          let (req, sent, ok_check, ok_filters, ok_route) =
            serve_body-served info inc.body s
              (ap (λ z. is_served (authenticated_as fl formats h inc z s).reply) (sym known) ∙ g) in
          let (x, found, clean) =
            serve_route-served info (enrich fl formats h inc info req) _ _ ok_route in
          record {
            info = info;
            req = req;
            adapter = x.0;
            provider_model = x.1;
            known = known;
            sent = sent;
            accepted = check_with-Accepted h.validator _ ok_check;
            clear = filter_with-AllClear h.filter_chain _ ok_filters;
            routed = found;
            permitted = policy_with-Permitted h.policy _ clean;
          }
    ]
