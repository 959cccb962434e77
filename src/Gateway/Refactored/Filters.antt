-- ===== src/Gateway/Refactored/Filters.antt =====
-- The filters of the refactored handler of internal/gateway tell and refuse what those of the other do.
use aegis_ai_gateway.Prelude.{
  ◌++◌, if◌then◌else◌, Bool, ap, ◌∙◌, sym, refl, Option, List, true, ◌≡◌, Float64, ◌∷◌, [], some,
  none, false,
}
use aegis_ai_gateway.Types.{AegisRequest}
use aegis_ai_gateway.Events.{when, filter_action, Event}
use aegis_ai_gateway.Filter.{FilterResult, Filter, run}
use aegis_ai_gateway.Gateway.{Bool, Option, List, true}
use aegis_ai_gateway.Gateway.Parts.{
  filter_with, action_text, is_flag, run_filters, told, flag_events, Handler, Incoming, Formats,
}
use aegis_ai_gateway.Gateway.Refactored.{
  audit_block, run_filter_stage, blocked_error, tell_results, tell_flags, Float64, Step, done,
  failed, boxed,
}
use aegis_ai_gateway.Gateway.Refactored.Stages.{metrics_pointer}

flag_step :
    (b on : Bool) (e : Event) (es : List Event)
    → on ≡ true
    → (if b then e ∷ es else es) ≡ (if b then when on e else []) ++ es
flag_step true true e es u = refl
flag_step true false e es u = cc u
flag_step false on e es u = refl

module _ (fl : Float64) (formats : Formats fl.F) (h : Handler fl.F) (inc : Incoming fl.F) where
  -- What the filters tell, as a step.
  abbrev pub as_step : List Event × Option (FilterResult fl.F) → List Event × Step Unit
  as_step (events, none) = (events, done tt)
  as_step (events, some r) = (events, failed (blocked_error fl formats h inc r))

module _ (fl : Float64) (formats : Formats fl.F) (h : Handler fl.F) (inc : Incoming fl.F)
    (measured : h.on.metrics ≡ true) where
  tell_flags-flag_events :
      (rs : List (FilterResult fl.F))
      → tell_flags fl formats h inc (boxed (some tt)) rs
        ≡ (flag_events fl formats h inc rs, done tt)
  tell_flags-flag_events [] = refl
  tell_flags-flag_events (r ∷ rs) =
      let e = filter_action r.filter_name "flag" in
      ap (λ z. (if is_flag r.action then e ∷ z.0 else z.0, z.1)) (tell_flags-flag_events rs)
      ∙ ap (λ z. (z, done tt))
          (flag_step (is_flag r.action) h.on.metrics e (flag_events fl formats h inc rs) measured)

  tell_results-told :
      (r : List (FilterResult fl.F) × Option (FilterResult fl.F))
      → tell_results fl formats h inc (boxed (some tt)) r
        ≡ as_step fl formats h inc (told fl formats h inc r)
  tell_results-told (results, some r) =
      ap
        (λ z. (
          audit_block fl formats h inc r
              ++ when z (filter_action r.filter_name (action_text r.action)),
          failed (blocked_error fl formats h inc r),
        ))
        (sym measured)
  tell_results-told (results, none) = tell_flags-flag_events results

  run_filter_stage-filter_with :
      (chain : Option (List (Filter fl.F))) (req : AegisRequest fl.F)
      → run_filter_stage fl formats h inc
          (boxed (metrics_pointer fl formats h inc h.on.metrics))
          chain
          req
        ≡ as_step fl formats h inc (filter_with fl formats h inc chain req)
  unfolding run_filter_stage
  run_filter_stage-filter_with none req = refl
  run_filter_stage-filter_with (some filters) req =
      ap
        (λ z.
          run_filter_stage fl formats h inc (boxed (metrics_pointer fl formats h inc z))
            (some filters) req)
        measured
      ∙ tell_results-told (run filters req)

  pub run_filter_stage-run_filters :
      (req : AegisRequest fl.F)
      → run_filter_stage fl formats h inc
          (boxed (metrics_pointer fl formats h inc h.on.metrics))
          h.filter_chain
          req
        ≡ as_step fl formats h inc (run_filters fl formats h inc req)
  unfolding run_filters
  run_filter_stage-run_filters req = run_filter_stage-filter_with h.filter_chain req
