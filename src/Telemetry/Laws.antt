-- ===== src/Telemetry/Laws.antt =====
-- That the Prometheus client accepts what internal/telemetry/metrics.go tells it. It
-- panics where a metric is given more or fewer values than it has labels, and where a counter is given a
-- number below zero; a method of another kind of metric is no method of it.
use aegis_ai_gateway.Prelude.{
  ℤ, pos, negsuc, String, [], ◌∷◌, Bool, true, false, ◌≡◌, refl, All, All-append, length,
  if◌then◌else◌, ltb_ℤ, arith, Float64, FloatSign,
}
use aegis_ai_gateway.Events.{
  Event, auth_failure, rate_limit_violation, budget_violation, filter_block, redis_failure,
  rate_limit_hit, filter_action, cancellation, retry_attempt, retry_success, retry_failure,
  streaming_error, streaming_status,
}
use aegis_ai_gateway.Gateway.{
  RequestLabels, Effect, noted, request_recorded, streaming_recorded, usage_recorded,
}
use aegis_ai_gateway.Telemetry.{
  Kind, counter, gauge, histogram, new_metrics, Change, inc, add, observe, set, Update,
  record_request, record_streaming_metrics, record_db_pool_stats, record_validation_failure,
  record_policy_reload, event_updates, effect_updates,
}

module _ (fl : Float64) where
  abbrev pub Suits : Kind → Change fl.F → Type 0
  Suits counter inc = Unit
  Suits counter (add v) = fl.lt v (fl.of_int (pos 0)) ≡ false
  Suits gauge (set v) = Unit
  Suits (histogram bounds) (observe v) = Unit
  Suits _ _ = ⊥

  -- As many values as labels, and a change that suits the kind.
  abbrev pub IsAccepted : Update fl.F → Type 0
  IsAccepted u =
      (length u.label_values ≡ length (new_metrics u.metric).labels)
      × Suits (new_metrics u.metric).kind u.change

  module _ (sign : FloatSign fl) where
    All-if :
        (b : Bool) (u : Update fl.F)
        → (b ≡ true → IsAccepted u)
        → All IsAccepted (if b then u ∷ [] else [])
    All-if true u h = (h refl, tt)
    All-if false u h = tt

    positive : (n : ℤ) → ltb_ℤ (pos 0) n ≡ true → fl.lt (fl.of_int n) (fl.of_int (pos 0)) ≡ false
    positive (pos n) h = sign.count_not_negative n
    positive (negsuc n) h = absurd (ground arith)

    record_request-IsAccepted : (l : RequestLabels fl.F) → All IsAccepted (record_request fl l)
    unfolding record_request new_metrics
    record_request-IsAccepted l =
        let spent =
          All-if (fl.lt (fl.of_int (pos 0)) l.cost_usd) _
            (λ h. (refl, sign.lt_asym (fl.of_int (pos 0)) l.cost_usd h)) in
        let completed =
          All-if (ltb_ℤ (pos 0) l.completion_tokens) _
            (λ h. (refl, positive l.completion_tokens h)) in
        let prompted =
          All-if (ltb_ℤ (pos 0) l.prompt_tokens) _ (λ h. (refl, positive l.prompt_tokens h)) in
        (
          (refl, tt),
          (
            (refl, tt),
            (
              (refl, tt),
              All-append IsAccepted _ _ prompted (All-append IsAccepted _ _ completed spent),
            ),
          ),
        )

    event_updates-IsAccepted : (e : Event) → All IsAccepted (event_updates fl e)
    unfolding event_updates new_metrics
    event_updates-IsAccepted (rate_limit_hit dimension label) = ((refl, tt), tt)
    event_updates-IsAccepted (filter_action filter action) = ((refl, tt), tt)
    event_updates-IsAccepted (cancellation provider stage) = ((refl, tt), tt)
    event_updates-IsAccepted (retry_attempt provider n) = ((refl, tt), tt)
    event_updates-IsAccepted (retry_success provider n) = ((refl, tt), tt)
    event_updates-IsAccepted (retry_failure provider n reason) = ((refl, tt), tt)
    event_updates-IsAccepted (streaming_error provider reason) = ((refl, tt), tt)
    event_updates-IsAccepted (streaming_status provider code) = ((refl, tt), tt)
    event_updates-IsAccepted (auth_failure key reason) = tt
    event_updates-IsAccepted (rate_limit_violation dimension limit) = tt
    event_updates-IsAccepted (budget_violation spent limit) = tt
    event_updates-IsAccepted (filter_block filter_type reason) = tt
    event_updates-IsAccepted (redis_failure operation) = tt

    effect_updates-IsAccepted : (e : Effect fl.F) → All IsAccepted (effect_updates fl e)
    unfolding effect_updates record_streaming_metrics new_metrics
    effect_updates-IsAccepted (noted e) = event_updates-IsAccepted e
    effect_updates-IsAccepted (request_recorded l) = record_request-IsAccepted l
    effect_updates-IsAccepted (streaming_recorded l) = (
      (refl, sign.count_not_negative l.chunk_count),
      ((refl, tt), ((refl, tt), ((refl, tt), tt))),
    )
    effect_updates-IsAccepted (usage_recorded u) = tt

    reload-IsAccepted : (success : Bool) → IsAccepted (record_policy_reload fl success)
    unfolding record_policy_reload new_metrics
    reload-IsAccepted true = (refl, tt)
    reload-IsAccepted false = (refl, tt)

    -- Of every call that the handlers make of the metrics, and of those of the validator, of the
    -- reload of policies and of the watch over the database's connections, the Prometheus client
    -- accepts each update: the values are as many as the labels that the metric was made with, the
    -- change is one of its kind, and no counter is given a number below zero, whatever the request, the
    -- provider's answer and the prices are.
    pub metrics-AreAccepted :
        (e : Effect fl.F) (field : String) (success : Bool) (acquired idle max total : ℤ)
        → All IsAccepted (effect_updates fl e)
          × IsAccepted (record_validation_failure fl field)
          × IsAccepted (record_policy_reload fl success)
          × All IsAccepted (record_db_pool_stats fl acquired idle max total)
    unfolding record_validation_failure record_db_pool_stats new_metrics
    metrics-AreAccepted e field success acquired idle max total = (
      effect_updates-IsAccepted e,
      (refl, tt),
      reload-IsAccepted success,
      ((refl, tt), ((refl, tt), ((refl, tt), ((refl, tt), tt)))),
    )
