-- ===== src/Filter.antt =====
-- internal/filter/filter.go: the results of the content filters and the chain that runs them. `F`
-- stands for float64. A filter is what one run of the chain sees of it.
pub mod Chain
pub mod Secrets
pub mod Injection
pub mod Pii
pub mod Policy
use aegis_ai_gateway.Prelude.{
  some, not, if◌then◌else◌, ◌++◌, ◌∷◌, [], false, none, true, Option, Bool, List, ℕ, String,
}
use aegis_ai_gateway.Types.{AegisRequest}

pub data Action : Type 0 where
  pass flag redact block : Action

abbrev pub is_block : Action → Bool
is_block block = true
is_block _ = false

-- The messages, with the parts that are formatted: the empty one, those of the secrets, injection
-- and PII filters, and those of the policy.
pub data FilterMessage (F : Type 0) : Type 0 where
  no_message : FilterMessage F
  secrets_detected : ℕ → List String → FilterMessage F
  injection_detected : F → FilterMessage F
  pii_not_connected pii_unavailable : FilterMessage F
  pii_detected : ℕ → FilterMessage F
  policy_failed policy_denied : String → FilterMessage F

pub record FilterResult (F : Type 0) : Type 0 where
  pub action : Action
  pub filter_name : String
  pub message : FilterMessage F
  pub detections : ℕ
  pub score : F

pub record Filter (F : Type 0) : Type 0 where
  pub name : String
  pub enabled : Bool
  pub scan_request : AegisRequest F → FilterResult F

module _ {F : Type 0} where
  abbrev pub run_from :
      List (FilterResult F)
      → List (Filter F)
      → AegisRequest F
      → List (FilterResult F) × Option (FilterResult F)
  run_from results [] req = (results, none)
  run_from results (f ∷ fs) req =
      let r = f.scan_request req in
      let skipped = run_from results fs req in
      let passed = run_from (results ++ r ∷ []) fs req in
      if not f.enabled
      then skipped
      else if is_block r.action
      then (results ++ r ∷ [], some r)
      else passed

  unfoldable pub run :
      List (Filter F) → AegisRequest F → List (FilterResult F) × Option (FilterResult F)
  run filters req = run_from [] filters req
