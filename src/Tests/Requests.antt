-- ===== src/Tests/Requests.antt =====
-- The retry loop, the validation of a request, the classifications and the costs at concrete inputs.
use aegis_ai_gateway.Prelude.{
  ap, refl, ◌↔◌, suc, map, ◌+◌, ltb, length, arith, ◌<◌, ◌≤◌, none, some, if◌then◌else◌, [], false,
  Option, ◌≡◌, ◌∷◌, pos, ℕ, whole_numbers, true,
}
use aegis_ai_gateway.Types.{AegisRequest}
use Prim.Native.String.{[], ◌∷◌, String}
use aegis_ai_gateway.Http.{HttpResponse}
use aegis_ai_gateway.Config.{ModelsConfig}
use aegis_ai_gateway.Retry.{
  World, execute, is_retryable, succeeded, rounds_of, max_retries_exceeded,
}
use aegis_ai_gateway.Retry.Loop.{
  count_up, Fails, execute_attempts, execute_success, execute_exhausted,
}
use aegis_ai_gateway.Validation.{default_limits, validate}
use aegis_ai_gateway.Validation.Spec.{IsValid}
use aegis_ai_gateway.Validation.Laws.{validate_iff}
use aegis_ai_gateway.Cost.{configured_price, new_calculator}
use Prim.Native.Char.{code}
use aegis_ai_gateway.Cost.Keys.{colon}
use aegis_ai_gateway.Cost.Laws.{prices, cache_transparent}

abbrev status : ℕ → Option HttpResponse
status code = some (record { status_code = code; body = "" })

-- Every attempt before `t` is answered with 503, and that one and those after it with 200.
abbrev recovers_at : ℕ → World
recovers_at t = record {
  call = λ i. if ltb i t then (status 503, none) else (status 200, none);
  cancelled_before = λ i. false;
  cancelled_waiting = λ i. false;
}

abbrev always : ℕ → World
always code = record {
  call = λ i. (status code, none);
  cancelled_before = λ i. false;
  cancelled_waiting = λ i. false;
}

recovers-Fails : (t i : ℕ) → i < t → Fails (recovers_at t) i
unfolding is_retryable
recovers-Fails t i h = ground arith

always-Fails : (i : ℕ) → Fails (always 503) i
unfolding is_retryable
always-Fails i = ground arith

recovers-succeeds : succeeded ((recovers_at 2).call 2).0 ((recovers_at 2).call 2).1 ≡ true
recovers-succeeds = ground arith

abbrev request : AegisRequest ℕ
request = record {
  request_id = "r1";
  organization_id = "o";
  team_id = "t";
  user_id = "u";
  api_key_id = "k";
  classification = "INTERNAL";
  model = "gpt-4o";
  messages = record { role = "user"; content = "hi"; name = "" } ∷ [];
  temperature = some 1;
  max_tokens = some (pos 100);
  stream = false;
  top_p = none;
  stop = [];
  project = "";
  prefer_provider = "";
  trace_context = "";
  skip_cache = false;
  provider_type = "";
  received_at = 0;
  estimated_tokens = pos 0;
}

-- The provider "a:b" has the model "c", and the provider "a" the model "b:c".
abbrev priced : ℕ → Option (ModelsConfig ℕ)
priced n = some (record {
  models = [];
  pricing = some (
      ("a:b", ("c", record { input = n; output = n }) ∷ [])
      ∷ ("a", ("b:c", record { input = 7; output = 7 }) ∷ [])
      ∷ []);
})

a_is_no_colon : (e : "a" ≡ colon) → ⊥
a_is_no_colon e = omega (arith, ap code e)

execute_attempts_example :
    let o = execute (pos 2) true "openai" (always 503) in
    ((k : ℕ) × (k ≤ rounds_of (pos 2)) × (o.attempts ≡ count_up k 0))
    × ((i : ℕ) → suc i < length o.attempts → Fails (always 503) i)
execute_attempts_example = execute_attempts (pos 2) true "openai" (always 503)

execute_success_example :
    let o = execute (pos 3) true "openai" (recovers_at 2) in
    (o.response ≡ status 200) × (o.error ≡ none) × (length o.attempts ≡ suc 2)
execute_success_example =
    execute_success 3 2 true "openai" (recovers_at 2) (record { status_code = 200; body = "" })
      (λ i. (refl, refl)) (omega arith) (recovers-Fails 2) refl (omega arith)

execute_exhausted_example :
    let o = execute (pos 2) true "openai" (always 503) in
    (o.response ≡ ((always 503).call 2).0)
    × (o.error ≡ some (max_retries_exceeded (2 + 1) ((always 503).call 2).1))
    × (length o.attempts ≡ suc 2)
execute_exhausted_example =
    execute_exhausted 2 true "openai" (always 503) (λ i. (refl, refl)) (λ i h. always-Fails i)

validate_iff_example :
    ((validate whole_numbers (default_limits whole_numbers) request).errors ≡ [])
    ↔ IsValid whole_numbers (default_limits whole_numbers) request
validate_iff_example = validate_iff whole_numbers (default_limits whole_numbers) request

cache_transparent_example :
    prices (priced 5) new_calculator (("a", "b:c") ∷ ("a", "b") ∷ [])
    ≡ map {A = String × String}
        (λ k. configured_price (priced 5) k.0 k.1)
        (("a", "b:c") ∷ ("a", "b") ∷ [])
cache_transparent_example =
    cache_transparent (priced 5) (("a", "b:c") ∷ ("a", "b") ∷ [])
      ((a_is_no_colon, tt), ((a_is_no_colon, tt), tt))
