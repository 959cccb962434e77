-- ===== src/Health/Refinement.antt =====
-- The tracker of internal/router/health.go seen as a function that gives each provider its breaker.
use aegis_ai_gateway.Prelude.{
  Option-cases, Bool-cases, inl, inr, ℕ, String, List, [], ◌∷◌, ◌≡◌, refl, ◌∙◌, Option, none, some,
  arith, lookup, lookup-insert, str_eq, eq_iff, if◌then◌else◌,
}
use aegis_ai_gateway.Circuit.{
  CircuitBreaker, new_circuit_breaker, allow, get_state, record_success, record_failure,
}
use aegis_ai_gateway.Circuit.Trace.{
  Call, call_state, call_allow, call_success, call_failure, perform, perform_all,
}
use aegis_ai_gateway.Health.{
  HealthTracker, store, get_breaker, is_available, tracker_success, tracker_failure, tracker_state,
}

abbrev or_new : HealthTracker → Option CircuitBreaker → CircuitBreaker
or_new ht none = new_circuit_breaker ht.failure_threshold ht.recovery_probe_interval
or_new ht (some cb) = cb

-- The breaker that a provider has, or would be given.
abbrev pub view : HealthTracker → String → CircuitBreaker
view ht p = or_new ht (lookup p ht.breakers)

-- The tracker's methods but `ListProviders`, which has no effect.
pub data TrackerCall : Type 0 where
  ask_available told_success told_failure ask_state : TrackerCall

unfoldable pub run_call : ℕ → TrackerCall → String → HealthTracker → HealthTracker
unfolding is_available tracker_success tracker_failure tracker_state
run_call now ask_available p ht = (is_available now ht p).0
run_call now told_success p ht = tracker_success ht p
run_call now told_failure p ht = tracker_failure now ht p
run_call now ask_state p ht = (tracker_state now ht p).0

-- What a method of the tracker calls on the provider's breaker.
abbrev pub breaker_call : TrackerCall → Call
breaker_call ask_available = call_allow
breaker_call told_success = call_success
breaker_call told_failure = call_failure
breaker_call ask_state = call_state

pub is_available-view :
    (now : ℕ) (ht : HealthTracker) (p : String)
    → (is_available now ht p).1 ≡ (allow now (view ht p)).1
unfolding is_available
is_available-view now ht p = ground arith

view-store :
    (p q : String) (cb : CircuitBreaker) (ht : HealthTracker)
    → view (store p cb ht) q ≡ (if str_eq p q then cb else view ht q)
view-store p q cb ht = ground (arith, lookup-insert p q cb ht.breakers)

view-get_breaker : (ht : HealthTracker) (p q : String) → view (get_breaker ht p).0 q ≡ view ht q
unfolding get_breaker
view-get_breaker ht p q = ground (
  arith,
  eq_iff p q,
  lookup-insert p q (new_circuit_breaker ht.failure_threshold ht.recovery_probe_interval)
      ht.breakers,
)

get_breaker_value : (ht : HealthTracker) (p : String) → (get_breaker ht p).1 ≡ view ht p
unfolding get_breaker
get_breaker_value ht p = ground arith

-- The write-back of any change of a provider's breaker.
view-update :
    (f : CircuitBreaker → CircuitBreaker) (p q : String) (ht : HealthTracker)
    → view (store p (f (get_breaker ht p).1) (get_breaker ht p).0) q
      ≡ (if str_eq p q then f (view ht p) else view ht q)
view-update f p q ht =
    view-store p q _ _ ∙ rw (get_breaker_value ht p, view-get_breaker ht p q) refl

pub view-is_available :
    (now : ℕ) (p q : String) (ht : HealthTracker)
    → view (is_available now ht p).0 q
      ≡ (if str_eq p q then (allow now (view ht p)).0 else view ht q)
unfolding is_available
view-is_available now p q ht = view-update (λ cb. (allow now cb).0) p q ht

get_state_new : (ht : HealthTracker) (now : ℕ) → (get_state now (or_new ht none)).0 ≡ or_new ht none
unfolding get_state new_circuit_breaker
get_state_new ht now = refl

view-tracker_state :
    (now : ℕ) (p q : String) (ht : HealthTracker)
    → view (tracker_state now ht p).0 q
      ≡ (if str_eq p q then (get_state now (view ht p)).0 else view ht q)
unfolding tracker_state
view-tracker_state now p q ht = elim (Option-cases (lookup p ht.breakers)) [
  | inl missing ↦
      rw (missing, tracker_state) (ground (arith, eq_iff p q, missing, get_state_new ht now))
  | inr (cb, found) ↦ rw (found, tracker_state) (view-store p q (get_state now cb).0 ht)
]

pub view-run_call :
    (now : ℕ) (c : TrackerCall) (p q : String) (ht : HealthTracker)
    → view (run_call now c p ht) q
      ≡ (if str_eq p q then perform now (breaker_call c) (view ht p) else view ht q)
unfolding run_call perform
view-run_call now ask_available p q ht = view-is_available now p q ht
view-run_call now told_success p q ht = view-update record_success p q ht
view-run_call now told_failure p q ht = view-update (record_failure now) p q ht
view-run_call now ask_state p q ht = view-tracker_state now p q ht

-- Calls on the tracker, each with its time and its provider.
abbrev pub History : Type 0
History = List (ℕ × TrackerCall × String)

unfoldable pub run_calls : History → HealthTracker → HealthTracker
run_calls [] ht = ht
run_calls ((now, c, p) ∷ rest) ht = run_calls rest (run_call now c p ht)

-- The calls that concern one provider, as calls on its breaker.
abbrev pub calls_of : String → History → List (ℕ × Call)
calls_of q [] = []
calls_of q ((now, c, p) ∷ rest) =
    let later = calls_of q rest in if str_eq p q then (now, breaker_call c) ∷ later else later

-- After any calls on the tracker, each provider's breaker is the one that the calls for that
-- provider alone make of the breaker it had (or would have been given).
pub run_calls-view :
    (h : History) (ht : HealthTracker) (q : String)
    → view (run_calls h ht) q ≡ perform_all (calls_of q h) (view ht q)
unfolding run_calls perform_all
run_calls-view [] ht q = refl
run_calls-view ((now, c, p) ∷ rest) ht q =
    run_calls-view rest (run_call now c p ht) q ∙ elim (Bool-cases (str_eq p q)) [
      | inl same ↦ rw (view-run_call now c p q ht, same, (eq_iff p q).0 same)
      | inr other ↦ rw (view-run_call now c p q ht, other)
    ]
