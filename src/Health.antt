-- ===== src/Health.antt =====
-- internal/router/health.go: one breaker for each provider, made when first asked for. The map holds
-- pointers, so that a call on the breaker it gives is a write to its entry.
pub mod Refinement
use aegis_ai_gateway.Prelude.{ℕ, String, List, [], Bool, Option, none, some, map, lookup, insert}
use aegis_ai_gateway.Circuit.{
  CircuitBreaker, new_circuit_breaker, state_string, get_state, allow, record_success,
  record_failure,
}

pub record HealthTracker : Type 0 where
  pub breakers : List (String × CircuitBreaker)
  pub failure_threshold : ℕ
  pub recovery_probe_interval : ℕ

unfoldable pub new_health_tracker : ℕ → ℕ → HealthTracker
new_health_tracker failure_threshold recovery_probe_interval = record {
  breakers = [];
  failure_threshold = failure_threshold;
  recovery_probe_interval = recovery_probe_interval;
}

-- The write of a breaker's new value through the pointer in the map.
abbrev store : String → CircuitBreaker → HealthTracker → HealthTracker
store provider cb ht = record ht { breakers = insert provider cb ht.breakers }

-- The second look under the write lock finds what the first did: no other caller runs between them
-- in one step, and one that ran before has its entry found by the first look.
unfoldable pub get_breaker : HealthTracker → String → HealthTracker × CircuitBreaker
get_breaker ht provider = elim (lookup provider ht.breakers) [
  | some cb ↦ (ht, cb)
  | none ↦
      let cb = new_circuit_breaker ht.failure_threshold ht.recovery_probe_interval in
      (store provider cb ht, cb)
]

unfoldable pub is_available : ℕ → HealthTracker → String → HealthTracker × Bool
unfolding get_breaker
is_available now ht provider =
    let (ht', cb) = get_breaker ht provider in
    let (cb', ok) = allow now cb in (store provider cb' ht', ok)

unfoldable pub tracker_success : HealthTracker → String → HealthTracker
unfolding get_breaker
tracker_success ht provider =
    let (ht', cb) = get_breaker ht provider in store provider (record_success cb) ht'

unfoldable pub tracker_failure : ℕ → HealthTracker → String → HealthTracker
unfolding get_breaker
tracker_failure now ht provider =
    let (ht', cb) = get_breaker ht provider in store provider (record_failure now cb) ht'

unfoldable pub list_providers : HealthTracker → List String
list_providers ht = map (λ e. e.0) ht.breakers

unfoldable pub tracker_state : ℕ → HealthTracker → String → HealthTracker × String
tracker_state now ht provider = elim (lookup provider ht.breakers) [
  | none ↦ (ht, "unknown")
  | some cb ↦ let (cb', s) = get_state now cb in (store provider cb' ht, state_string s)
]
