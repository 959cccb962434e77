-- ===== src/Circuit.antt =====
-- internal/router/circuit.go: the circuit breaker of one provider. Every method holds the mutex, so
-- a method is one step. A time is a number of nanoseconds; a method that reads the clock takes the
-- time, `time.Since(t) >= d` is `t + d ≤ now`.
pub mod Trace
pub mod Laws
use aegis_ai_gateway.Prelude.{ℕ, ◌+◌, String, Bool, true, false, ◌&&◌, leb, if◌then◌else◌}

pub data CircuitState : Type 0 where
  state_closed state_open state_half_open : CircuitState

unfoldable pub state_string : CircuitState → String
state_string state_closed = "closed"
state_string state_open = "open"
state_string state_half_open = "half_open"

pub record CircuitBreaker : Type 0 where
  pub state : CircuitState
  pub failures : ℕ
  pub successes : ℕ
  pub last_failure : ℕ
  pub opened_at : ℕ
  pub failure_threshold : ℕ
  pub recovery_probe_interval : ℕ

unfoldable pub new_circuit_breaker : ℕ → ℕ → CircuitBreaker
new_circuit_breaker failure_threshold recovery_probe_interval = record {
  state = state_closed;
  failures = 0;
  successes = 0;
  last_failure = 0;
  opened_at = 0;
  failure_threshold = failure_threshold;
  recovery_probe_interval = recovery_probe_interval;
}

abbrev pub is_open : CircuitState → Bool
is_open state_open = true
is_open _ = false

-- The state it returns is the field of the breaker that it returns.
unfoldable pub current_state : ℕ → CircuitBreaker → CircuitBreaker
current_state now cb =
    if is_open cb.state && leb (cb.opened_at + cb.recovery_probe_interval) now
    then record cb { state = state_half_open }
    else cb

-- `State`
unfoldable pub get_state : ℕ → CircuitBreaker → CircuitBreaker × CircuitState
unfolding current_state
get_state now cb = let cb' = current_state now cb in (cb', cb'.state)

abbrev allow_state : CircuitState → Bool
allow_state state_closed = true
allow_state state_half_open = true
allow_state state_open = false

unfoldable pub allow : ℕ → CircuitBreaker → CircuitBreaker × Bool
unfolding current_state
allow now cb = let cb' = current_state now cb in (cb', allow_state cb'.state)

abbrev succeed : CircuitState → CircuitBreaker → CircuitBreaker
succeed state_half_open cb = record cb { state = state_closed; failures = 0; successes = 0 }
succeed state_closed cb = record cb { successes = cb.successes + 1 }
succeed state_open cb = cb

unfoldable pub record_success : CircuitBreaker → CircuitBreaker
record_success cb = succeed cb.state cb

abbrev fail : ℕ → CircuitState → CircuitBreaker → CircuitBreaker
fail now state_closed cb =
    if leb cb.failure_threshold cb.failures
    then record cb { state = state_open; opened_at = now }
    else cb
fail now state_half_open cb = record cb { state = state_open; opened_at = now }
fail now state_open cb = cb

unfoldable pub record_failure : ℕ → CircuitBreaker → CircuitBreaker
record_failure now cb =
    fail now cb.state (record cb { failures = cb.failures + 1; last_failure = now })

unfoldable pub reset : CircuitBreaker → CircuitBreaker
reset cb = record cb { state = state_closed; failures = 0; successes = 0 }
