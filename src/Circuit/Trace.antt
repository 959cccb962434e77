-- ===== src/Circuit/Trace.antt =====
-- Sequences of calls on one breaker, each at its time: what the mutex makes of concurrent callers.
use aegis_ai_gateway.Prelude.{ℕ, List, [], ◌∷◌}
use aegis_ai_gateway.Circuit.{
  CircuitBreaker, get_state, allow, record_success, record_failure, reset,
}

-- The exported methods.
pub data Call : Type 0 where
  call_state call_allow call_success call_failure call_reset : Call

unfoldable pub perform : ℕ → Call → CircuitBreaker → CircuitBreaker
unfolding get_state allow record_success record_failure reset
perform now call_state cb = (get_state now cb).0
perform now call_allow cb = (allow now cb).0
perform now call_success cb = record_success cb
perform now call_failure cb = record_failure now cb
perform now call_reset cb = reset cb

unfoldable pub perform_all : List (ℕ × Call) → CircuitBreaker → CircuitBreaker
perform_all [] cb = cb
perform_all ((now, c) ∷ cs) cb = perform_all cs (perform now c cb)
