-- ===== src/RateLimit/Breaker.antt =====
-- internal/ratelimit/circuit_breaker.go: the breaker in front of Redis. Methods under the mutex are
-- one step each; `is_available` is one step too, its two lock regions taken together. The ticker's
-- goroutine is the step `health_check`, given what the ping said.
pub mod Laws
use aegis_ai_gateway.Prelude.{
  ℕ, ◌+◌, String, Bool, true, false, ltb, leb, if◌then◌else◌, Option, some, none, Result, ok, err,
}

pub data CircuitState : Type 0 where
  state_closed state_open state_half_open : CircuitState

unfoldable pub state_string : CircuitState → String
state_string state_closed = "closed"
state_string state_open = "open"
state_string state_half_open = "half-open"

-- Times in nanoseconds; the zero time of Go is 0. `consecutive_success` is `consecutiveSucces`.
pub record RedisCircuitBreaker : Type 0 where
  pub state : CircuitState
  pub failures : ℕ
  pub last_failure_time : ℕ
  pub last_success_time : ℕ
  pub consecutive_success : ℕ
  pub failure_threshold : ℕ
  pub success_threshold : ℕ
  pub timeout : ℕ
  pub health_check_interval : ℕ

abbrev pub second : ℕ
second = 1_000_000_000

unfoldable pub new_redis_circuit_breaker : ℕ → ℕ → RedisCircuitBreaker
new_redis_circuit_breaker failure_threshold timeout = record {
  state = state_closed;
  failures = 0;
  last_failure_time = 0;
  last_success_time = 0;
  consecutive_success = 0;
  failure_threshold = if ltb failure_threshold 1 then 3 else failure_threshold;
  success_threshold = 2;
  timeout = if ltb timeout second then 30_000_000_000 else timeout;
  health_check_interval = 5_000_000_000;
}

abbrev available_in : CircuitState → ℕ → RedisCircuitBreaker → RedisCircuitBreaker × Bool
available_in state_closed now cb = (cb, true)
available_in state_open now cb =
    if ltb (cb.last_failure_time + cb.timeout) now
    then (record cb { state = state_half_open }, true)
    else (cb, false)
available_in state_half_open now cb = (cb, true)

unfoldable pub is_available : ℕ → RedisCircuitBreaker → RedisCircuitBreaker × Bool
is_available now cb = available_in cb.state now cb

abbrev settle_success : CircuitState → RedisCircuitBreaker → RedisCircuitBreaker
settle_success state_half_open cb =
    if leb cb.success_threshold cb.consecutive_success
    then record cb { state = state_closed; consecutive_success = 0 }
    else cb
settle_success state_open cb = record cb { state = state_half_open; consecutive_success = 1 }
settle_success state_closed cb = cb

unfoldable pub on_success : ℕ → RedisCircuitBreaker → RedisCircuitBreaker
on_success now cb = settle_success cb.state (record cb {
  last_success_time = now;
  consecutive_success = cb.consecutive_success + 1;
  failures = 0;
})

unfoldable pub on_failure : ℕ → RedisCircuitBreaker → RedisCircuitBreaker
on_failure now cb =
    let cb' = record cb {
      last_failure_time = now;
      failures = cb.failures + 1;
      consecutive_success = 0;
    } in
    if leb cb'.failure_threshold cb'.failures then record cb' { state = state_open } else cb'

-- `err == nil` is `none`.
unfoldable pub record_result {ℓ} :
    {E : Type ℓ} → ℕ → Option E → RedisCircuitBreaker → RedisCircuitBreaker
unfolding on_success on_failure
record_result now none cb = on_success now cb
record_result now (some e) cb = on_failure now cb

-- Any error that the Redis client reports.
pub data RedisError : Type 0 where
  redis_error : RedisError

-- The errors of `Call`: `ErrCircuitOpen`, or the operation's own.
pub data CallError (E : Type 0) : Type 0 where
  circuit_open : CallError E
  operation_error : E → CallError E

abbrev pub wrap : {E : Type 0} → Option E → Option (CallError E)
wrap none = none
wrap (some e) = some (operation_error e)

-- What the operation did, if it ran: its error (`none` for nil), at the time when it was done.
-- `Call` gives the error it returns, `none` for nil.
unfoldable pub call :
    {E : Type 0}
    → ℕ
    → ℕ
    → Option E
    → RedisCircuitBreaker
    → RedisCircuitBreaker × Option (CallError E)
unfolding is_available record_result
call now done outcome cb =
    let (cb', available) = is_available now cb in
    if available then (record_result done outcome cb', wrap outcome) else (cb', some circuit_open)

-- One tick of `healthChecker`; `true` is a ping that succeeded.
abbrev probe : CircuitState → Bool → RedisCircuitBreaker → RedisCircuitBreaker
probe state_open true cb = record cb { state = state_half_open; consecutive_success = 0 }
probe _ _ cb = cb

unfoldable pub health_check : Bool → RedisCircuitBreaker → RedisCircuitBreaker
health_check ping cb = probe cb.state ping cb
