-- ===== src/RateLimit/Limiter/Laws.antt =====
-- `Check` of internal/ratelimit/limiter.go: it fails closed.
use aegis_ai_gateway.RateLimit.Breaker.{redis_error, RedisError}
use aegis_ai_gateway.RateLimit.Breaker.Laws.{call-circuit_open_iff}
use aegis_ai_gateway.Prelude.{
  refl, false, none, ◌⊎◌, ok, ◌+◌, arith, ◌≤◌, ◌↔◌, err, true, ◌≤ℤ◌, ◌≡◌,
}
use aegis_ai_gateway.RateLimit.Breaker.{RedisCircuitBreaker, state_open}
use aegis_ai_gateway.RateLimit.Limiter.{pos, some, ℕ, ℤ, check, ScriptReply, redis_unavailable}

-- With Redis configured, `Check` allows a request only if the breaker lets the call through and the
-- script, reached, answers that it is allowed; it reports Redis as unavailable exactly if the breaker
-- is open before its timeout or the script's call failed, and it then denies with nothing remaining.
pub check_fails_closed :
    (limit : ℤ) (window now done : ℕ) (reply : ScriptReply) (cb : RedisCircuitBreaker)
    → (((check limit window now done reply (some cb)).1.allowed ≡ true) ↔ (
        ¬ ((cb.state ≡ state_open) × (now ≤ cb.last_failure_time + cb.timeout))
        × ((count : ℕ) × (reply ≡ ok (count, true)))))
      × (((check limit window now done reply (some cb)).2 ≡ some redis_unavailable) ↔ (
          ((cb.state ≡ state_open) × (now ≤ cb.last_failure_time + cb.timeout))
          ⊎ (reply ≡ err redis_error)))
      × ((check limit window now done reply (some cb)).2 ≡ some redis_unavailable
          → (check limit window now done reply (some cb)).1.remaining ≡ pos 0)
unfolding check
check_fails_closed limit window now done (err redis_error) cb =
    ground (arith, call-circuit_open_iff now done (some redis_error) cb)
check_fails_closed limit window now done (ok (count, true)) cb = (
  (
    λ h. (ground (arith, call-circuit_open_iff {E = RedisError} now done none cb), (count, refl)),
    λ h. ground (arith, call-circuit_open_iff {E = RedisError} now done none cb),
  ),
  ground (arith, call-circuit_open_iff {E = RedisError} now done none cb),
  ground (arith, call-circuit_open_iff {E = RedisError} now done none cb),
)
check_fails_closed limit window now done (ok (count, false)) cb = (
  (λ h. ground (arith, call-circuit_open_iff {E = RedisError} now done none cb), λ h. cc h.1.1),
  ground (arith, call-circuit_open_iff {E = RedisError} now done none cb),
  ground (arith, call-circuit_open_iff {E = RedisError} now done none cb),
)

-- What remains of the limit is never negative where Redis is configured.
pub remaining_nonneg :
    (limit : ℤ) (window now done : ℕ) (reply : ScriptReply) (cb : RedisCircuitBreaker)
    → pos 0 ≤ℤ (check limit window now done reply (some cb)).1.remaining
unfolding check
remaining_nonneg limit window now done (err redis_error) cb = ground arith
remaining_nonneg limit window now done (ok (count, allowed)) cb = ground arith
