-- ===== src/RateLimit/Breaker/Laws.antt =====
-- What the breaker of internal/ratelimit/circuit_breaker.go guarantees.
use aegis_ai_gateway.Prelude.{
  ℕ, suc, length, ◌+◌, refl, ◌≤◌, ◌<◌, ◌≡◌, ◌↔◌, Bool, true, false, List, [], ◌∷◌, arith,
  if◌then◌else◌, Option, some, none, leb,
}
use aegis_ai_gateway.RateLimit.Breaker.{
  RedisCircuitBreaker, state_closed, state_open, state_half_open, new_redis_circuit_breaker, call,
  circuit_open, health_check,
}

-- A step: a call whose operation succeeds or fails, or a tick of the health checker.
pub data Step : Type 0 where
  call_step : ℕ → ℕ → Bool → Step
  tick : Bool → Step

abbrev pub outcome_of : Bool → Option (Unit {0})
outcome_of true = none
outcome_of false = some tt

unfoldable pub take_step : Step → RedisCircuitBreaker → RedisCircuitBreaker
unfolding call health_check
take_step (call_step now done good) cb = (call now done (outcome_of good) cb).0
take_step (tick ping) cb = health_check ping cb

unfoldable pub take_steps : List Step → RedisCircuitBreaker → RedisCircuitBreaker
take_steps [] cb = cb
take_steps (s ∷ ss) cb = take_steps ss (take_step s cb)

pub record IsCoherent (cb : RedisCircuitBreaker) : Type 0 where
  pub thresholds : (0 < cb.failure_threshold) × (cb.success_threshold ≡ 2)
  pub closed_below : cb.state ≡ state_closed → cb.failures < cb.failure_threshold
  pub open_above : cb.state ≡ state_open → cb.failure_threshold ≤ cb.failures
  pub open_fresh : cb.state ≡ state_open → cb.consecutive_success ≡ 0
  pub half_open_short : cb.state ≡ state_half_open → cb.consecutive_success < 2

take_step-IsCoherent :
    (s : Step) (cb : RedisCircuitBreaker) → IsCoherent cb → IsCoherent (take_step s cb)
unfolding take_step
take_step-IsCoherent (call_step now done true) cb h = ground arith
take_step-IsCoherent (call_step now done false) cb h = ground arith
take_step-IsCoherent (tick ping) cb h = ground arith

take_steps-IsCoherent :
    (ss : List Step) (cb : RedisCircuitBreaker) → IsCoherent cb → IsCoherent (take_steps ss cb)
unfolding take_steps
take_steps-IsCoherent [] cb h = h
take_steps-IsCoherent (s ∷ ss) cb h =
    take_steps-IsCoherent ss (take_step s cb) (take_step-IsCoherent s cb h)

-- Whatever calls and health checks a new breaker sees, it is closed only with fewer consecutive
-- failures than its threshold, open only with at least that many and no success since, and half-open
-- only with fewer than two successes in a row.
pub redis_breaker-IsCoherent :
    (threshold timeout : ℕ) (ss : List Step)
    → IsCoherent (take_steps ss (new_redis_circuit_breaker threshold timeout))
unfolding new_redis_circuit_breaker
redis_breaker-IsCoherent threshold timeout ss =
    take_steps-IsCoherent ss (new_redis_circuit_breaker threshold timeout) (ground arith)

-- `Call` returns `ErrCircuitOpen` exactly while the breaker is open and its timeout has not passed,
-- and then leaves the breaker as it was: the operation's outcome has no effect on it.
pub call-circuit_open_iff :
    {E : Type 0} (now done : ℕ) (outcome : Option E) (cb : RedisCircuitBreaker)
    → (((call now done outcome cb).1 ≡ some circuit_open)
        ↔ ((cb.state ≡ state_open) × (now ≤ cb.last_failure_time + cb.timeout)))
      × ((call now done outcome cb).1 ≡ some circuit_open → (call now done outcome cb).0 ≡ cb)
unfolding call
call-circuit_open_iff now done outcome cb = ground arith

-- Calls that all fail, each with its time of start and of end.
abbrev pub failing : List (ℕ × ℕ) → List Step
failing [] = []
failing ((now, done) ∷ rest) = call_step now done false ∷ failing rest

fail_closed :
    (now done : ℕ) (cb : RedisCircuitBreaker)
    → cb.state ≡ state_closed
    → ((take_step (call_step now done false) cb).failures ≡ suc cb.failures)
      × ((take_step (call_step now done false) cb).failure_threshold ≡ cb.failure_threshold)
      × ((take_step (call_step now done false) cb).state
          ≡ (if leb cb.failure_threshold (suc cb.failures) then state_open else state_closed))
unfolding take_step
fail_closed now done cb c = ground arith

-- A closed breaker takes failing calls up to its threshold: below it stays closed and counts them.
counts_failures :
    (fs : List (ℕ × ℕ)) (cb : RedisCircuitBreaker)
    → cb.state ≡ state_closed
    → cb.failures + length fs < cb.failure_threshold
    → ((take_steps (failing fs) cb).state ≡ state_closed)
      × ((take_steps (failing fs) cb).failures ≡ cb.failures + length fs)
      × ((take_steps (failing fs) cb).failure_threshold ≡ cb.failure_threshold)
unfolding take_steps
counts_failures [] cb c h = (c, omega arith, refl)
counts_failures ((now, done) ∷ fs) cb c h =
    ground (
      arith,
      fail_closed now done cb c,
      counts_failures fs (take_step (call_step now done false) cb),
    )

-- A closed breaker with no counted failure is still closed after fewer failing calls in a row than
-- its threshold, and open after exactly that many.
pub opens_at_threshold :
    (fs : List (ℕ × ℕ)) (now done : ℕ) (cb : RedisCircuitBreaker)
    → cb.state ≡ state_closed
    → cb.failures ≡ 0
    → suc (length fs) ≡ cb.failure_threshold
    → ((take_steps (failing fs) cb).state ≡ state_closed)
      × ((take_step (call_step now done false) (take_steps (failing fs) cb)).state ≡ state_open)
opens_at_threshold fs now done cb c f n =
    let (c', f', t') = counts_failures fs cb c (omega arith) in
    let (_, _, s') = fail_closed now done (take_steps (failing fs) cb) c' in (c', ground arith)

-- Two calls that succeed in a row close a half-open breaker and clear its failures. A failing call
-- opens it only if the failures counted since the last success reach the threshold.
pub half_open_outcomes :
    (t₁ t₂ t₃ t₄ : ℕ) (cb : RedisCircuitBreaker)
    → IsCoherent cb
    → cb.state ≡ state_half_open
    → (let healed = take_step (call_step t₃ t₄ true) (take_step (call_step t₁ t₂ true) cb) in
        (healed.state ≡ state_closed) × (healed.failures ≡ 0))
      × ((take_step (call_step t₁ t₂ false) cb).state
          ≡ (if leb cb.failure_threshold (suc cb.failures) then state_open else state_half_open))
unfolding take_step
half_open_outcomes t₁ t₂ t₃ t₄ cb h s = ground arith
