-- ===== src/RateLimit/Budget/Laws.antt =====
-- What the budget check of internal/ratelimit/budget.go decides on each reply of Redis.
use aegis_ai_gateway.Prelude.{
  [], none, ◌↔◌, arith, false, pos_part, ◌≤◌, ◌+◌, true, ◌<ℤ◌, ◌∷◌, pos, some, ◌≡◌, Option, List, ℕ,
  ℤ,
}
use native.Mathlib.Nat.{add_assoc, add-zero}
use aegis_ai_gateway.RateLimit.Breaker.{RedisCircuitBreaker, state_open, RedisError}
use aegis_ai_gateway.RateLimit.Breaker.Laws.{call-circuit_open_iff}
use aegis_ai_gateway.RateLimit.Limiter.{redis_unavailable}
use aegis_ai_gateway.RateLimit.Budget.{
  check_daily_spend, GetReply, value, redis_nil, get_failed, record_spend, spent_in, Counter,
}

-- The breaker refuses at the time.
abbrev pub Refuses : ℕ → RedisCircuitBreaker → Type 0
Refuses now cb = (cb.state ≡ state_open) × (now ≤ cb.last_failure_time + cb.timeout)

-- While the breaker refuses, the check denies and reports Redis as unavailable, whatever the spend.
pub budget_refused :
    (limit : ℤ) (now done : ℕ) (reply : GetReply) (cb : RedisCircuitBreaker)
    → Refuses now cb
    → ((check_daily_spend limit now done reply (some cb)).1.allowed ≡ false)
      × ((check_daily_spend limit now done reply (some cb)).2 ≡ some redis_unavailable)
      × ((check_daily_spend limit now done reply (some cb)).0 ≡ some cb)
unfolding check_daily_spend
budget_refused limit now done (value v) cb r =
    ground (arith, call-circuit_open_iff {E = RedisError} now done none cb)
budget_refused limit now done redis_nil cb r =
    ground (arith, call-circuit_open_iff {E = RedisError} now done none cb)
budget_refused limit now done (get_failed e) cb r =
    ground (arith, call-circuit_open_iff now done (some e) cb)

-- Where the breaker does not refuse and Redis answers, a team with a recorded spend is allowed
-- exactly below its limit, and one with none exactly if its limit is positive, with no error.
pub budget_decides :
    (limit spent : ℤ) (now done : ℕ) (cb : RedisCircuitBreaker)
    → ¬ Refuses now cb
    → (((check_daily_spend limit now done (value spent) (some cb)).1.allowed ≡ true)
        ↔ (spent <ℤ limit))
      × (((check_daily_spend limit now done redis_nil (some cb)).1.allowed ≡ true)
          ↔ (pos 0 <ℤ limit))
      × ((check_daily_spend limit now done (value spent) (some cb)).2 ≡ none)
      × ((check_daily_spend limit now done redis_nil (some cb)).2 ≡ none)
unfolding check_daily_spend
budget_decides limit spent now done cb r =
    ground (arith, call-circuit_open_iff {E = RedisError} now done none cb)

-- When Redis fails to answer a call that the breaker let through, the check reports no error and
-- allows every team whose limit is positive, whatever it has spent: it does not fail closed.
pub budget_fails_open :
    (limit : ℤ) (now done : ℕ) (e : RedisError) (cb : RedisCircuitBreaker)
    → ¬ Refuses now cb
    → pos 0 <ℤ limit
    → ((check_daily_spend limit now done (get_failed e) (some cb)).1.allowed ≡ true)
      × ((check_daily_spend limit now done (get_failed e) (some cb)).2 ≡ none)
unfolding check_daily_spend
budget_fails_open limit now done e cb r h =
    ground (arith, call-circuit_open_iff now done (some e) cb)

-- Costs recorded one after another on one day.
unfoldable pub record_all : List ℤ → ℕ → Option Counter → Option Counter
record_all [] end_of_day old = old
record_all (c ∷ cs) end_of_day old = record_all cs end_of_day (record_spend true c end_of_day old)

abbrev pub sum_positive : List ℤ → ℕ
sum_positive [] = 0
sum_positive (c ∷ cs) = pos_part c + sum_positive cs

record_spend-spent :
    (c : ℤ) (end_of_day n : ℕ) (old : Option Counter)
    → spent_in old ≡ pos n
    → spent_in (record_spend true c end_of_day old) ≡ pos (n + pos_part c)
unfolding record_spend
record_spend-spent c end_of_day n none h = ground arith
record_spend-spent c end_of_day n (some old) h = ground arith

-- Recording costs one after another adds up those that are positive, and ignores the others.
pub record_all-sum :
    (cs : List ℤ) (end_of_day n : ℕ) (old : Option Counter)
    → spent_in old ≡ pos n
    → spent_in (record_all cs end_of_day old) ≡ pos (n + sum_positive cs)
unfolding record_all
record_all-sum [] end_of_day n old h = rw (add-zero, h)
record_all-sum (c ∷ cs) end_of_day n old h = rw (← add_assoc) (
    record_all-sum cs end_of_day (n + pos_part c) (record_spend true c end_of_day old)
      (record_spend-spent c end_of_day n old h))
