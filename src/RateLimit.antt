-- ===== src/RateLimit.antt =====
-- internal/ratelimit: the breaker in front of Redis, the sliding-window limiter, the daily budget and
-- the middleware that applies them.
pub mod Breaker
pub mod Limiter
pub mod Budget
pub mod Middleware
