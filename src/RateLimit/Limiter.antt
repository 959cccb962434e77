-- ===== src/RateLimit/Limiter.antt =====
-- internal/ratelimit/limiter.go: the sliding-window script that Redis runs, and `Check` around it.
-- A bucket is the sorted set under one key, by member, with the time when the key expires. Times are
-- in microseconds where the script sees them. The text of a new member (Lua's `now .. ':' .. random`)
-- is given with the request.
pub mod Window
pub mod Runs
pub mod Laws
use aegis_ai_gateway.Prelude.{
  ℕ, ◌+◌, ◌*◌, ◌/◌, String, List, [], ◌∷◌, Bool, true, false, leb, if◌then◌else◌, Option, some,
  none, ℤ, pos, negsuc, sub_ℕ, ◌-ℤ◌, leb_ℤ, ltb_ℤ, length, insert, Result, ok, err,
}
use aegis_ai_gateway.RateLimit.Breaker.{
  RedisError, RedisCircuitBreaker, call, CallError, circuit_open, operation_error, second,
}

pub record Bucket : Type 0 where
  pub entries : List (String × ℕ)
  pub expires_at : ℕ

-- `ZREMRANGEBYSCORE key -inf window_start`
unfoldable pub remove_up_to : ℤ → List (String × ℕ) → List (String × ℕ)
remove_up_to start [] = []
remove_up_to start ((member, score) ∷ es) =
    let rest = remove_up_to start es in
    if leb_ℤ (pos score) start then rest else (member, score) ∷ rest

-- The set as Redis shows it: gone from the time when its key expires.
abbrev pub live : ℕ → Bucket → List (String × ℕ)
live now b = if leb b.expires_at now then [] else b.entries

-- The script: the new bucket, the count it returns, and whether it allows the request.
unfoldable pub sliding_window :
    (window_start : ℤ) (now : ℕ) (limit : ℤ) (ttl : ℕ) (member : String)
    → Bucket
    → Bucket × ℕ × Bool
unfolding remove_up_to
sliding_window window_start now limit ttl member b =
    let kept = remove_up_to window_start (live now b) in
    let count = length kept in
    let expires = now + ttl * 1_000_000 in
    if ltb_ℤ (pos count) limit
    then (record { entries = insert member now kept; expires_at = expires }, count + 1, true)
    else (record { entries = kept; expires_at = expires }, count, false)

-- `int64(window.Seconds()) + 1`, for a window in nanoseconds.
abbrev pub ttl_secs : ℕ → ℕ
ttl_secs window = window / second + 1

-- The script with the arguments that `Check` computes, for a window of whole microseconds.
unfoldable pub run_script :
    (limit : ℤ) (window now : ℕ) (member : String) → Bucket → Bucket × ℕ × Bool
unfolding sliding_window
run_script limit window now member b =
    sliding_window (sub_ℕ now window) now limit (ttl_secs (window * 1000)) member b

pub record LimitResult : Type 0 where
  pub allowed : Bool
  pub remaining : ℤ
  pub reset_at : ℕ
  pub retry_after : ℕ

-- `ErrRedisUnavailable`
pub data RedisUnavailable : Type 0 where
  redis_unavailable : RedisUnavailable

-- What one run of the script against Redis gives: the error of the client, or the reply.
abbrev pub ScriptReply : Type 0
ScriptReply = Result RedisError (ℕ × Bool)

abbrev reply_error : ScriptReply → Option RedisError
reply_error (ok reply) = none
reply_error (err e) = some e

abbrev remaining_of : ℤ → ℕ → ℤ
remaining_of limit count =
    let remaining = limit -ℤ pos count in if ltb_ℤ remaining (pos 0) then pos 0 else remaining

-- After the call: `err == ErrCircuitOpen`, then `scriptErr != nil`, then the reply.
abbrev answer :
    Option (CallError RedisError) → ScriptReply → ℕ → ℤ → ℕ → LimitResult × Option RedisUnavailable
answer (some circuit_open) reply now limit window = (
  record { allowed = false; remaining = pos 0; reset_at = now + window; retry_after = 30 * second },
  some redis_unavailable,
)
answer _ (err e) now limit window = (
  record { allowed = false; remaining = pos 0; reset_at = now + window; retry_after = 10 * second },
  some redis_unavailable,
)
answer _ (ok (count, allowed)) now limit window = (
  record {
    allowed = allowed;
    remaining = remaining_of limit count;
    reset_at = now + window;
    retry_after = if allowed then 0 else window / 2;
  },
  none,
)

-- `Check` with its breaker, or with none where Redis is not configured. `reply` is what Redis answers
-- if it is asked, at the time `done`. Times and the window are in nanoseconds.
unfoldable pub check :
    (limit : ℤ) (window now done : ℕ)
    → ScriptReply
    → Option RedisCircuitBreaker
    → Option RedisCircuitBreaker × LimitResult × Option RedisUnavailable
check limit window now done reply none = (
  none,
  record { allowed = true; remaining = limit -ℤ pos 1; reset_at = now + window; retry_after = 0 },
  none,
)
check limit window now done reply (some cb) =
    let (cb', failed) = call now done (reply_error reply) cb in
    let (result, unavailable) = answer failed reply now limit window in
    (some cb', result, unavailable)
