-- ===== src/Retry.antt =====
-- internal/retry/retry.go: the retry loop of a provider request. An error is what `errors.Is` and
-- `errors.As` answer of it; the calls, the context and the metrics come from outside.
pub mod Backoff
pub mod Classes
pub mod Given
pub mod Loop
use aegis_ai_gateway.Prelude.{
  ℕ, ℤ, pos, negsuc, zero, suc, ◌+◌, String, List, [], ◌∷◌, ◌++◌, Bool, true, false, ◌&&◌, ◌||◌,
  not, Option, some, none, if◌then◌else◌, leb, ltb, ◌==◌, leb_ℤ,
}
use aegis_ai_gateway.Http.{HttpResponse}
use aegis_ai_gateway.Events.{Event, when, cancellation, retry_success, retry_failure, retry_attempt}

pub record GoError : Type 0 where
  pub is_canceled : Bool
  pub is_circuit_open : Bool
  pub is_deadline_exceeded : Bool
  pub as_net_error : Bool
  pub as_op_error : Bool
  pub is_conn_refused : Bool
  pub is_conn_reset : Bool
  pub is_timed_out : Bool

unfoldable pub is_network_error : Option GoError → Bool
is_network_error none = false
is_network_error (some e) =
    e.as_net_error || e.as_op_error || (e.is_conn_refused || e.is_conn_reset || e.is_timed_out)

-- The two tests of an error that refuse a retry, and the two that grant one.
abbrev pub refuses_retry : Option GoError → Bool
refuses_retry none = false
refuses_retry (some e) = e.is_canceled || e.is_circuit_open

abbrev pub grants_retry : Option GoError → Bool
grants_retry none = false
grants_retry (some e) = is_network_error (some e) || e.is_deadline_exceeded

-- The statuses of the `switch`; the test for 4xx after it answers `false`, as the last line does.
abbrev pub is_retryable_status : Option HttpResponse → Bool
is_retryable_status none = false
is_retryable_status (some resp) =
    let s = resp.status_code in s == 408 || s == 429 || s == 500 || s == 502 || s == 503 || s == 504

unfoldable pub is_retryable : Option GoError → Option HttpResponse → Bool
is_retryable err resp =
    if refuses_retry err then false else if grants_retry err then true else is_retryable_status resp

unfoldable pub status_code : Option HttpResponse → ℕ
status_code none = 0
status_code (some resp) = resp.status_code

-- What the function gives at each attempt, and whether the context is done before an attempt and in
-- the wait after one.
pub record World : Type 0 where
  pub call : ℕ → Option HttpResponse × Option GoError
  pub cancelled_before : ℕ → Bool
  pub cancelled_waiting : ℕ → Bool

pub data RetryError : Type 0 where
  -- `ErrContextCancelled`, before an attempt or during a backoff
  context_cancelled : RetryError
  -- the function's own error
  returned : GoError → RetryError
  -- `ErrMaxRetriesExceeded`, with the number of attempts and the last error
  max_retries_exceeded : ℕ → Option GoError → RetryError

-- What `Execute` returns, the attempts that it made in order, and the metrics that it recorded.
pub record Outcome : Type 0 where
  pub response : Option HttpResponse
  pub error : Option RetryError
  pub attempts : List ℕ
  pub events : List Event

abbrev pub own_error : Option GoError → Option RetryError
own_error none = none
own_error (some e) = some (returned e)

-- `err == nil && resp != nil && resp.StatusCode < 500`
abbrev pub succeeded : Option HttpResponse → Option GoError → Bool
succeeded (some resp) none = ltb resp.status_code 500
succeeded _ _ = false

abbrev after : ℕ → List Event → Outcome → Outcome
after attempt events rest = record rest {
  attempts = attempt ∷ rest.attempts;
  events = events ++ rest.events;
}

-- The rounds of `for attempt := 0; attempt <= MaxRetries; attempt++`.
abbrev pub rounds_of : ℤ → ℕ
rounds_of (pos n) = suc n
rounds_of (negsuc n) = 0

module _ (max_retries : ℤ) (metrics : Bool) (provider : String) (w : World) where
  abbrev ended : ℕ → Option HttpResponse → Option RetryError → List Event → Outcome
  ended attempt resp err events = record {
    response = resp;
    error = err;
    attempts = attempt ∷ [];
    events = events;
  }

  -- One attempt's outcome by its result, with what follows if there is another.
  unfoldable pub settle : ℕ → Option HttpResponse → Option GoError → Outcome → Outcome
  settle attempt resp err rest =
      if succeeded resp err
      then ended attempt resp none
          (when (ltb 0 attempt && metrics) (retry_success provider attempt))
      else if not (is_retryable err resp)
      then ended attempt resp (own_error err)
          (when metrics (retry_failure provider attempt "non_retryable"))
      else if leb_ℤ max_retries (pos attempt)
      then ended attempt resp (some (max_retries_exceeded (attempt + 1) err))
          (when metrics (retry_failure provider attempt "exhausted"))
      else if w.cancelled_waiting attempt
      then ended attempt none (some context_cancelled) (
          when metrics (retry_attempt provider (attempt + 1))
          ++ when metrics (cancellation provider "during_backoff"))
      else after attempt (when metrics (retry_attempt provider (attempt + 1))) rest

  -- The loop with the rounds left, the next attempt and the last error.
  unfoldable pub execute_from : ℕ → ℕ → Option GoError → Outcome
  unfolding settle
  execute_from zero attempt last = record {
    response = none;
    error = some (max_retries_exceeded attempt last);
    attempts = [];
    events = [];
  }
  execute_from (suc rounds) attempt last =
      let (resp, err) = w.call attempt in
      let rest = execute_from rounds (attempt + 1) err in
      if w.cancelled_before attempt
      then record {
        response = none;
        error = some context_cancelled;
        attempts = [];
        events = when metrics (cancellation provider "before_attempt");
      }
      else settle attempt resp err rest

  unfoldable pub execute : Outcome
  unfolding execute_from
  execute = execute_from (rounds_of max_retries) 0 none
