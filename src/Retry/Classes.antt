-- ===== src/Retry/Classes.antt =====
-- Which results internal/retry/retry.go tries again.
use aegis_ai_gateway.Prelude.{
  [], ◌∷◌, pos, ◌<◌, false, arith, ◌↔◌, some, String, true, ◌⊎◌, ◌≡◌, Bool, ◌||◌, none, ℕ, Option,
}
use aegis_ai_gateway.Http.{HttpResponse}
use aegis_ai_gateway.Retry.{
  ℕ, Option, GoError, World, execute, is_retryable, is_network_error, status_code,
}

-- The statuses that the code lists as retryable.
abbrev pub IsListed : ℕ → Type 0
IsListed s = (s ≡ 408) ⊎ (s ≡ 429) ⊎ (s ≡ 500) ⊎ (s ≡ 502) ⊎ (s ≡ 503) ⊎ (s ≡ 504)

-- A result with no error is tried again exactly if it carries a response of a listed status.
pub is_retryable_response_iff :
    (resp : Option HttpResponse) → (is_retryable none resp ≡ true) ↔ IsListed (status_code resp)
unfolding is_retryable status_code
is_retryable_response_iff none = ground arith
is_retryable_response_iff (some resp) = ground arith

-- An error is never tried again if it comes from a cancelled context or an open circuit; any other is
-- if it is a network error or an exceeded deadline.
pub is_retryable_error :
    (e : GoError) (resp : Option HttpResponse)
    → ((e.is_canceled || e.is_circuit_open) ≡ true → is_retryable (some e) resp ≡ false)
      × ((e.is_canceled || e.is_circuit_open) ≡ false
          → (is_network_error (some e) || e.is_deadline_exceeded) ≡ true
          → is_retryable (some e) resp ≡ true)
unfolding is_retryable
is_retryable_error e resp = ground arith

-- A response below 500 with no error ends the loop at once with that response, also where its status
-- is one of the listed 408 and 429: those are never tried again.
pub listed_client_errors_returned :
    (max_retries : ℕ) (metrics : Bool) (provider : String) (w : World) (resp : HttpResponse)
    → w.call 0 ≡ (some resp, none)
    → w.cancelled_before 0 ≡ false
    → resp.status_code < 500
    → ((execute (pos max_retries) metrics provider w).response ≡ some resp)
      × ((execute (pos max_retries) metrics provider w).error ≡ none)
      × ((execute (pos max_retries) metrics provider w).attempts ≡ 0 ∷ [])
unfolding execute
listed_client_errors_returned max_retries metrics provider w resp h c s = ground arith
