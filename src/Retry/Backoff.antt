-- ===== src/Retry/Backoff.antt =====
-- internal/retry/retry.go: how long Execute waits between two attempts, and the monitor of a request's
-- context. `rand` is what rand.Float64 gives.
use aegis_ai_gateway.Prelude.{
  ℕ, ℤ, pos, String, List, [], Bool, false, ◌≡◌, refl, if◌then◌else◌, Bool-cases, inl, inr, Float64,
  FloatSign,
}
use aegis_ai_gateway.Events.{Event, when, cancellation}

-- The durations are in nanoseconds.
pub record Config (F : Type 0) : Type 0 where
  pub max_retries : ℤ
  pub initial_backoff : ℕ
  pub max_backoff : ℕ
  pub backoff_multiplier : F
  pub jitter_fraction : F

module _ (fl : Float64) where
  abbrev zero : fl.F
  zero = fl.of_int (pos 0)

  -- Exponential backoff up to its cap.
  abbrev pub capped : Config fl.F → ℕ → fl.F
  capped cfg attempt =
      let backoff =
        fl.mul (fl.of_int (pos cfg.initial_backoff))
          (fl.pow cfg.backoff_multiplier (fl.of_int (pos attempt))) in
      let most = fl.of_int (pos cfg.max_backoff) in if fl.lt most backoff then most else backoff

  -- Between (1 - jitter) and (1 + jitter) of it.
  abbrev pub jittered : Config fl.F → fl.F → fl.F → fl.F
  jittered cfg rand backoff =
      let jitter = fl.mul cfg.jitter_fraction backoff in
      if fl.lt zero cfg.jitter_fraction
      then fl.add (fl.sub backoff jitter) (fl.mul (fl.mul rand (fl.of_int (pos 2))) jitter)
      else backoff

  unfoldable pub calculate_backoff : Config fl.F → fl.F → ℕ → ℤ
  calculate_backoff cfg rand attempt = fl.to_int (jittered cfg rand (capped cfg attempt))

  -- Before the jitter, no wait is longer than the cap, however many attempts there have been.
  pub capped-le :
      (sign : FloatSign fl) (cfg : Config fl.F) (attempt : ℕ)
      → fl.lt (fl.of_int (pos cfg.max_backoff)) (capped cfg attempt) ≡ false
  capped-le sign cfg attempt =
      elim (Bool-cases (
        fl.lt (fl.of_int (pos cfg.max_backoff)) (
          fl.mul (fl.of_int (pos cfg.initial_backoff))
            (fl.pow cfg.backoff_multiplier (fl.of_int (pos attempt)))))) [
              | inl above ↦ rw above (sign.lt_irrefl _)
              | inr within ↦ rw (within, within) refl
            ]

-- How a watched request ends: its context is cancelled, or the cleanup function is called. Where both
-- have happened, Go picks one.
pub data Ended : Type 0 where
  cancelled cleaned_up : Ended

-- `ContextMonitor.Watch`
unfoldable pub watch_context : Bool → String → Ended → List Event
watch_context metrics provider cancelled = when metrics (cancellation provider "client_disconnect")
watch_context metrics provider cleaned_up = []
