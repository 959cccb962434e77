-- ===== src/Retry/Loop.antt =====
-- How often internal/retry/retry.go calls the function, and what it returns.
use aegis_ai_gateway.Prelude.{
  some, ◌==◌, pos, none, subst, refl, zero, ap, ◌∙◌, inr, inl, Bool-cases, length, ◌⊎◌, arith, ◌+◌,
  ◌<◌, ◌≤◌, ◌∷◌, Option, suc, true, String, false, [], ◌≡◌, Bool, List, ℤ, ℕ,
}
use aegis_ai_gateway.Http.{HttpResponse}
use aegis_ai_gateway.Retry.{
  settle, ℕ, ℤ, GoError, World, Outcome, max_retries_exceeded, execute, execute_from, is_retryable,
  succeeded, rounds_of,
}

-- `from`, `from + 1`, … , `n` numbers in all.
abbrev pub count_up : ℕ → ℕ → List ℕ
count_up zero from = []
count_up (suc n) from = from ∷ count_up n (from + 1)

-- The attempt fails in a way that is tried again.
abbrev pub Fails : World → ℕ → Type 0
Fails w i =
    (succeeded (w.call i).0 (w.call i).1 ≡ false) × (is_retryable (w.call i).1 (w.call i).0 ≡ true)

Fails-at : (w : World) (i j : ℕ) → i ≡ j → Fails w i → Fails w j
Fails-at w i j e h = subst (Fails w) e h

-- The context is never done.
abbrev pub IsPatient : World → Type 0
IsPatient w = (i : ℕ) → (w.cancelled_before i ≡ false) × (w.cancelled_waiting i ≡ false)

module _ (max_retries : ℤ) (metrics : Bool) (provider : String) (w : World) where
  -- An attempt is the last, or it failed and another followed.
  settle_attempts :
      (attempt : ℕ) (rest : Outcome)
      → let o =
          settle max_retries metrics provider w attempt
            (w.call attempt).0
            (w.call attempt).1
            rest in
        (o.attempts ≡ attempt ∷ []) ⊎ (Fails w attempt × (o.attempts ≡ attempt ∷ rest.attempts))
  unfolding settle
  settle_attempts attempt rest = ground arith

  execute_from_attempts :
      (rounds attempt : ℕ) (last : Option GoError)
      → (k : ℕ) × (k ≤ rounds)
        × ((execute_from max_retries metrics provider w rounds attempt last).attempts
            ≡ count_up k attempt)
  unfolding execute_from
  execute_from_attempts zero attempt last = (0, omega arith, refl)
  execute_from_attempts (suc rounds) attempt last = elim (Bool-cases (w.cancelled_before attempt)) [
    | inl done ↦ rw done (0, omega arith, refl)
    | inr live ↦
        let (k, le, same) = execute_from_attempts rounds (attempt + 1) (w.call attempt).1 in
        rw live (elim (settle_attempts attempt _) [
          | inl only ↦ (1, omega arith, only)
          | inr (failed, more) ↦ (suc k, omega arith, more ∙ ap (λ l. attempt ∷ l) same)
        ])
  ]

  retried_failed :
      (rounds attempt i : ℕ) (last : Option GoError)
      → attempt ≤ i
      → suc i
        < attempt
          + length (execute_from max_retries metrics provider w rounds attempt last).attempts
      → Fails w i
  unfolding execute_from
  retried_failed zero attempt i last le lt = absurd (omega arith)
  retried_failed (suc rounds) attempt i last le lt =
      let err = (w.call attempt).1 in
      let rest = execute_from max_retries metrics provider w rounds (attempt + 1) err in
      ground (
        arith,
        settle_attempts attempt rest,
        retried_failed rounds (attempt + 1) i err,
        Fails-at w attempt i,
      )

-- The loop makes the attempts 0, 1, … in this order, at most one more than `max_retries` (none if
-- that is negative), and each that another follows has failed in a way that is tried again.
pub execute_attempts :
    (max_retries : ℤ) (metrics : Bool) (provider : String) (w : World)
    → let o = execute max_retries metrics provider w in
      ((k : ℕ) × (k ≤ rounds_of max_retries) × (o.attempts ≡ count_up k 0))
      × ((i : ℕ) → suc i < length o.attempts → Fails w i)
unfolding execute
execute_attempts max_retries metrics provider w = (
  execute_from_attempts max_retries metrics provider w (rounds_of max_retries) 0 none,
  λ i lt.
      retried_failed max_retries metrics provider w (rounds_of max_retries) 0 i none (omega arith)
        (omega arith),
)

module _ (max_retries : ℕ) (metrics : Bool) (provider : String) (w : World) (p : IsPatient w) where
  abbrev run_from : ℕ → ℕ → Option GoError → Outcome
  run_from rounds attempt last =
      execute_from (pos max_retries) metrics provider w rounds attempt last

  run_from_retry :
      (rounds attempt : ℕ) (last : Option GoError)
      → Fails w attempt
      → attempt < max_retries
      → let rest = run_from rounds (attempt + 1) (w.call attempt).1 in
        ((run_from (suc rounds) attempt last).response ≡ rest.response)
        × ((run_from (suc rounds) attempt last).error ≡ rest.error)
        × ((run_from (suc rounds) attempt last).attempts ≡ attempt ∷ rest.attempts)
  unfolding execute_from
  run_from_retry rounds attempt last f lt = ground (arith, p attempt)

  run_from_here :
      (rounds attempt : ℕ) (last : Option GoError)
      → succeeded (w.call attempt).0 (w.call attempt).1 ≡ true
      → ((run_from (suc rounds) attempt last).response ≡ (w.call attempt).0)
        × ((run_from (suc rounds) attempt last).error ≡ none)
        × ((run_from (suc rounds) attempt last).attempts ≡ attempt ∷ [])
  unfolding execute_from
  run_from_here rounds attempt last s = ground (arith, p attempt)

  run_from_success :
      (t rounds attempt : ℕ) (last : Option GoError)
      → attempt ≤ t
      → t < attempt + rounds
      → t ≤ max_retries
      → ((i : ℕ) → attempt ≤ i → i < t → Fails w i)
      → succeeded (w.call t).0 (w.call t).1 ≡ true
      → ((run_from rounds attempt last).response ≡ (w.call t).0)
        × ((run_from rounds attempt last).error ≡ none)
        × (attempt + length (run_from rounds attempt last).attempts ≡ suc t)
  run_from_success t zero attempt last le lt m f s = absurd (omega arith)
  run_from_success t (suc rounds) attempt last le lt m f s = elim (Bool-cases (attempt == t)) [
    | inl here ↦
        let e : attempt ≡ t = ground arith in
        let done = run_from_here rounds attempt last (rw e s) in
        (done.0 ∙ rw e, done.1, ground (arith, done.2))
    | inr before ↦
        let ih =
          run_from_success t rounds (attempt + 1) (w.call attempt).1 (ground arith) (omega arith) m
            (λ i le' lt'. f i (omega arith) lt') s in
        let step =
          run_from_retry rounds attempt last (f attempt (omega arith) (ground arith))
            (ground arith) in
        (step.0 ∙ ih.0, step.1 ∙ ih.1, ground (arith, step.2, ih.2))
  ]

  run_from_last :
      (rounds : ℕ) (last : Option GoError)
      → Fails w max_retries
      → ((run_from (suc rounds) max_retries last).response ≡ (w.call max_retries).0)
        × ((run_from (suc rounds) max_retries last).error
            ≡ some (max_retries_exceeded (max_retries + 1) (w.call max_retries).1))
        × ((run_from (suc rounds) max_retries last).attempts ≡ max_retries ∷ [])
  unfolding execute_from
  run_from_last rounds last f = ground (arith, p max_retries)

  run_from_exhausted :
      (rounds attempt : ℕ) (last : Option GoError)
      → attempt + rounds ≡ suc max_retries
      → attempt ≤ max_retries
      → ((i : ℕ) → attempt ≤ i → i ≤ max_retries → Fails w i)
      → ((run_from rounds attempt last).response ≡ (w.call max_retries).0)
        × ((run_from rounds attempt last).error
            ≡ some (max_retries_exceeded (max_retries + 1) (w.call max_retries).1))
        × (attempt + length (run_from rounds attempt last).attempts ≡ suc max_retries)
  run_from_exhausted zero attempt last e le f = absurd (omega arith)
  run_from_exhausted (suc rounds) attempt last e le f = elim (Bool-cases (attempt == max_retries)) [
    | inl here ↦
        let same : attempt ≡ max_retries = ground arith in
        let done = run_from_last rounds last (f max_retries le (omega arith)) in
        rw same (done.0, done.1, ground (arith, done.2))
    | inr before ↦
        let ih =
          run_from_exhausted rounds (attempt + 1) (w.call attempt).1 (omega arith) (ground arith)
            (λ i le' lt'. f i (omega arith) lt') in
        let step = run_from_retry rounds attempt last (f attempt (omega arith) le) (ground arith) in
        (step.0 ∙ ih.0, step.1 ∙ ih.1, ground (arith, step.2, ih.2))
  ]

-- Where the context is never done, the first `t` attempts fail in a way that is tried again, and the next
-- one, among the `max_retries + 1`, gives a response without an error whose status is below 500, this
-- response is returned with no error after just `t + 1` calls. This includes a 408 and a 429, which
-- isRetryable and docs/RETRY_AND_RELIABILITY.md list as retried: the code returns them at once.
pub execute_success :
    (max_retries t : ℕ) (metrics : Bool) (provider : String) (w : World) (resp : HttpResponse)
    → IsPatient w
    → t ≤ max_retries
    → ((i : ℕ) → i < t → Fails w i)
    → w.call t ≡ (some resp, none)
    → resp.status_code < 500
    → let o = execute (pos max_retries) metrics provider w in
      (o.response ≡ some resp) × (o.error ≡ none) × (length o.attempts ≡ suc t)
unfolding execute
execute_success max_retries t metrics provider w resp p le f given below =
    let first = ap (λ z. z.0) given in
    let fine : succeeded (w.call t).0 (w.call t).1 ≡ true = rw given (ground (arith, below)) in
    let (r, e, n) =
      run_from_success max_retries metrics provider w p t (suc max_retries) 0 none (omega arith)
        (omega arith) le (λ i _ lt. f i lt) fine in
    (r ∙ first, e, omega arith)

-- Where the context is never done and the `max_retries + 1` attempts all fail retryably, the last
-- response is returned with `ErrMaxRetriesExceeded`, the number of attempts and the last error.
pub execute_exhausted :
    (max_retries : ℕ) (metrics : Bool) (provider : String) (w : World)
    → IsPatient w
    → ((i : ℕ) → i ≤ max_retries → Fails w i)
    → let o = execute (pos max_retries) metrics provider w in
      (o.response ≡ (w.call max_retries).0)
      × (o.error ≡ some (max_retries_exceeded (max_retries + 1) (w.call max_retries).1))
      × (length o.attempts ≡ suc max_retries)
unfolding execute
execute_exhausted max_retries metrics provider w p f =
    let (r, e, n) =
      run_from_exhausted max_retries metrics provider w p (suc max_retries) 0 none (omega arith)
        (omega arith) (λ i _ le. f i le) in
    (r, e, omega arith)
