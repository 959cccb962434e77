-- ===== src/Circuit/Laws.antt =====
-- What the breaker of internal/router/circuit.go guarantees over every sequence of calls.
use native.Mathlib.Nat.{zero-add, add-zero, suc-add, add-suc}
use aegis_ai_gateway.Prelude.{
  ℕ, suc, ◌+◌, ◌≤◌, ◌<◌, ◌≡◌, ◌≢◌, ◌↔◌, refl, Bool, true, false, List, [], ◌∷◌, map, All, arith,
  ◌∙◌, leb, if◌then◌else◌,
}
use aegis_ai_gateway.Circuit.{
  CircuitBreaker, state_closed, state_open, state_half_open, new_circuit_breaker, allow,
  record_success, record_failure,
}
use aegis_ai_gateway.Circuit.Trace.{
  Call, call_success, call_failure, call_reset, perform, perform_all,
}

-- The failure counter and the threshold agree with the state.
pub record IsCoherent (cb : CircuitBreaker) : Type 0 where
  pub positive : 0 < cb.failure_threshold
  pub closed_below : cb.state ≡ state_closed → cb.failures < cb.failure_threshold
  pub tripped_above : cb.state ≢ state_closed → cb.failure_threshold ≤ cb.failures

pub perform-IsCoherent :
    (now : ℕ) (c : Call) (cb : CircuitBreaker) → IsCoherent cb → IsCoherent (perform now c cb)
unfolding perform
perform-IsCoherent now c cb h = ground arith

perform_all-IsCoherent :
    (cs : List (ℕ × Call)) (cb : CircuitBreaker) → IsCoherent cb → IsCoherent (perform_all cs cb)
unfolding perform_all
perform_all-IsCoherent [] cb h = h
perform_all-IsCoherent ((now, c) ∷ cs) cb h =
    perform_all-IsCoherent cs (perform now c cb) (perform-IsCoherent now c cb h)

-- Whatever is called on a new breaker with a positive threshold, it stays closed only while the
-- counted failures are below the threshold, and is open or half-open only once they have reached it.
pub circuit-IsCoherent :
    (threshold interval : ℕ) (cs : List (ℕ × Call))
    → 0 < threshold
    → IsCoherent (perform_all cs (new_circuit_breaker threshold interval))
unfolding new_circuit_breaker
circuit-IsCoherent threshold interval cs h =
    perform_all-IsCoherent cs (new_circuit_breaker threshold interval) (ground arith)

-- `Allow` refuses exactly while the breaker is open and its probe interval has not passed.
pub allow-false_iff :
    (now : ℕ) (cb : CircuitBreaker)
    → ((allow now cb).1 ≡ false)
      ↔ ((cb.state ≡ state_open) × (now < cb.opened_at + cb.recovery_probe_interval))
unfolding allow
allow-false_iff now cb = ground arith

-- The calls other than `Reset` at times before `t`.
abbrev pub IsBefore : ℕ → ℕ × Call → Type 0
IsBefore t (now, c) = (now < t) × (c ≢ call_reset)

perform_open :
    (now : ℕ) (c : Call) (cb : CircuitBreaker)
    → cb.state ≡ state_open
    → IsBefore (cb.opened_at + cb.recovery_probe_interval) (now, c)
    → ((perform now c cb).state ≡ state_open)
      × ((perform now c cb).opened_at ≡ cb.opened_at)
      × ((perform now c cb).recovery_probe_interval ≡ cb.recovery_probe_interval)
unfolding perform
perform_open now c cb o h = ground arith

stays_open :
    (cs : List (ℕ × Call)) (opened interval : ℕ) (cb : CircuitBreaker)
    → cb.state ≡ state_open
    → cb.opened_at ≡ opened
    → cb.recovery_probe_interval ≡ interval
    → All (IsBefore (opened + interval)) cs
    → ((perform_all cs cb).state ≡ state_open)
      × ((perform_all cs cb).opened_at ≡ opened)
      × ((perform_all cs cb).recovery_probe_interval ≡ interval)
unfolding perform_all
stays_open [] opened interval cb s o i h = (s, o, i)
stays_open ((now, c) ∷ cs) opened interval cb s o i (b, h) =
    let (s', o', i') = perform_open now c cb s (rw (o, i) b) in
    stays_open cs opened interval (perform now c cb) s' (o' ∙ o) (i' ∙ i) h

-- An open breaker stays open, its opening time unchanged, through any calls but `Reset` that come
-- before its deadline, and then refuses every request before the deadline.
pub perform_all_open :
    (cs : List (ℕ × Call)) (cb : CircuitBreaker) (now : ℕ)
    → cb.state ≡ state_open
    → All (IsBefore (cb.opened_at + cb.recovery_probe_interval)) cs
    → now < cb.opened_at + cb.recovery_probe_interval
    → ((perform_all cs cb).state ≡ state_open)
      × ((perform_all cs cb).opened_at ≡ cb.opened_at)
      × ((allow now (perform_all cs cb)).1 ≡ false)
perform_all_open cs cb now s h b =
    let (s', o, i) = stays_open cs cb.opened_at cb.recovery_probe_interval cb s refl refl h in
    (s', o, (allow-false_iff now (perform_all cs cb)).1 (s', rw (o, i) b))

-- From the deadline on, an open breaker lets a request through as a probe; its success closes the
-- breaker with both counters at 0, and its failure opens it again with the deadline set anew.
pub probe_outcomes :
    (now later : ℕ) (cb : CircuitBreaker)
    → cb.state ≡ state_open
    → cb.opened_at + cb.recovery_probe_interval ≤ now
    → ((allow now cb).1 ≡ true)
      × (record_success (allow now cb).0
          ≡ record cb { state = state_closed; failures = 0; successes = 0 })
      × ((record_failure later (allow now cb).0).state ≡ state_open)
      × ((record_failure later (allow now cb).0).opened_at ≡ later)
unfolding allow record_success record_failure
probe_outcomes now later cb s h = ground arith

-- Requests at the given times, each answered by `Allow`, with no outcome recorded between them.
abbrev pub answers : List ℕ → CircuitBreaker → List Bool
answers [] cb = []
answers (t ∷ ts) cb = (allow t cb).1 ∷ answers ts (allow t cb).0

-- A half-open breaker lets every one of a sequence of requests through while no outcome is recorded,
-- not only one probe.
pub half_open_unlimited :
    (ts : List ℕ) (cb : CircuitBreaker)
    → cb.state ≡ state_half_open
    → answers ts cb ≡ map (λ t. true) ts
unfolding allow
half_open_unlimited [] cb h = refl
half_open_unlimited (t ∷ ts) cb h = ground (arith, half_open_unlimited ts (allow t cb).0)

-- Recorded outcomes, `true` for a success.
abbrev pub outcomes : List (ℕ × Bool) → List (ℕ × Call)
outcomes [] = []
outcomes ((t, good) ∷ rest) = (t, if good then call_success else call_failure) ∷ outcomes rest

abbrev pub count_failures : List (ℕ × Bool) → ℕ
count_failures [] = 0
count_failures ((t, good) ∷ rest) = if good then count_failures rest else suc (count_failures rest)

-- The breaker after `n` failures in all: its state is decided by `n` alone.
record Tally (threshold n : ℕ) (cb : CircuitBreaker) : Type 0 where
  counted : cb.failures ≡ n
  configured : cb.failure_threshold ≡ threshold
  decided : cb.state ≡ (if leb threshold n then state_open else state_closed)

Tally-success :
    {threshold n : ℕ} {cb : CircuitBreaker}
    → Tally threshold n cb
    → Tally threshold n (record_success cb)
unfolding record_success
Tally-success h = ground arith

Tally-failure :
    (t : ℕ) {threshold n : ℕ} {cb : CircuitBreaker}
    → Tally threshold n cb
    → Tally threshold (suc n) (record_failure t cb)
unfolding record_failure
Tally-failure t h = ground arith

Tally-outcomes :
    (rs : List (ℕ × Bool)) {threshold n : ℕ} {cb : CircuitBreaker}
    → Tally threshold n cb
    → Tally threshold (count_failures rs + n) (perform_all (outcomes rs) cb)
unfolding perform_all perform
Tally-outcomes [] h = rw zero-add h
Tally-outcomes ((t, true) ∷ rs) h = Tally-outcomes rs (Tally-success h)
Tally-outcomes ((t, false) ∷ rs) {threshold} {n} h =
    rw (suc-add, ← add-suc) (Tally-outcomes rs (Tally-failure t h))

-- On a new breaker with a positive threshold, any sequence of recorded outcomes leaves it open if
-- the failures among them, consecutive or not, number at least the threshold, and closed otherwise.
pub trips_at_total :
    (threshold interval : ℕ) (rs : List (ℕ × Bool))
    → 0 < threshold
    → (perform_all (outcomes rs) (new_circuit_breaker threshold interval)).state
      ≡ (if leb threshold (count_failures rs) then state_open else state_closed)
unfolding new_circuit_breaker
trips_at_total threshold interval rs h =
    let start : Tally threshold 0 (new_circuit_breaker threshold interval) = ground arith in
    rw add-zero at ((Tally-outcomes rs start).decided)
