-- ===== src/Health/Breaker/Runs.antt =====
-- Histories of the circuit breaker: its invariant, and the run of failures that opens it.
use kvmux.Prelude.{
  ℕ, suc, zero, ◌+◌, ◌≤◌, ◌<◌, ◌≡◌, ◌≢◌, refl, ◌∙◌, false, arith, List, [], ◌∷◌, map, length,
  get_elem?, some, All,
}
use kvmux.Health.Breaker.{
  closed, open_state, CircuitBreaker, new, Call, allow, success, failure, abort, step, run,
}

-- The two constants stay, and a closed breaker is below its threshold.
pub record Inv (threshold window : ℕ) (b : CircuitBreaker) : Type 0 where
  pub threshold_is : b.failure_threshold ≡ threshold
  pub window_is : b.open_window ≡ window
  pub below : b.state ≡ closed → b.consecutive_failures < threshold

step-Inv : {t w : ℕ} (b : CircuitBreaker) (c : Call) → 0 < t → Inv t w b → Inv t w (step b c)
unfolding step
step-Inv b (allow now) h v = ground arith
step-Inv b (success p) h v = ground arith
step-Inv b (failure p now) h v = ground arith
step-Inv b (abort p now) h v = ground arith

run_keeps : {t w : ℕ} (b : CircuitBreaker) (cs : List Call) → 0 < t → Inv t w b → Inv t w (run b cs)
unfolding run
run_keeps b [] h v = v
run_keeps b (c ∷ cs) h v = run_keeps (step b c) cs h (step-Inv b c h v)

-- After any history of a new breaker with a positive threshold, the two constants are those it was
-- made with, and a closed breaker has counted fewer failures than the threshold.
pub run-new-Inv : (t w : ℕ) (cs : List Call) → 0 < t → Inv t w (run (new t w) cs)
run-new-Inv t w cs h =
    run_keeps (new t w) cs h (record { threshold_is = refl; window_is = refl; below = λ _. h })

-- The failures of ordinary requests, at the given times.
abbrev pub failures : List ℕ → List Call
failures = map (failure false)

step_below :
    (b : CircuitBreaker) (now : ℕ)
    → b.state ≡ closed
    → b.consecutive_failures + 1 < b.failure_threshold
    → step b (failure false now) ≡ record b { consecutive_failures = b.consecutive_failures + 1 }
unfolding step
step_below b now s h = ground arith

step_trips :
    (b : CircuitBreaker) (now : ℕ)
    → b.state ≡ closed
    → b.consecutive_failures + 1 ≡ b.failure_threshold
    → step b (failure false now)
      ≡ record b { state = open_state; consecutive_failures = b.failure_threshold; opened_at = now }
unfolding step
step_trips b now s h = ground arith

step_ignored :
    (b : CircuitBreaker) (now : ℕ) → b.state ≡ open_state → step b (failure false now) ≡ b
unfolding step
step_ignored b now s = ground arith

run_open : (b : CircuitBreaker) (ts : List ℕ) → b.state ≡ open_state → run b (failures ts) ≡ b
unfolding run
run_open b [] s = refl
run_open b (t ∷ ts) s = rw (run, step_ignored b t s) (run_open b ts s)

pub run_below :
    (b : CircuitBreaker) (ts : List ℕ)
    → b.state ≡ closed
    → b.consecutive_failures + length ts < b.failure_threshold
    → run b (failures ts) ≡ record b { consecutive_failures = b.consecutive_failures + length ts }
unfolding run
run_below b [] s h =
    let e : b.consecutive_failures + 0 ≡ b.consecutive_failures = omega arith in rw e
run_below b (t ∷ ts) s h =
    let e : b.consecutive_failures + 1 + length ts ≡ b.consecutive_failures + suc (length ts) =
      omega arith in
    rw (run, step_below b t s (omega arith))
      (run_below (record b { consecutive_failures = b.consecutive_failures + 1 }) ts s (omega arith)
        ∙ rw e)

run_trips :
    (b : CircuitBreaker) (ts : List ℕ) (k now : ℕ)
    → b.state ≡ closed
    → b.consecutive_failures + suc k ≡ b.failure_threshold
    → get_elem? ts k ≡ some now
    → run b (failures ts)
      ≡ record b { state = open_state; consecutive_failures = b.failure_threshold; opened_at = now }
unfolding run
run_trips b [] k now s h g = cc
run_trips b (t ∷ ts) zero now s h g =
    let e : t ≡ now = ground arith in
    rw (run, step_trips b t s (omega arith), e) (run_open _ ts refl)
run_trips b (t ∷ ts) (suc k) now s h g =
    rw (run, step_below b t s (omega arith))
      (run_trips (record b { consecutive_failures = b.consecutive_failures + 1 }) ts k now s
        (omega arith) g)

-- Consecutive failures open a new breaker at its threshold and not before. A shorter run leaves it
-- closed with the run counted; a run that reaches the threshold leaves it open, from the time of
-- the failure that reached it, and the failures after that one change nothing.
pub failures_open :
    (threshold window : ℕ) (ts : List ℕ)
    → (length ts < threshold
        → run (new threshold window) (failures ts)
          ≡ record (new threshold window) { consecutive_failures = length ts })
      × ((k now : ℕ)
          → suc k ≡ threshold
          → get_elem? ts k ≡ some now
          → run (new threshold window) (failures ts) ≡ record (new threshold window) {
            state = open_state;
            consecutive_failures = threshold;
            opened_at = now;
          })
failures_open threshold window ts = (
  λ h.
      run_below (new threshold window) ts refl (omega arith)
      ∙ (let e : 0 + length ts ≡ length ts = omega arith in rw e),
  λ k now e g. run_trips (new threshold window) ts k now refl (omega arith) g,
)

abbrev pub IsSuccess : Call → Type 0
IsSuccess (success p) = Unit
IsSuccess _ = ⊥

step_not_closed :
    (b : CircuitBreaker) (c : Call) → ¬ IsSuccess c → b.state ≢ closed → (step b c).state ≢ closed
unfolding step
step_not_closed b (allow now) n h = ground arith
step_not_closed b (success p) n h = absurd (n tt)
step_not_closed b (failure p now) n h = ground arith
step_not_closed b (abort p now) n h = ground arith

step_counts :
    (b : CircuitBreaker) (c : Call)
    → ¬ IsSuccess c
    → b.consecutive_failures ≤ (step b c).consecutive_failures
unfolding step
step_counts b (allow now) n = ground arith
step_counts b (success p) n = absurd (n tt)
step_counts b (failure p now) n = ground arith
step_counts b (abort p now) n = ground arith

-- Only a success closes a breaker or clears its count: along a history with no success an open or
-- half-open breaker does not become closed, and the count of failures does not fall. So a probe
-- that is aborted neither closes the breaker nor resets the run.
pub closes_by_success :
    (b : CircuitBreaker) (cs : List Call)
    → All (λ c. ¬ IsSuccess c) cs
    → (b.state ≢ closed → (run b cs).state ≢ closed)
      × (b.consecutive_failures ≤ (run b cs).consecutive_failures)
unfolding run
closes_by_success b [] a = (λ h. h, omega arith)
closes_by_success b (c ∷ cs) a =
    let (shut, count) = closes_by_success (step b c) cs a.1 in
    (λ h. shut (step_not_closed b c a.0 h), omega (arith, step_counts b c a.0))
