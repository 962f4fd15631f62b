-- ===== src/Health/Breaker/Recovery.antt =====
-- How a backend comes back: the trial that an open breaker grants, and its two ends.
use kvmux.Prelude.{ℕ, ◌+◌, ◌≤◌, ◌<◌, ◌≡◌, refl, ap, ◌∙◌, true, false, List, [], ◌∷◌, arith, length}
use kvmux.Health.Breaker.{
  closed, open_state, CircuitBreaker, decision, allow_request, allow, success, failure, step, run,
}
use kvmux.Health.Breaker.Runs.{failures, run_below}

allow_request-closed :
    (b : CircuitBreaker) (now : ℕ)
    → b.state ≡ closed
    → (allow_request b now).1 ≡ decision true false
unfolding allow_request
allow_request-closed b now e = simp e refl

allow_request-open :
    (b : CircuitBreaker) (now : ℕ)
    → b.state ≡ open_state
    → (now < b.opened_at + b.open_window → (allow_request b now).1 ≡ decision false false)
      × (b.opened_at + b.open_window ≤ now → (allow_request b now).1 ≡ decision true true)
unfolding allow_request
allow_request-open b now is_open = (λ early. ground arith, λ late. ground arith)

trial :
    (b : CircuitBreaker) (asked : ℕ)
    → b.state ≡ open_state
    → b.opened_at + b.open_window ≤ asked
    → ((allow_request b asked).1 ≡ decision true true)
      × (step (step b (allow asked)) (success true)
          ≡ record b { state = closed; consecutive_failures = 0 })
      × ((now : ℕ)
          → step (step b (allow asked)) (failure true now)
            ≡ record b { state = open_state; opened_at = now })
unfolding allow_request step
trial b asked is_open over = ground arith

-- Once its window is over, an open breaker lets the next caller through as its probe. If the probe succeeds,
-- the breaker is closed and lets every caller through, also after any run of failures shorter than the
-- threshold. If it fails, the breaker is open for a whole window from that failure on: every caller before
-- its end is denied, and one at or after it is the next probe.
pub run-trial :
    (b : CircuitBreaker) (asked : ℕ)
    → b.state ≡ open_state
    → b.opened_at + b.open_window ≤ asked
    → ((allow_request b asked).1 ≡ decision true true)
      × ((ts : List ℕ) (now : ℕ)
          → length ts < b.failure_threshold
          → (allow_request (run b (allow asked ∷ success true ∷ failures ts)) now).1
            ≡ decision true false)
      × ((failed now : ℕ)
          → (now < failed + b.open_window
              → (allow_request (run b (allow asked ∷ failure true failed ∷ [])) now).1
                ≡ decision false false)
            × (failed + b.open_window ≤ now
                → (allow_request (run b (allow asked ∷ failure true failed ∷ [])) now).1
                  ≡ decision true true))
unfolding run
run-trial b asked is_open over =
    let (probes, closes, opens) = trial b asked is_open over in
    let shut = record b { state = closed; consecutive_failures = 0 } in
    (
      probes,
      λ ts now few.
          ap (λ c. (allow_request c now).1)
            (ap (λ c. run c (failures ts)) closes ∙ run_below shut ts refl (omega (arith, few)))
          ∙ allow_request-closed (record shut { consecutive_failures = 0 + length ts }) now refl,
      λ failed now.
          let again =
            allow_request-open (record b { state = open_state; opened_at = failed }) now refl in
          let reopened = ap (λ c. (allow_request c now).1) (opens failed) in
          (λ early. reopened ∙ again.0 early, λ late. reopened ∙ again.1 late),
    )
