-- ===== src/Health/Breaker/Tests.antt =====
-- Runs of the circuit breaker on concrete inputs, with a threshold of 3 and a window of 10.
use kvmux.Prelude.{ℕ, ◌+◌, ◌≤◌, ◌<◌, ◌≡◌, refl, true, false, List, [], ◌∷◌, arith, length}
use kvmux.Health.Breaker.{
  open_state, half_open, CircuitBreaker, new, decision, allow_request, allow, success, failure,
  step, run,
}
use kvmux.Health.Breaker.Recovery.{run-trial}
use kvmux.Health.Breaker.Runs.{failures}
use kvmux.Health.Breaker.Probes.{decisions, denied, decisions-one_probe, decisions-half_open}

abbrev opened : CircuitBreaker
opened = record (new 3 10) { state = open_state; consecutive_failures = 3; opened_at = 7 }

abbrev probing : CircuitBreaker
probing = record opened { state = half_open }

run_opens : run (new 3 10) (failures (1 ∷ 4 ∷ 7 ∷ 9 ∷ [])) ≡ opened
unfolding run step
run_opens = refl

decisions-one_probe_example :
    decisions opened (8 ∷ 16 ∷ 17 ∷ 18 ∷ 900 ∷ [])
    ≡ denied ∷ denied ∷ decision true true ∷ denied ∷ denied ∷ []
decisions-one_probe_example =
    decisions-one_probe opened (8 ∷ 16 ∷ []) 17 (18 ∷ 900 ∷ []) refl (omega arith) (omega arith)

decisions-half_open_example : decisions probing (20 ∷ 1_000_000 ∷ []) ≡ denied ∷ denied ∷ []
decisions-half_open_example = decisions-half_open probing (20 ∷ 1_000_000 ∷ []) refl

run-trial_example :
    ((allow_request opened 17).1 ≡ decision true true)
    × ((ts : List ℕ) (now : ℕ)
        → length ts < 3
        → (allow_request (run opened (allow 17 ∷ success true ∷ failures ts)) now).1
          ≡ decision true false)
    × ((failed now : ℕ)
        → (now < failed + 10
            → (allow_request (run opened (allow 17 ∷ failure true failed ∷ [])) now).1
              ≡ decision false false)
          × (failed + 10 ≤ now
              → (allow_request (run opened (allow 17 ∷ failure true failed ∷ [])) now).1
                ≡ decision true true))
run-trial_example = run-trial opened 17 refl (omega arith)
