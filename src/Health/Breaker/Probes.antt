-- ===== src/Health/Breaker/Probes.antt =====
-- Who is let through: the half-open probe, and what an observer is told.
use kvmux.Prelude.{
  ℕ, ◌+◌, ◌≤◌, ◌<◌, ◌≡◌, ◌↔◌, refl, true, false, arith, List, [], ◌∷◌, ◌++◌, length, replicate, All,
  ap,
}
use kvmux.Health.Breaker.{
  closed, open_state, half_open, CircuitBreaker, Decision, decision, allow_request, on_success,
  on_failure, abort_probe, reopen, observed_state,
}

abbrev pub denied : Decision
denied = decision false false

-- What a sequence of callers at the given times is told.
pub decisions : CircuitBreaker → List ℕ → List Decision
decisions b [] = []
decisions b (t ∷ ts) = (allow_request b t).1 ∷ decisions (allow_request b t).0 ts

allow_half_open :
    (b : CircuitBreaker) (now : ℕ) → b.state ≡ half_open → allow_request b now ≡ (b, denied)
unfolding allow_request
allow_half_open b now s = ground arith

allow_early :
    (b : CircuitBreaker) (now : ℕ)
    → b.state ≡ open_state
    → now < b.opened_at + b.open_window
    → allow_request b now ≡ (b, denied)
unfolding allow_request
allow_early b now s h = ground arith

allow_due :
    (b : CircuitBreaker) (now : ℕ)
    → b.state ≡ open_state
    → b.opened_at + b.open_window ≤ now
    → allow_request b now ≡ (record b { state = half_open }, decision true true)
unfolding allow_request
allow_due b now s h = ground arith

-- While a probe is out nobody is let through, however long the callers go on asking.
pub decisions-half_open :
    (b : CircuitBreaker) (ts : List ℕ)
    → b.state ≡ half_open
    → decisions b ts ≡ replicate (length ts) denied
unfolding decisions
decisions-half_open b [] s = refl
decisions-half_open b (t ∷ ts) s =
    rw (allow_half_open b t s) (ap (◌∷◌ denied) (decisions-half_open b ts s))

-- As long as no outcome is reported to it, an open breaker denies every caller before its window is over,
-- lets the first caller after it through as the probe, and denies all who ask after that one, at any times.
pub decisions-one_probe :
    (b : CircuitBreaker) (early : List ℕ) (now : ℕ) (late : List ℕ)
    → b.state ≡ open_state
    → All (λ t. t < b.opened_at + b.open_window) early
    → b.opened_at + b.open_window ≤ now
    → decisions b (early ++ (now ∷ late))
      ≡ replicate (length early) denied ++ (decision true true ∷ replicate (length late) denied)
unfolding decisions
decisions-one_probe b [] now late s a h =
    rw (allow_due b now s h) (ap (◌∷◌ (decision true true)) (decisions-half_open _ late refl))
decisions-one_probe b (t ∷ early) now late s a h =
    rw (allow_early b t s a.0) (ap (◌∷◌ denied) (decisions-one_probe b early now late s a.1 h))

-- `state` tells in advance what `allow_request` does at the same time: a request is let through as a
-- probe exactly when the breaker is open and is observed as half-open, it is let through as an
-- ordinary request exactly when the breaker is observed as closed, and asking never changes what
-- is counted.
pub allow_request-observed_state :
    (b : CircuitBreaker) (now : ℕ)
    → (((allow_request b now).1 ≡ decision true true)
        ↔ ((b.state ≡ open_state) × (observed_state b now ≡ half_open)))
      × (((allow_request b now).1 ≡ decision true false) ↔ (observed_state b now ≡ closed))
      × ((allow_request b now).0.consecutive_failures ≡ b.consecutive_failures)
unfolding allow_request observed_state
allow_request-observed_state b now = ground arith

-- When a half-open probe resolves, success gives a closed breaker with no failures counted, and
-- failure and abort alike give an open one whose window starts anew and whose count is kept.
pub probe_resolves :
    (b : CircuitBreaker) (now : ℕ)
    → (on_success b true ≡ record b { state = closed; consecutive_failures = 0 })
      × (on_failure b true now ≡ abort_probe b true now)
      × (decisions (on_failure b true now) ((now + b.open_window) ∷ []) ≡ decision true true ∷ [])
      × ((t : ℕ)
          → t < now + b.open_window
          → decisions (on_failure b true now) (t ∷ []) ≡ denied ∷ [])
unfolding on_success on_failure abort_probe decisions
probe_resolves b now = (
  refl,
  refl,
  rw (allow_due (reopen b now) (now + b.open_window) refl (omega arith)),
  λ t h. rw (allow_early (reopen b now) t refl h),
)

-- A failure of an ordinary request that arrives late, while the probe is out and the count has
-- reached the threshold less one, opens the breaker again, and after one more window a second probe
-- is let through although the first has not reported.
pub late_failure_second_probe :
    (b : CircuitBreaker) (late : ℕ)
    → b.state ≡ half_open
    → b.failure_threshold ≤ b.consecutive_failures + 1
    → decisions (on_failure b false late) ((late + b.open_window) ∷ []) ≡ decision true true ∷ []
unfolding on_failure decisions allow_request
late_failure_second_probe b late s h = ground arith
