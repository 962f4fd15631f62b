-- ===== src/Health/Breaker.antt =====
-- src/health/circuit_breaker.hpp and circuit_breaker.cpp. Each method holds the mutex from its first
-- line to its last, so a method is one step. A time is a number of clock ticks, and the value that
-- `clock::now()` returns is an argument. `now - opened_at_ >= open_window_` is written without the
-- subtraction.
pub mod Runs
pub mod Recovery
pub mod Probes
pub mod Tests
use kvmux.Prelude.{ℕ, ◌+◌, Bool, true, false, leb, if◌then◌else◌, List, [], ◌∷◌}

pub data BreakerState : Type 0 where
  closed open_state half_open : BreakerState

pub record CircuitBreaker : Type 0 where
  pub failure_threshold : ℕ
  pub open_window : ℕ
  pub state : BreakerState
  pub consecutive_failures : ℕ
  pub opened_at : ℕ

-- The constructor: closed, no failures, the epoch as the time of opening.
abbrev pub new : ℕ → ℕ → CircuitBreaker
new failure_threshold open_window = record {
  failure_threshold = failure_threshold;
  open_window = open_window;
  state = closed;
  consecutive_failures = 0;
  opened_at = 0;
}

pub record Decision : Type 0 where
  pub allowed : Bool
  pub is_probe : Bool

abbrev pub decision : Bool → Bool → Decision
decision allowed is_probe = record { allowed = allowed; is_probe = is_probe }

abbrev pub elapsed : CircuitBreaker → ℕ → Bool
elapsed b now = leb (b.opened_at + b.open_window) now

-- The `switch` of `allow_request`, on the state of `b`.
allow_in : BreakerState → CircuitBreaker → ℕ → CircuitBreaker × Decision
allow_in closed b now = (b, decision true false)
allow_in open_state b now =
    if elapsed b now
    then (record b { state = half_open }, decision true true)
    else (b, decision false false)
allow_in half_open b now = (b, decision false false)

unfoldable pub allow_request : CircuitBreaker → ℕ → CircuitBreaker × Decision
unfolding allow_in
allow_request b now = allow_in b.state b now

unfoldable pub on_success : CircuitBreaker → Bool → CircuitBreaker
on_success b is_probe = record b { state = closed; consecutive_failures = 0 }

abbrev pub reopen : CircuitBreaker → ℕ → CircuitBreaker
reopen b now = record b { state = open_state; opened_at = now }

unfoldable pub abort_probe : CircuitBreaker → Bool → ℕ → CircuitBreaker
abort_probe b is_probe now = if is_probe then reopen b now else b

abbrev pub is_open : BreakerState → Bool
is_open open_state = true
is_open _ = false

-- `++consecutive_failures_ >= failure_threshold_`
count_failure : CircuitBreaker → ℕ → CircuitBreaker
count_failure b now =
    let counted = record b { consecutive_failures = b.consecutive_failures + 1 } in
    if leb b.failure_threshold counted.consecutive_failures then reopen counted now else counted

unfoldable pub on_failure : CircuitBreaker → Bool → ℕ → CircuitBreaker
unfolding count_failure
on_failure b is_probe now =
    if is_probe then reopen b now else if is_open b.state then b else count_failure b now

-- `state()`: what an observer sees; the probe slot is not consumed.
unfoldable pub observed_state : CircuitBreaker → ℕ → BreakerState
observed_state b now =
    if is_open b.state then (if elapsed b now then half_open else open_state) else b.state

-- One call of the interface.
pub data Call : Type 0 where
  allow : ℕ → Call
  success : Bool → Call
  failure : Bool → ℕ → Call
  abort : Bool → ℕ → Call

unfoldable pub step : CircuitBreaker → Call → CircuitBreaker
unfolding allow_request on_success on_failure abort_probe
step b (allow now) = (allow_request b now).0
step b (success p) = on_success b p
step b (failure p now) = on_failure b p now
step b (abort p now) = abort_probe b p now

unfoldable pub run : CircuitBreaker → List Call → CircuitBreaker
run b [] = b
run b (c ∷ cs) = run (step b c) cs
