-- ===== src/Server/Gateway.antt =====
-- The backends of src/server/gateway.hpp, and how gateway.cpp picks among them.
pub mod Attempt
pub mod Walk
pub mod Chat
pub mod Laws
pub mod Dispatches
pub mod Failover
pub mod Alive
pub mod Endings
pub mod Timed
pub mod Eligible
pub mod Answered
pub mod Codes
pub mod Served
pub mod Routes
pub mod Policy
pub mod Serve
pub mod Construct
pub mod Gauges
pub mod Hooks
pub mod Record
pub mod Life
pub mod Outbound
pub mod Models
pub mod Chats
pub mod Concurrent
pub mod Tests
use kvmux.Prelude.{
  ℕ, ◌+◌, Bool, true, false, Option, none, some, List, [], ◌∷◌, ◌++◌, if◌then◌else◌, get_elem?,
  Bytes, equal,
}
use kvmux.Health.Breaker.{CircuitBreaker}
use kvmux.Health.Checker.{HealthState, healthy, not_ready, dead}
use kvmux.Admission.Limiter.{PerBackendLimiter}
use kvmux.Routing.{Candidate}

-- `Gateway::Backend`, with the monitor's state in place of the monitor.
pub record Backend : Type 0 where
  pub name : Bytes
  pub models : List Bytes
  pub health : HealthState
  pub breaker : CircuitBreaker
  pub limiter : PerBackendLimiter
  -- the override that tests set
  pub forced_health : Option HealthState

unfoldable pub observed_health : Backend → HealthState
observed_health b = elim b.forced_health [ none ↦ b.health | some h ↦ h ]

unfoldable pub serves : Bytes → List Bytes → Bool
serves model [] = false
serves model (m ∷ ms) = if equal m model then true else serves model ms

-- The loop of `backends_for_model`, from index `i`.
unfoldable pub serving_from : ℕ → Bytes → List Backend → List ℕ
unfolding serves
serving_from i model [] = []
serving_from i model (b ∷ bs) =
    let rest = serving_from (i + 1) model bs in if serves model b.models then i ∷ rest else rest

unfoldable pub backends_for_model : List Backend → Bytes → List ℕ
unfolding serving_from
backends_for_model bs model = serving_from 0 model bs

abbrev pub is_healthy : HealthState → Bool
is_healthy healthy = true
is_healthy _ = false

-- `backends_[idx]`; the indices come from `backends_for_model`, so they are in range.
abbrev pub candidate_of : ℕ → Backend → Candidate
candidate_of i b = record {
  backend_index = i;
  active_requests = b.limiter.active;
  max_in_flight = b.limiter.max_in_flight;
}

-- The loop of `handle_chat` that keeps the HEALTHY among the serving backends.
unfoldable pub candidates_of : List Backend → List ℕ → List Candidate
unfolding observed_health
candidates_of bs [] = []
candidates_of bs (i ∷ is) =
    let rest = candidates_of bs is in
    elim (get_elem? bs i) [
      | none ↦ rest
      | some b ↦ if is_healthy (observed_health b) then candidate_of i b ∷ rest else rest
    ]

-- The model ids of `handle_models`: those of all backends, each once, in the order first seen.
unfoldable pub unseen : List Bytes → List Bytes → List Bytes
unfolding serves
unseen seen [] = seen
unseen seen (m ∷ ms) = unseen (if serves m seen then seen else seen ++ m ∷ []) ms

unfoldable pub list_models : List Bytes → List Backend → List Bytes
unfolding unseen
list_models seen [] = seen
list_models seen (b ∷ bs) = list_models (unseen seen b.models) bs
