-- ===== src/Server/Gateway/Concurrent.antt =====
-- Requests that walk the backends at the same time (`handle_chat` of src/server/gateway.cpp). A position of a walk has one
-- `co_await`, so it is two steps: up to the request to the upstream, and from its outcome on.
pub mod Slots
pub mod Start
pub mod Tests
pub mod Visits
use kvmux.Prelude.{
  ℕ, ◌≡◌, Bool, true, not, Option, none, some, List, ◌∷◌, if◌then◌else◌, get_elem?, set,
}
use kvmux.Health.Breaker.{CircuitBreaker, Decision, allow_request, abort_probe}
use kvmux.Health.Checker.{HealthState}
use kvmux.Admission.Limiter.{try_acquire, release}
use kvmux.Admission.Gate.{contains, erase_first}
use kvmux.Server.Gateway.{Backend}

-- The breaker has decided and left `breaker`. With the slot acquired, the attempt goes on, as a probe or not.
unfoldable pub take_slot :
    ℕ → Backend → CircuitBreaker × Decision → ℕ → List Backend → List Backend × Option Bool
take_slot i b (breaker, dec) aborted bs =
    if not dec.allowed
    then (set bs i (record b { breaker = breaker }), none)
    else (let (limiter, taken) = try_acquire b.limiter in
        if taken
        then (set bs i (record b { breaker = breaker; limiter = limiter }), some dec.is_probe)
        else (set bs i (record b { breaker = abort_probe breaker dec.is_probe aborted }), none))

-- One position, at backend `i`, up to the upstream's request; `none` where the walk goes on without one.
unfoldable pub begin : ℕ → ℕ → ℕ → List Backend → List Backend × Option Bool
unfolding take_slot
begin asked aborted i bs = elim (get_elem? bs i) [
  | none ↦ (bs, none)
  | some b ↦ take_slot i b (allow_request b.breaker asked) aborted bs
]

-- The end of an attempt, which has left `breaker`: the slot goes back.
unfoldable pub finish : ℕ → CircuitBreaker → List Backend → List Backend
finish i breaker bs = elim (get_elem? bs i) [
  | none ↦ bs
  | some b ↦ set bs i (record b { breaker = breaker; limiter = release b.limiter })
]

-- A monitor stores what it has found.
unfoldable pub store_health : ℕ → HealthState → List Backend → List Backend
store_health i h bs = elim (get_elem? bs i) [
  | none ↦ bs
  | some b ↦ set bs i (record b { health = h })
]

-- The backends, and the attempts that run, of all requests, by the backend that each is made at.
pub record World : Type 0 where
  pub backends : List Backend
  pub attempts : List ℕ

abbrev pub began : ℕ → World → List Backend × Option Bool → World
began i w (bs, none) = record { backends = bs; attempts = w.attempts }
began i w (bs, some _) = record { backends = bs; attempts = i ∷ w.attempts }

abbrev pub finished : ℕ → CircuitBreaker → World → World
finished i breaker w = record {
  backends = finish i breaker w.backends;
  attempts = erase_first i w.attempts;
}

-- What may happen next, of any request or monitor.
pub data Step (w v : World) : Type 0 where
  begins : (asked aborted i : ℕ) → v ≡ began i w (begin asked aborted i w.backends) → Step w v
  finishes :
      (i : ℕ) (breaker : CircuitBreaker)
      → contains i w.attempts ≡ true
      → v ≡ finished i breaker w
      → Step w v
  stores :
      (i : ℕ) (h : HealthState)
      → v ≡ record { backends = store_health i h w.backends; attempts = w.attempts }
      → Step w v

pub data Reach (w : World) : World → Type 0 where
  here : Reach w w
  next : {u v : World} → Reach w u → Step u v → Reach w v
