-- ===== src/Admission/Limiter.antt =====
-- `PerBackendLimiter` of src/admission/controller.hpp: a counter that other threads may write between
-- two of its accesses.
pub mod Threads
use kvmux.Prelude.{
  ℕ, zero, suc, ◌+◌, ◌-◌, ◌≤◌, ◌≡◌, ◌⊎◌, Bool, true, false, not, ◌&&◌, Option, none, some, List, [],
  ◌∷◌, ◌++◌, arith, ltb, leb, ◌==◌, if◌then◌else◌, replicate,
}

pub record PerBackendLimiter : Type 0 where
  pub max_in_flight : ℕ
  pub active : ℕ

-- What one round of the loop meets: the value that the atomic holds when `compare_exchange_weak` reads
-- it, and whether the exchange fails although that value is the expected one.
pub record Round : Type 0 where
  pub actual : ℕ
  pub spurious : Bool

pub data Attempt : Type 0 where
  -- the exchange succeeded, over this value
  took : ℕ → Attempt
  refused : Attempt
  -- the rounds are used up
  looping : Attempt

-- The loop of `try_acquire`. `cur` is the value last read.
unfoldable pub acquire_loop : ℕ → ℕ → List Round → Attempt
acquire_loop max cur [] = if ltb cur max then looping else refused
acquire_loop max cur (r ∷ rs) =
    let again = acquire_loop max r.actual rs in
    if ltb cur max then (if r.actual == cur && not r.spurious then took cur else again) else refused

-- `try_acquire` where no other thread comes between.
unfoldable pub try_acquire : PerBackendLimiter → PerBackendLimiter × Bool
try_acquire l =
    if ltb l.active l.max_in_flight then (record l { active = l.active + 1 }, true) else (l, false)

-- `release`, by one who holds a slot.
unfoldable pub release : PerBackendLimiter → PerBackendLimiter
release l = record l { active = l.active - 1 }

unfoldable pub at_capacity : PerBackendLimiter → Bool
at_capacity l = leb l.max_in_flight l.active

-- What the other threads leave in the counter until the exchange is tried: the last round's value, or
-- the first read if there was no round.
abbrev pub last_read : ℕ → List Round → ℕ
last_read cur [] = cur
last_read cur (r ∷ rs) = last_read r.actual rs

abbrev pub IsBounded : ℕ → Attempt → Type 0
IsBounded max (took v) = v + 1 ≤ max
IsBounded max _ = Unit

-- Whatever other threads write, the loop takes a slot only over a value below the cap, so the value
-- that it writes is at most the cap.
pub acquire_loop-IsBounded :
    (max cur : ℕ) (rs : List Round) → IsBounded max (acquire_loop max cur rs)
unfolding acquire_loop
acquire_loop-IsBounded max cur [] = ground arith
acquire_loop-IsBounded max cur (r ∷ rs) = ground (arith, acquire_loop-IsBounded max r.actual rs)

abbrev pub result : PerBackendLimiter → Attempt → Option (PerBackendLimiter × Bool)
result l (took v) = some (record l { active = v + 1 }, true)
result l refused = some (l, false)
result l looping = none

-- With no other thread the loop ends once an exchange does not fail spuriously, and does what
-- `try_acquire` says, also after any number of spurious failures.
pub acquire_loop-try_acquire :
    (l : PerBackendLimiter) (n : ℕ)
    → result l (
        acquire_loop l.max_in_flight l.active (
          replicate n (record { actual = l.active; spurious = true })
          ++ (record { actual = l.active; spurious = false } ∷ [])))
      ≡ some (try_acquire l)
unfolding acquire_loop try_acquire
acquire_loop-try_acquire l zero = ground arith
acquire_loop-try_acquire l (suc n) = ground (arith, acquire_loop-try_acquire l n)

-- A slot taken is below the cap until it is released, and release undoes the acquisition; a refusal
-- means that the backend is at capacity and changes nothing.
pub try_acquire-release :
    (l : PerBackendLimiter)
    → (((try_acquire l).1 ≡ true)
        × ((try_acquire l).0.active ≤ l.max_in_flight)
        × (release (try_acquire l).0 ≡ l)
        × (at_capacity l ≡ false))
      ⊎ (((try_acquire l).1 ≡ false) × ((try_acquire l).0 ≡ l) × (at_capacity l ≡ true))
unfolding try_acquire release at_capacity
try_acquire-release l = ground arith
