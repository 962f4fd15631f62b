-- ===== src/Admission/Limiter/Threads.antt =====
-- Threads that use one `PerBackendLimiter` of src/admission/controller.hpp at the same time. Each access to the atomic is a step.
use kvmux.Prelude.{
  ℕ, zero, suc, ◌+◌, ◌-◌, ◌≤◌, ◌≡◌, refl, inl, inr, Bool, not, ◌&&◌, some, List, [], ◌∷◌, arith,
  ltb, ◌==◌, if◌then◌else◌, Bool-cases, get_elem?, set,
}
use kvmux.Admission.Limiter.{Round, Attempt, took, refused, acquire_loop}

-- Where a thread stands: not in the limiter, in the loop with the value it read last, or with a slot.
pub data Thread : Type 0 where
  outside : Thread
  trying : ℕ → Thread
  holding : Thread

-- The next access of a thread to the counter, with what it leaves there: the first load, one round of the
-- loop, whose exchange may fail spuriously, or the `fetch_sub` of `release`.
unfoldable pub access : ℕ → Bool → ℕ → Thread → ℕ × Thread
access max spurious active outside = (active, trying active)
access max spurious active (trying cur) =
    if not (ltb cur max)
    then (active, outside)
    else if active == cur && not spurious
    then (active + 1, holding)
    else (active, trying active)
access max spurious active holding = (active - 1, outside)

-- A round of `try_acquire` is such an access.
pub acquire_loop-access :
    (max cur : ℕ) (r : Round) (rs : List Round)
    → acquire_loop max cur (r ∷ rs)
      ≡ elim (access max r.spurious r.actual (trying cur)).1 as (λ t. Attempt) [
        | outside ↦ refused
        | trying read ↦ acquire_loop max read rs
        | holding ↦ took cur
      ]
unfolding acquire_loop access
acquire_loop-access max cur r rs = elim (Bool-cases (ltb cur max)) [
  | inr full ↦ rw full refl
  | inl room ↦ elim (Bool-cases (r.actual == cur && not r.spurious)) [
    | inl fits ↦ rw (room, fits) refl
    | inr lost ↦ rw (room, lost) refl
  ]
]

pub record Shared : Type 0 where
  pub active : ℕ
  pub threads : List Thread

-- A thread makes its next access, at any time.
pub data Step (max : ℕ) (s u : Shared) : Type 0 where
  steps :
      (i : ℕ) (spurious : Bool) (t : Thread)
      → get_elem? s.threads i ≡ some t
      → u ≡ record {
        active = (access max spurious s.active t).0;
        threads = set s.threads i (access max spurious s.active t).1;
      }
      → Step max s u

pub data Reach (max : ℕ) (s : Shared) : Shared → Type 0 where
  here : Reach max s s
  next : {u v : Shared} → Reach max s u → Step max u v → Reach max s v

abbrev pub held : Thread → ℕ
held outside = 0
held (trying cur) = 0
held holding = 1

-- How many threads have a slot.
unfoldable pub count_held : List Thread → ℕ
count_held [] = 0
count_held (t ∷ ts) = held t + count_held ts

count_held-set :
    (ts : List Thread) (i : ℕ) (t u : Thread)
    → get_elem? ts i ≡ some t
    → count_held (set ts i u) + held t ≡ count_held ts + held u
unfolding count_held
count_held-set [] i t u h = cc
count_held-set (x ∷ ts) zero t u h = let e : x ≡ t = cc in rw e (omega arith)
count_held-set (x ∷ ts) (suc i) t u h = omega (arith, count_held-set ts i t u h)

access-held :
    (max : ℕ) (spurious : Bool) (active : ℕ) (t : Thread)
    → held t ≤ active
    → active ≤ max
    → ((access max spurious active t).0 + held t ≡ active + held (access max spurious active t).1)
      × ((access max spurious active t).0 ≤ max)
unfolding access
access-held max spurious active outside h k = (refl, k)
access-held max spurious active (trying cur) h k = ground arith
access-held max spurious active holding h k = (omega (arith, h), omega (arith, k))

held-count_held :
    (ts : List Thread) (i : ℕ) (t : Thread) → get_elem? ts i ≡ some t → held t ≤ count_held ts
unfolding count_held
held-count_held [] i t h = cc
held-count_held (x ∷ ts) zero t h = let e : x ≡ t = cc in rw e (omega arith)
held-count_held (x ∷ ts) (suc i) t h = omega (arith, held-count_held ts i t h)

-- The counter is the number of the threads with a slot, and at most the cap.
abbrev pub IsExact : ℕ → Shared → Type 0
IsExact max s = (s.active ≡ count_held s.threads) × (s.active ≤ max)

Step-IsExact : (max : ℕ) (s u : Shared) → Step max s u → IsExact max s → IsExact max u
Step-IsExact max s u (steps i spurious t there e) (exact, fits) =
    let has = held-count_held s.threads i t there in
    let (moved, within) = access-held max spurious s.active t (omega (arith, exact, has)) fits in
    let counted = count_held-set s.threads i t (access max spurious s.active t).1 there in
    rw e (omega (arith, exact, moved, counted), within)

-- However many threads use a limiter and however their accesses interleave, spurious failures of the exchange
-- included: if the counter is the number of threads with a slot and at most the cap, it stays so.
pub Reach-IsExact : (max : ℕ) (s u : Shared) → IsExact max s → Reach max s u → IsExact max u
Reach-IsExact max s u h here = h
Reach-IsExact max s u h (next {u = v} reached step) =
    Step-IsExact max v u step (Reach-IsExact max s v h reached)
