-- ===== src/Admission/Tests.antt =====
-- Concrete limiters and holders.
use kvmux.Prelude.{ℕ, ◌≡◌, refl, Bool, true, false, List, [], ◌∷◌, arith}
use kvmux.Admission.Limiter.{PerBackendLimiter, Round, took, acquire_loop, release}
use kvmux.Admission.Holder.{
  Op, resets, moves, assigns, run, step, reset, move_construct, move_assign, held_at,
}
use kvmux.Admission.Limiter.Threads.{
  outside, trying, holding, access, Shared, steps, Reach, here, next, count_held, IsExact,
  Reach-IsExact,
}
use kvmux.Admission.Holder.Once.{Released, run-Released}

abbrev busy : PerBackendLimiter
busy = record { max_in_flight = 4; active = 3 }

abbrev round : ℕ → Bool → Round
round actual spurious = record { actual = actual; spurious = spurious }

acquire_loop_retries : acquire_loop 4 3 (round 3 true ∷ round 2 false ∷ round 2 false ∷ []) ≡ took 2
unfolding acquire_loop
acquire_loop_retries = refl

abbrev moved : List Op
moved = moves 0 ∷ assigns 1 2 ∷ assigns 1 1 ∷ resets 1 ∷ resets 1 ∷ []

run-Released_example :
    Released release (busy, true ∷ true ∷ []) (run release (busy, true ∷ true ∷ []) moved)
unfolding step run reset move_construct move_assign held_at
run-Released_example = run-Released release (busy, true ∷ true ∷ []) moved (omega arith)

all_returned :
    (run release (busy, true ∷ true ∷ []) moved)
    ≡ (record busy { active = 1 }, false ∷ false ∷ false ∷ [])
unfolding step run reset move_construct move_assign held_at release
all_returned = refl

-- Two threads load the counter at once; the exchange of the second fails, as the first was before it.
abbrev both_outside : Shared
both_outside = record { active = 0; threads = outside ∷ outside ∷ [] }

abbrev one_in : Shared
one_in = record { active = 1; threads = holding ∷ trying 1 ∷ [] }

both_try : Reach 1 both_outside one_in
unfolding access
both_try =
    next
      (next (next (next here (steps 0 false outside refl refl)) (steps 1 false outside refl refl))
        (steps 0 false (trying 0) refl refl))
      (steps 1 false (trying 0) refl refl)

Reach-IsExact_example : IsExact 1 one_in
unfolding count_held
Reach-IsExact_example = Reach-IsExact 1 both_outside one_in (refl, omega arith) both_try
