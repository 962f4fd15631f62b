-- ===== src/Admission/Gate/Tests.antt =====
-- Runs of the gate on concrete worlds, with a ceiling of 1 and a queue of 2.
use kvmux.Prelude.{◌≡◌, refl, false, [], ◌∷◌, arith}
use kvmux.Admission.Gate.{
  queue_full, assign, returned, enter, World, start, arrive, leave, arrives, leaves, Reach, here,
  next,
}
use kvmux.Admission.Gate.Invariant.{Inv, Reach-Inv}

-- One holds the slot, two wait.
abbrev crowd : World
crowd = record {
  gate = record {
    max_concurrent = 1;
    queue_depth = 2;
    in_flight = 1;
    waiters = 0 ∷ 1 ∷ [];
    granted = assign (assign (λ _. false) 0 false) 1 false;
    next_waiter = 2;
  };
  suspended = 0 ∷ 1 ∷ [];
  holders = 1;
}

crowd_is : arrive (arrive (arrive (start 1 2))) ≡ crowd
unfolding arrive enter
crowd_is = refl

Reach-crowd : Reach (start 1 2) crowd
unfolding arrive enter
Reach-crowd = next (next (next here (arrives refl)) (arrives refl)) (arrives refl)

-- The ticket goes, and the first in the queue has its grant but has not resumed.
served : Reach (start 1 2) (leave crowd)
served = next Reach-crowd (leaves (omega arith) refl)

turned_away : (enter crowd.gate).1 ≡ returned queue_full
unfolding enter
turned_away = refl

Reach-Inv_example : Inv 1 2 (leave crowd)
Reach-Inv_example = Reach-Inv 1 2 served

-- One request came and went.
abbrev calm : World
calm = leave (arrive (start 1 2))

Reach-calm : Reach (start 1 2) calm
unfolding arrive enter
Reach-calm = next (next here (arrives refl)) (leaves (omega arith) refl)
