-- ===== src/Admission/Gate/Invariant.antt =====
-- What holds of the gate and the coroutines that use it, however their steps interleave.
use kvmux.Prelude.{
  ap, ◌∙◌, ℕ, ◌+◌, ◌≤◌, ◌<◌, ◌≡◌, refl, ◌≢◌, true, false, List, [], ◌∷◌, arith, length,
  length-append,
}
use kvmux.Admission.Gate.{
  assign, enter, resume, release, World, start, arrive, wake, leave, contains, Step, arrives, wakes,
  leaves, Reach, here, next,
}
use kvmux.Admission.Gate.Queue.{
  Ascends, ungranted, pending, Ascends-join, erase_first-Ascends, assign_above, ungranted-join,
  grant_first, erase_granted, erase_ungranted, length-erase_first,
}

pub record Inv (ceiling depth : ℕ) (w : World) : Type 0 where
  -- the constants of the gate
  pub ceiling_is : w.gate.max_concurrent ≡ ceiling
  pub depth_is : w.gate.queue_depth ≡ depth
  -- the queue is those who wait and have not been granted a slot, in order of arrival
  pub queue : w.gate.waiters ≡ ungranted w.gate.granted w.suspended
  pub ascends : Ascends 0 w.gate.next_waiter w.suspended
  pub bounded : length w.gate.waiters ≤ depth
  -- every slot counted is held by a ticket or granted to a coroutine that has yet to resume
  pub conserved : w.gate.in_flight ≡ w.holders + pending w.gate.granted w.suspended
  pub within : w.gate.in_flight ≤ ceiling
  -- nobody waits while a slot is free
  pub full : w.gate.waiters ≢ [] → w.gate.in_flight ≡ ceiling

start-Inv : (ceiling depth : ℕ) → Inv ceiling depth (start ceiling depth)
start-Inv ceiling depth = record {
  ceiling_is = refl;
  depth_is = refl;
  queue = refl;
  ascends = tt;
  bounded = omega arith;
  conserved = omega arith;
  within = omega arith;
  full = λ h. absurd (h refl);
}

module _ {ceiling depth : ℕ} where
  arrive-Inv : (w : World) → Inv ceiling depth w → Inv ceiling depth (arrive w)
  unfolding arrive enter
  arrive-Inv w v =
      let above =
        assign_above w.gate.granted w.gate.next_waiter false 0 w.gate.next_waiter w.suspended
          v.ascends (omega arith) in
      let joined =
        ungranted-join (assign w.gate.granted w.gate.next_waiter false) w.gate.next_waiter
          w.suspended (ground arith) in
      ground (
        arith,
        length-append w.gate.waiters (w.gate.next_waiter ∷ []),
        Ascends-join 0 w.gate.next_waiter w.suspended (omega arith) v.ascends,
        above,
        joined,
      )

  wake-Inv :
      (w : World) (i : ℕ)
      → contains i w.suspended ≡ true
      → Inv ceiling depth w
      → Inv ceiling depth (wake w i)
  unfolding wake resume
  wake-Inv w i c v = ground (
    arith,
    erase_granted w.gate.granted i w.suspended c,
    erase_ungranted w.gate.granted i w.suspended,
    erase_first-Ascends i 0 w.gate.next_waiter w.suspended v.ascends,
    length-erase_first i w.gate.waiters,
    v.full,
  )

  leave_to :
      (w : World) (ws : List ℕ)
      → w.gate.waiters ≡ ws
      → 0 < w.holders
      → Inv ceiling depth w
      → Inv ceiling depth (leave w)
  unfolding leave release
  leave_to w [] e h v = ground arith
  leave_to w (i ∷ is) e h v =
      ground (arith, grant_first w.gate.granted i is 0 w.gate.next_waiter w.suspended v.ascends)

  Step-Inv : {w v : World} → Step w v → Inv ceiling depth w → Inv ceiling depth v
  Step-Inv {w} (arrives e) v = rw e (arrive-Inv w v)
  Step-Inv {w} (wakes i c e) v = rw e (wake-Inv w i c v)
  Step-Inv {w} (leaves h e) v = rw e (leave_to w w.gate.waiters refl h v)

  Reach-keeps : {w v : World} → Inv ceiling depth w → Reach w v → Inv ceiling depth v
  Reach-keeps i here = i
  Reach-keeps i (next r s) = Step-Inv s (Reach-keeps i r)

-- However arrivals, timeouts, grants and releases interleave: the count of slots in flight is exactly
-- the tickets held plus the grants not yet taken up, it never exceeds the ceiling, no more than
-- `queue_depth` wait, the queue is those still waiting in order of arrival, and nobody waits unless
-- every slot is taken.
pub Reach-Inv :
    (ceiling depth : ℕ) {w : World} → Reach (start ceiling depth) w → Inv ceiling depth w
Reach-Inv ceiling depth r = Reach-keeps (start-Inv ceiling depth) r

abbrev pub Idle : World → Type 0
Idle w = (w.holders ≡ 0) × (pending w.gate.granted w.suspended ≡ 0)

-- With nobody in `acquire` and no ticket held, no slot is counted and nobody is in the queue.
pub Inv-unused :
    {ceiling depth : ℕ} {w : World}
    → Inv ceiling depth w
    → w.suspended ≡ []
    → w.holders ≡ 0
    → (w.gate.in_flight ≡ 0) × (w.gate.waiters ≡ [])
Inv-unused {w = w} v nobody none_held = (
  v.conserved ∙ ap (λ xs. w.holders + pending w.gate.granted xs) nobody ∙ omega (arith, none_held),
  v.queue ∙ ap (ungranted w.gate.granted) nobody,
)
