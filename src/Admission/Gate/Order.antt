-- ===== src/Admission/Gate/Order.antt =====
-- Who gets a slot: the order of service, and what a request is told.
use kvmux.Prelude.{
  ℕ, ◌+◌, ◌-◌, ◌≤◌, ◌<◌, ◌≡◌, refl, ◌≢◌, ◌↔◌, ◌⊎◌, inl, inr, true, false, [], ◌∷◌, ◌++◌, arith,
  length,
}
use kvmux.Admission.Gate.{
  admitted, queue_full, GlobalGate, returned, waits, join, enter, erase_first, resume, World, start,
  wake, contains, Step, arrives, wakes, leaves, Reach,
}
use kvmux.Admission.Gate.Queue.{contains-ungranted, not_twice}
use kvmux.Admission.Gate.Invariant.{Inv, Reach-Inv}

-- What the arrival of a request may do.
pub data Arrival (g h : GlobalGate) : Type 0 where
  gets_slot :
      g.in_flight < g.max_concurrent
      → g.waiters ≡ []
      → h.waiters ≡ []
      → h.in_flight ≡ g.in_flight + 1
      → h.granted ≡ g.granted
      → Arrival g h
  turned_away :
      (g.waiters ≢ []) ⊎ (g.max_concurrent ≤ g.in_flight)
      → g.queue_depth ≤ length g.waiters
      → h ≡ g
      → Arrival g h
  joins :
      (i : ℕ)
      → (g.waiters ≢ []) ⊎ (g.max_concurrent ≤ g.in_flight)
      → length g.waiters < g.queue_depth
      → h.waiters ≡ g.waiters ++ i ∷ []
      → h.in_flight ≡ g.in_flight
      → h.granted i ≡ false
      → ((j : ℕ) → j ≢ i → h.granted j ≡ g.granted j)
      → Arrival g h

-- What the resumption of waiter `i` may do.
pub data Waking (i : ℕ) (g h : GlobalGate) : Type 0 where
  has_slot : g.granted i ≡ true → h ≡ g → Waking i g h
  gives_up :
      g.granted i ≡ false
      → h.waiters ≡ erase_first i g.waiters
      → h.in_flight ≡ g.in_flight
      → h.granted ≡ g.granted
      → Waking i g h

-- What the end of a ticket may do.
pub data Leaving (g h : GlobalGate) : Type 0 where
  hands_over :
      (i : ℕ)
      → g.waiters ≡ i ∷ h.waiters
      → h.in_flight ≡ g.in_flight
      → h.granted i ≡ true
      → ((j : ℕ) → j ≢ i → h.granted j ≡ g.granted j)
      → Leaving g h
  frees :
      g.waiters ≡ []
      → h.waiters ≡ []
      → h.in_flight ≡ g.in_flight - 1
      → h.granted ≡ g.granted
      → Leaving g h

-- A first-in first-out queue from which a waiter may also give up: what each step may do.
abbrev pub QueueMove : {w v : World} → Step w v → Type 0
QueueMove {w} {v} (arrives e) = Arrival w.gate v.gate
QueueMove {w} {v} (wakes i c e) = Waking i w.gate v.gate
QueueMove {w} {v} (leaves h e) = Leaving w.gate v.gate

-- The three ways through the first half of `acquire`, with the tests that lead there.
enter_cases :
    (g : GlobalGate)
    → ((enter g ≡ (record g { in_flight = g.in_flight + 1 }, returned admitted))
        × (g.waiters ≡ [])
        × (g.in_flight < g.max_concurrent))
      ⊎ ((enter g ≡ (g, returned queue_full))
          × ((g.waiters ≢ []) ⊎ (g.max_concurrent ≤ g.in_flight))
          × (g.queue_depth ≤ length g.waiters))
      ⊎ ((enter g ≡ (join g, waits g.next_waiter))
          × ((g.waiters ≢ []) ⊎ (g.max_concurrent ≤ g.in_flight))
          × (length g.waiters < g.queue_depth))
unfolding enter
enter_cases g = ground arith

-- What a newcomer is told, in a reachable world: it gets a slot at once exactly when a slot is free, it
-- is turned away only when every slot is taken and the queue is at its depth, and it never gets in
-- while someone waits.
pub enter_outcome :
    (ceiling depth : ℕ) {w : World}
    → Reach (start ceiling depth) w
    → (((enter w.gate).1 ≡ returned admitted) ↔ (w.gate.in_flight < ceiling))
      × ((enter w.gate).1 ≡ returned queue_full
          → (w.gate.in_flight ≡ ceiling) × (length w.gate.waiters ≡ depth))
      × (w.gate.waiters ≢ [] → (enter w.gate).1 ≢ returned admitted)
enter_outcome ceiling depth {w} r =
    let v = Reach-Inv ceiling depth r in
    elim (enter_cases w.gate) [
      | inl (e, idle, room) ↦
          rw e ((λ _. omega (arith, v.ceiling_is), λ _. refl), λ q. cc, λ h _. h idle)
      | inr (inl (e, shut, h)) ↦ rw e (
        (λ q. cc, λ room. absurd (busy v shut room)),
        λ _. (omega (arith, taken v shut), omega (arith, v.bounded, v.depth_is)),
        λ _ q. cc,
      )
      | inr (inr (e, shut, short)) ↦
          rw e ((λ q. cc, λ room. absurd (busy v shut room)), λ q. cc, λ _ q. cc)
    ]
  where
    taken :
        Inv ceiling depth w
        → (w.gate.waiters ≢ []) ⊎ (w.gate.max_concurrent ≤ w.gate.in_flight)
        → w.gate.in_flight ≡ ceiling
    taken v (inl h) = v.full h
    taken v (inr h) = omega (arith, v.within, v.ceiling_is)

    busy :
        Inv ceiling depth w
        → (w.gate.waiters ≢ []) ⊎ (w.gate.max_concurrent ≤ w.gate.in_flight)
        → w.gate.in_flight < ceiling
        → ⊥
    busy v shut room = omega (arith, taken v shut)

-- A coroutine that waits is told `Admitted` exactly when it has been granted a slot, even if its timer
-- ran out first. Told `QueueTimeout`, it was in the queue and is out of it, and the slots stay.
pub wake_outcome :
    (ceiling depth : ℕ) {w : World} (i : ℕ)
    → Reach (start ceiling depth) w
    → contains i w.suspended ≡ true
    → ((w.gate.granted i ≡ true)
        × ((wake w i).holders ≡ w.holders + 1)
        × ((wake w i).gate ≡ w.gate))
      ⊎ ((w.gate.granted i ≡ false)
          × ((wake w i).holders ≡ w.holders)
          × ((wake w i).gate.in_flight ≡ w.gate.in_flight)
          × (contains i w.gate.waiters ≡ true)
          × (contains i (wake w i).gate.waiters ≡ false))
unfolding wake resume
wake_outcome ceiling depth {w} i r c =
    let v = Reach-Inv ceiling depth r in
    ground (
      arith,
      contains-ungranted w.gate.granted i w.suspended c,
      not_twice w.gate.granted i 0 w.gate.next_waiter w.suspended v.ascends,
    )
