-- ===== src/Main/Drain.antt =====
-- The drain ends.
use kvmux.Prelude.{
  ℕ, zero, suc, ◌+◌, ◌*◌, ◌≤◌, ◌<◌, ◌≡◌, refl, ◌≢◌, ◌⊎◌, inl, inr, true, false, ◌||◌, some, arith,
  dec_le, leb, ◌==◌, Bool-cases,
}
use kvmux.Main.{poll, drain, drain_window, poll_interval}

-- The poll stops the io_context: no chat is in flight or the deadline has passed, and at none of the polls
-- from `k` on before it was that so.
pub record Stops (now in_flight : ℕ → ℕ) (deadline k stop : ℕ) : Type 0 where
  pub later : k ≤ stop
  pub over : (in_flight stop ≡ 0) ⊎ (deadline ≤ now stop)
  pub busy : (j : ℕ) → k ≤ j → j < stop → (in_flight j ≢ 0) × (now j < deadline)

over_now :
    (now in_flight : ℕ → ℕ) (deadline k : ℕ)
    → (in_flight k == 0 || leb deadline (now k)) ≡ true
    → Stops now in_flight deadline k k
over_now now in_flight deadline k e = record {
  later = omega arith;
  over = elim (Bool-cases (in_flight k == 0)) [
    | inl idle ↦ inl (ground arith)
    | inr chats ↦ inr (ground arith)
  ];
  busy = λ j a b. (λ z. omega arith, omega arith);
}

busy_before :
    (now in_flight : ℕ → ℕ) (deadline k stop : ℕ)
    → (in_flight k == 0 || leb deadline (now k)) ≡ false
    → Stops now in_flight deadline (k + 1) stop
    → Stops now in_flight deadline k stop
busy_before now in_flight deadline k stop e s = record {
  later = omega (arith, s.later);
  over = s.over;
  busy = λ j a b. elim (dec_le (k + 1) j) [
    | yes above ↦ s.busy j above b
    | no here ↦ let j_is : j ≡ k = omega arith in rw j_is ((λ z. ground arith), ground arith)
  ];
}

-- The clock moves by the interval of the timer at least, from each poll to the next.
module _ (now in_flight : ℕ → ℕ) (deadline : ℕ)
    (advances : (k : ℕ) → now k + poll_interval ≤ now (k + 1)) where
  poll-Stops :
      (k fuel : ℕ)
      → deadline ≤ now k + poll_interval * fuel
      → (stop : ℕ) × (poll now in_flight deadline k (suc fuel) ≡ some stop)
        × (stop ≤ k + fuel)
        × Stops now in_flight deadline k stop
  unfolding poll
  poll-Stops k zero h = elim (Bool-cases (in_flight k == 0 || leb deadline (now k))) [
    | inl e ↦ (k, rw (poll, e) refl, omega arith, over_now now in_flight deadline k e)
    | inr e ↦ ground arith
  ]
  poll-Stops k (suc fuel) h = elim (Bool-cases (in_flight k == 0 || leb deadline (now k))) [
    | inl e ↦ (k, rw (poll, e) refl, omega arith, over_now now in_flight deadline k e)
    | inr e ↦
        let (stop, found, near, stops) = poll-Stops (k + 1) fuel (omega (arith, h, advances k)) in
        (
          stop,
          rw (poll, e) found,
          omega (arith, near),
          busy_before now in_flight deadline k stop e stops,
        )
  ]

-- A drain ends, with 301 polls at most if each comes 100 ms after the one before or later: it stops the
-- io_context at the first poll that finds no chat in flight or 30 seconds gone since the drainer was made.
pub drain-Stops :
    (made : ℕ) (now in_flight : ℕ → ℕ)
    → made ≤ now 0
    → ((k : ℕ) → now k + poll_interval ≤ now (k + 1))
    → (stop : ℕ) × (drain made now in_flight 301 ≡ some stop)
      × (stop ≤ 300)
      × Stops now in_flight (made + drain_window) 0 stop
unfolding drain
drain-Stops made now in_flight before advances =
    poll-Stops now in_flight (made + drain_window) advances 0 300 (omega (arith, before))
