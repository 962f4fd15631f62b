-- ===== src/Main/Graceful.antt =====
-- A shutdown: the signal, what the gateway still does, and the polls of the drainer.
use mathlib.Core.Path.{subst}
use kvmux.Prelude.{ℕ, zero, suc, ◌+◌, ◌≤◌, ◌<◌, ◌≡◌, refl, ◌∙◌, ◌≢◌, inl, inr, some, List, arith}
use kvmux.Health.Checker.Monitoring.{Loop}
use kvmux.Server.Gateway.Life.{Life, start, on_signal, Reach}
use kvmux.Server.Gateway.Life.Drained.{
  IsCounted, Reach-IsCounted, IsOver, IsOver-later, on_signal-IsOver, on_signal-IsCounted,
  Reach-trans,
}
use kvmux.Main.{drain, drain_window, poll_interval}
use kvmux.Main.Drain.{drain-Stops}

-- `before` is the gateway when the signal comes, and `lives k` at the drainer's poll `k`.
module _ (ms : List Loop) (before : Life) (lives : ℕ → Life) (running : Reach (start ms) before)
    (signalled : Reach (on_signal before) (lives 0))
    (goes_on : (k : ℕ) → Reach (lives k) (lives (k + 1))) where
  reached : (k : ℕ) → Reach (on_signal before) (lives k)
  reached zero = signalled
  reached (suc k) =
      let e : k + 1 ≡ suc k = omega arith in
      Reach-trans (reached k) (subst (λ n. Reach (lives k) (lives n)) e (goes_on k))

  counted : (k : ℕ) → IsCounted (lives k)
  counted k =
      Reach-IsCounted (on_signal before) (lives k)
        (on_signal-IsCounted before (Reach-IsCounted (start ms) before refl running)) (reached k)

-- A shutdown ends, with 301 polls at most if each comes 100 ms after the one before or later. No monitor
-- begins a probe and no chat is let in after the signal, and a chat runs at each poll but the last. Unless the 30 seconds were
-- gone at the last poll, no chat runs then, and none would ever after.
pub drain-IsOver :
    (made : ℕ) (now : ℕ → ℕ) (ms : List Loop) (before : Life) (lives : ℕ → Life)
    → made ≤ now 0
    → ((k : ℕ) → now k + poll_interval ≤ now (k + 1))
    → Reach (start ms) before
    → Reach (on_signal before) (lives 0)
    → ((k : ℕ) → Reach (lives k) (lives (k + 1)))
    → (stop : ℕ) × (drain made now (λ k. (lives k).in_flight) 301 ≡ some stop)
      × (stop ≤ 300)
      × ((k : ℕ) → IsOver before (lives k))
      × ((k : ℕ) → k < stop → (lives k).chats ≢ 0)
      × (now stop < made + drain_window
          → (later : Life) → Reach (lives stop) later
          → later.chats ≡ 0)
drain-IsOver made now ms before lives started advances running signalled goes_on =
    let at = counted ms before lives running signalled goes_on in
    let over = λ (k : ℕ).
      on_signal-IsOver before (lives k) (reached ms before lives running signalled goes_on k) in
    let (stop, found, near, stops) =
      drain-Stops made now (λ k. (lives k).in_flight) started advances in
    (
      stop,
      found,
      near,
      over,
      λ k early none_left. (stops.busy k (omega arith) early).0 (at k ∙ none_left),
      λ in_time later after. elim stops.over [
        | inl idle ↦
            let still = IsOver-later before (lives stop) later (over stop) after in
            omega (arith, idle, at stop, still)
        | inr late ↦ omega (arith, in_time, late)
      ],
    )
