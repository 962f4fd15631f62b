-- ===== src/Server/Gateway/Concurrent/Tests.antt =====
-- Walks at the same time, and a walk as steps.
use kvmux.Prelude.{ℕ, zero, suc, ◌≡◌, refl, List, [], ◌∷◌}
use kvmux.Health.Breaker.{allow_request, on_failure}
use kvmux.Admission.Limiter.{try_acquire, release}
use kvmux.Admission.Gate.{contains, erase_first}
use kvmux.Server.Gateway.Attempt.{stream_attempt, stream_ending}
use kvmux.Upstream.Client.{stream_chat}
use kvmux.Server.Gateway.Walk.{
  map_from, walk, visit, admit, dispatch, conclude, attempt, record_spills,
}
use kvmux.Server.Gateway.Chat.{walk0}
use kvmux.Server.Gateway.Tests.{plain, pair, rounds, streaming}
use kvmux.Server.Gateway.Concurrent.{take_slot, begin, World, began, begins, Reach, here, next}
use kvmux.Server.Gateway.Concurrent.Slots.{AreCounted}
use kvmux.Server.Gateway.Concurrent.Start.{at_start, new-AreCounted}
use kvmux.Server.Gateway.Construct.Tests.{made, makes}
use kvmux.Metrics.Histogram.Tests.{whole_numbers}
use kvmux.Config.Ranges.{validate-IsValidConfig}
use kvmux.Config.Tests.{trees, small, loaded, small_loads}
use kvmux.Server.Gateway.Concurrent.Visits.{AreRuns, walk-Reach}

abbrev idle : World
idle = record { backends = pair; attempts = [] }

abbrev arrived : World → World
arrived w = began 0 w (begin 1 1 0 w.backends)

-- Two attempts at the backend of the small configuration.
new-AreCounted_example : AreCounted (arrived (arrived (at_start made)))
new-AreCounted_example =
    new-AreCounted whole_numbers loaded made (arrived (arrived (at_start made)))
      (validate-IsValidConfig whole_numbers trees small loaded refl refl small_loads) makes
      (next (next here (begins 1 1 0 refl)) (begins 1 1 0 refl))

two_run : (arrived (arrived (at_start made))).attempts ≡ 0 ∷ 0 ∷ []
unfolding begin take_slot allow_request try_acquire
two_run = refl

-- The attempt of each position is the only one that runs.
abbrev running : ℕ → List ℕ
running zero = 0 ∷ []
running (suc n) = 1 ∷ []

alone : AreRuns plain streaming rounds running 0 (0 ∷ 1 ∷ []) (walk0 pair) []
unfolding AreRuns begin take_slot map_from allow_request try_acquire contains erase_first visit
    admit dispatch conclude attempt record_spills release stream_attempt stream_ending stream_chat
    on_failure
alone = (λ p e. (here, refl), (λ p e. (here, refl), tt))

walk-Reach_example :
    (after : List ℕ) × Reach idle (record {
      backends = (walk plain streaming rounds 0 (0 ∷ 1 ∷ []) (walk0 pair)).0.backends;
      attempts = after;
    })
walk-Reach_example = walk-Reach plain streaming rounds running 0 (0 ∷ 1 ∷ []) (walk0 pair) [] alone
