-- ===== src/Metrics/Histogram.antt =====
-- `Histogram` of src/metrics/registry.hpp and registry.cpp. A `uint64_t` counter wraps at `2 ^ 64`.
pub mod Counts
pub mod Tests
use kvmux.Prelude.{◌+◌, ◌%◌, ◌^◌, List, [], ◌∷◌, if◌then◌else◌, length, replicate, ℕ}
use kvmux.Prelude.Double.{Double}

abbrev pub bump : ℕ → ℕ
bump n = (n + 1) % 2 ^ 64

module _ (fp : Double) where
  pub record Histogram : Type 0 where
    pub bounds : List (Double.Value fp)
    pub counts : List ℕ
    pub total_count : ℕ
    pub sum : Double.Value fp

  abbrev pub new : List (Double.Value fp) → Histogram
  new upper_bounds = record {
    bounds = upper_bounds;
    counts = replicate (length upper_bounds) 0;
    total_count = 0;
    sum = fp.zero_value;
  }

  -- The loop of `observe`; there are as many counts as bounds.
  unfoldable pub count_in : List (Double.Value fp) → List ℕ → Double.Value fp → List ℕ
  count_in (b ∷ bs) (c ∷ cs) value = (if fp.le value b then bump c else c) ∷ count_in bs cs value
  count_in _ cs value = cs

  unfoldable pub observe : Histogram → Double.Value fp → Histogram
  unfolding count_in
  observe h value = record {
    bounds = h.bounds;
    counts = count_in h.bounds h.counts value;
    total_count = bump h.total_count;
    sum = fp.add h.sum value;
  }

  unfoldable pub observe_all : Histogram → List (Double.Value fp) → Histogram
  unfolding observe
  observe_all h [] = h
  observe_all h (v ∷ vs) = observe_all (observe h v) vs
