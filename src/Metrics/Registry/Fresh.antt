-- ===== src/Metrics/Registry/Fresh.antt =====
-- The constructor of `Registry` in src/metrics/registry.cpp, with its bucket templates.
use kvmux.Prelude.{ℕ, ◌≤◌, List, [], ◌∷◌, map, arith}
use kvmux.Prelude.Double.{Double}
use kvmux.Metrics.Histogram.Counts.{IsAscending}
use kvmux.Metrics.Registry.{Registry}

-- The bounds of the buckets, in thousandths of a second.
abbrev ttft_thousandths : List ℕ
ttft_thousandths =
    1 ∷ 5 ∷ 10 ∷ 20 ∷ 40 ∷ 60 ∷ 80 ∷ 100 ∷ 250 ∷ 500 ∷ 750 ∷ 1000 ∷ 2500 ∷ 5000 ∷ 7500 ∷ 10000 ∷ []

abbrev tpot_thousandths : List ℕ
tpot_thousandths = 10 ∷ 25 ∷ 50 ∷ 75 ∷ 100 ∷ 150 ∷ 200 ∷ 300 ∷ 400 ∷ 500 ∷ 750 ∷ 1000 ∷ 2500 ∷ []

abbrev duration_thousandths : List ℕ
duration_thousandths =
    10 ∷ 20 ∷ 40 ∷ 80 ∷ 160 ∷ 320 ∷ 640 ∷ 1280 ∷ 2560 ∷ 5120 ∷ 10240 ∷ 20480 ∷ 40960 ∷ 81920 ∷ []

module _ (fp : Double) where
  -- `kTtftBuckets`, in seconds
  abbrev pub k_ttft_buckets : List (Double.Value fp)
  k_ttft_buckets = map fp.thousandths ttft_thousandths

  -- `kTpotBuckets`
  abbrev pub k_tpot_buckets : List (Double.Value fp)
  k_tpot_buckets = map fp.thousandths tpot_thousandths

  -- `kDurationBuckets`
  abbrev pub k_duration_buckets : List (Double.Value fp)
  k_duration_buckets = map fp.thousandths duration_thousandths

  unfoldable pub new : Registry fp
  new = record {
    ttft = [];
    itl = [];
    e2e = [];
    queue = [];
    overhead = [];
    requests_total = [];
    affinity_spills = [];
    backend_failures = [];
    requests_running = 0;
    requests_waiting = 0;
    ttft_buckets = k_ttft_buckets;
    tpot_buckets = k_tpot_buckets;
    duration_buckets = k_duration_buckets;
  }

  -- Numbers in ascending order.
  abbrev Ascends : List ℕ → Type 0
  Ascends [] = Unit
  Ascends (m ∷ []) = Unit
  Ascends (m ∷ (n ∷ ns)) = (m ≤ n) × Ascends (n ∷ ns)

  map-IsAscending : (ns : List ℕ) → Ascends ns → IsAscending fp (map fp.thousandths ns)
  map-IsAscending [] h = tt
  map-IsAscending (m ∷ []) h = tt
  map-IsAscending (m ∷ (n ∷ ns)) (h, hs) = (fp.thousandths_le m n h, map-IsAscending (n ∷ ns) hs)

  pub k_ttft_buckets-IsAscending : IsAscending fp k_ttft_buckets
  k_ttft_buckets-IsAscending = map-IsAscending ttft_thousandths (ground arith)

  pub k_tpot_buckets-IsAscending : IsAscending fp k_tpot_buckets
  k_tpot_buckets-IsAscending = map-IsAscending tpot_thousandths (ground arith)

  pub k_duration_buckets-IsAscending : IsAscending fp k_duration_buckets
  k_duration_buckets-IsAscending = map-IsAscending duration_thousandths (ground arith)
