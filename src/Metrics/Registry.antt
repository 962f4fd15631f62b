-- ===== src/Metrics/Registry.antt =====
-- `Registry` of src/metrics/registry.hpp and registry.cpp. Each method holds the mutex throughout, so it
-- is one function. A `std::map` is a list of its entries in the order of first use.
pub mod Fresh
pub mod Lookup
pub mod Cumulative
pub mod Tests
use kvmux.Prelude.{◌+◌, ◌%◌, ◌^◌, Bool, ◌&&◌, List, [], ◌∷◌, if◌then◌else◌, Bytes, equal, ℕ}
use kvmux.Prelude.Double.{Double}
use kvmux.Metrics.Histogram.{bump, Histogram, new, observe}
use kvmux.Metrics.Series.{Labels}

-- The entry of a key, made from `d` if there is none, changed by `f`.
unfoldable pub upsert {ℓ κ} :
    {K : Type ℓ} {V : Type κ} (same : K → K → Bool) (k : K) (d : V) (f : V → V)
    → List (K × V)
    → List (K × V)
upsert same k d f [] = (k, f d) ∷ []
upsert same k d f ((k', v) ∷ m) =
    let rest = upsert same k d f m in if same k' k then (k', f v) ∷ m else (k', v) ∷ rest

pub find_or {ℓ κ} :
    {K : Type ℓ} {V : Type κ} (same : K → K → Bool) (k : K) (d : V) → List (K × V) → V
find_or same k d [] = d
find_or same k d ((k', v) ∷ m) = if same k' k then v else find_or same k d m

unfoldable pub same_labels : Labels → Labels → Bool
same_labels l l' = equal l.route l'.route && equal l.backend l'.backend && equal l.model l'.model

module _ (fp : Double) where
  pub record Registry : Type 0 where
    pub ttft : List (Labels × Histogram fp)
    pub itl : List (Labels × Histogram fp)
    pub e2e : List (Labels × Histogram fp)
    pub queue : List (Labels × Histogram fp)
    pub overhead : List (Labels × Histogram fp)
    pub requests_total : List (Bytes × ℕ)
    pub affinity_spills : List (Labels × ℕ)
    pub backend_failures : List (Labels × ℕ)
    pub requests_running : ℕ
    pub requests_waiting : ℕ
    pub ttft_buckets : List (Double.Value fp)
    pub tpot_buckets : List (Double.Value fp)
    pub duration_buckets : List (Double.Value fp)

  -- `hist_for(m, l, buckets).observe(seconds)`
  unfoldable pub observe_in :
      List (Double.Value fp)
      → Labels
      → Double.Value fp
      → List (Labels × Histogram fp)
      → List (Labels × Histogram fp)
  observe_in buckets l seconds m =
      upsert same_labels l (new fp buckets) (λ h. observe fp h seconds) m

  unfoldable pub observe_ttft : Registry → Labels → Double.Value fp → Registry
  observe_ttft r l seconds = record r { ttft = observe_in r.ttft_buckets l seconds r.ttft }

  unfoldable pub observe_itl : Registry → Labels → Double.Value fp → Registry
  observe_itl r l seconds = record r { itl = observe_in r.tpot_buckets l seconds r.itl }

  unfoldable pub observe_e2e : Registry → Labels → Double.Value fp → Registry
  observe_e2e r l seconds = record r { e2e = observe_in r.duration_buckets l seconds r.e2e }

  unfoldable pub observe_queue_time : Registry → Labels → Double.Value fp → Registry
  observe_queue_time r l seconds = record r {
    queue = observe_in r.duration_buckets l seconds r.queue;
  }

  unfoldable pub observe_overhead : Registry → Labels → Double.Value fp → Registry
  observe_overhead r l seconds = record r {
    overhead = observe_in r.duration_buckets l seconds r.overhead;
  }

  unfoldable pub inc_requests_total : Registry → Bytes → Registry
  inc_requests_total r code = record r {
    requests_total = upsert equal code 0 bump r.requests_total;
  }

  -- `n` is a number of spills, so the cast to `uint64_t` keeps it.
  unfoldable pub inc_affinity_spills : Registry → Labels → ℕ → Registry
  inc_affinity_spills r l n = record r {
    affinity_spills = upsert same_labels l 0 (λ c. (c + n) % 2 ^ 64) r.affinity_spills;
  }

  unfoldable pub inc_backend_failures : Registry → Labels → ℕ → Registry
  inc_backend_failures r l n = record r {
    backend_failures = upsert same_labels l 0 (λ c. (c + n) % 2 ^ 64) r.backend_failures;
  }

  unfoldable pub set_requests_running : Registry → ℕ → Registry
  set_requests_running r v = record r { requests_running = v }

  unfoldable pub set_requests_waiting : Registry → ℕ → Registry
  set_requests_waiting r v = record r { requests_waiting = v }
