-- ===== src/Metrics/Exposition.antt =====
-- `Histogram::write` and `Registry::expose` of src/metrics/registry.cpp. How a double and a number are printed is an
-- argument. The entries of a `std::map` come in the order of their keys.
pub mod Buckets
pub mod Tests
use kvmux.Prelude.{
  ℕ, ◌-◌, Bool, true, false, ◌||◌, List, [], ◌∷◌, ◌++◌, ltb, ◌==◌, if◌then◌else◌, length, take,
  drop, Bytes, codes, equal,
}
use kvmux.Prelude.Double.{Double}
use kvmux.Metrics.Histogram.{Histogram}
use kvmux.Metrics.Series.{Labels, esc, label_str}
use kvmux.Metrics.Registry.{Registry}

-- `operator<` of strings, and of label sets.
unfoldable pub less : Bytes → Bytes → Bool
less [] [] = false
less [] (b ∷ bs) = true
less (a ∷ more) [] = false
less (a ∷ more) (b ∷ bs) = if ltb a b then true else if a == b then less more bs else false

abbrev pub less_labels : Labels → Labels → Bool
less_labels l o =
    if less l.route o.route
    then true
    else if less o.route l.route
    then false
    else if less l.backend o.backend
    then true
    else if less o.backend l.backend
    then false
    else less l.model o.model

-- The entries in the order of their keys.
unfoldable pub place {ℓ κ} :
    {K : Type ℓ} {V : Type κ} → (K → K → Bool) → K × V → List (K × V) → List (K × V)
place lt e [] = e ∷ []
place lt e (f ∷ fs) = let rest = place lt e fs in if lt f.0 e.0 then f ∷ rest else e ∷ f ∷ fs

unfoldable pub in_order {ℓ κ} :
    {K : Type ℓ} {V : Type κ} → (K → K → Bool) → List (K × V) → List (K × V)
unfolding place
in_order lt [] = []
in_order lt (e ∷ es) = place lt e (in_order lt es)

unfoldable pub each {ℓ} : {A : Type ℓ} → (A → Bytes) → List A → Bytes
each f [] = []
each f (x ∷ xs) = f x ++ each f xs

abbrev no_labels : Bytes → Bool
no_labels s = equal s [] || equal s (codes "{}")

-- `label_str.substr(1, label_str.size() - 2)`
abbrev pub inner : Bytes → Bytes
inner s = take (length s - 2) (drop 1 s)

-- The lambda `with_le`.
unfoldable pub with_le : Bytes → Bytes → Bytes
with_le label_str le =
    if no_labels label_str
    then codes "{le=\"" ++ (le ++ codes "\"}")
    else codes "{" ++ (inner label_str ++ (codes ",le=\"" ++ (le ++ codes "\"}")))

abbrev space : Bytes
space = codes " "

abbrev newline : Bytes
newline = b'\n' ∷ []

module _ (fp : Double) (fmt_double : Double.Value fp → Bytes) (decimal : ℕ → Bytes) where
  abbrev pub bucket_line : Bytes → Bytes → Bytes → ℕ → Bytes
  bucket_line name label_str le count =
      name ++ (codes "_bucket" ++ (with_le label_str le ++ (space ++ (decimal count ++ newline))))

  -- The loop over the buckets; there are as many counts as bounds.
  unfoldable pub bucket_lines : Bytes → Bytes → List (Double.Value fp) → List ℕ → Bytes
  unfolding with_le
  bucket_lines name label_str (b ∷ bs) (c ∷ cs) =
      bucket_line name label_str (fmt_double b) c ++ bucket_lines name label_str bs cs
  bucket_lines name label_str _ _ = []

  unfoldable pub write : Bytes → Bytes → Histogram fp → Bytes
  unfolding bucket_lines
  write name label_str h =
      bucket_lines name label_str h.bounds h.counts
      ++ (bucket_line name label_str (codes "+Inf") h.total_count
          ++ (name
              ++ (codes "_sum" ++ (label_str ++ (space ++ (fmt_double h.sum ++ newline))))
              ++ (name
                  ++ (codes "_count"
                      ++ (label_str ++ (space ++ (decimal h.total_count ++ newline)))))))

  -- The two comment lines of a metric.
  abbrev pub heading : Bytes → Bytes → Bytes → Bytes
  heading name help type =
      codes "# HELP "
      ++ (name
          ++ (space
              ++ (help
                  ++ (newline ++ (codes "# TYPE " ++ (name ++ (space ++ (type ++ newline))))))))

  unfoldable pub hist_block : Bytes → Bytes → List (Labels × Histogram fp) → Bytes
  unfolding write in_order each
  hist_block name help m =
      heading name help (codes "histogram")
      ++ each (λ e. write name (label_str e.0) e.1) (in_order less_labels m)

  abbrev pub gauge : Bytes → Bytes → ℕ → Bytes
  gauge name help v =
      heading name help (codes "gauge") ++ (name ++ (space ++ (decimal v ++ newline)))

  unfoldable pub counters : Bytes → Bytes → List (Labels × ℕ) → Bytes
  unfolding in_order each
  counters name help m =
      heading name help (codes "counter")
      ++ each (λ e. name ++ (label_str e.0 ++ (space ++ (decimal e.1 ++ newline))))
          (in_order less_labels m)

  unfoldable pub totals : List (Bytes × ℕ) → Bytes
  unfolding in_order each
  totals m =
      heading (codes "kvmux:requests_total") (codes "Completed requests by HTTP status code.")
        (codes "counter")
      ++ each
          (λ e.
            codes "kvmux:requests_total{code=\""
            ++ (esc e.0 ++ (codes "\"} " ++ (decimal e.1 ++ newline))))
          (in_order less m)

  unfoldable pub expose : Registry fp → Bytes
  unfolding hist_block counters totals
  expose r =
      hist_block (codes "kvmux:ttft_seconds") (codes "Time to first token, seconds.") r.ttft
      ++ (hist_block (codes "kvmux:inter_token_latency_seconds")
            (codes "Inter-token (time-per-output-token) latency, seconds.") r.itl
          ++ (hist_block (codes "kvmux:e2e_request_latency_seconds")
                (codes "End-to-end request latency, seconds.") r.e2e
              ++ (hist_block (codes "kvmux:request_queue_time_seconds")
                    (codes "Admission queue wait time, seconds.") r.queue
                  ++ (hist_block (codes "kvmux:gateway_overhead_seconds")
                        (codes
                          "Gateway self-overhead: admission to first upstream byte forwarded, seconds.")
                        r.overhead
                      ++ (gauge (codes "kvmux:requests_running") (codes "In-flight requests.")
                            r.requests_running
                          ++ (gauge (codes "kvmux:requests_waiting")
                                (codes "Requests waiting in the admission queue.")
                                r.requests_waiting
                              ++ (totals r.requests_total
                                  ++ (counters (codes "kvmux:affinity_spills_total")
                                        (codes "Prefix-affinity load-guard spill cascades.")
                                        r.affinity_spills
                                      ++ counters (codes "kvmux:backend_failures_total")
                                          (codes "Upstream request failures.")
                                          r.backend_failures))))))))
