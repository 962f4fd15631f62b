-- ===== src/Metrics/Registry/Tests.antt =====
-- A registry over natural numbers, with observations under two label sets.
use kvmux.Prelude.{◌≡◌, refl, List, [], ◌∷◌, arith, Bytes, codes, equal}
use kvmux.Metrics.Histogram.{new, observe_all}
use kvmux.Metrics.Histogram.Tests.{whole_numbers}
use kvmux.Metrics.Registry.Fresh
use kvmux.Metrics.Registry.Cumulative.{
  Recording, observes_ttft, observes_itl, observes_e2e, observes_queue_time, observes_overhead,
  counts_request, sets_running, record_all, AreCumulative, record_all-AreCumulative,
}
use kvmux.Metrics.Series.{Labels}
use kvmux.Metrics.Registry.{Registry, find_or, same_labels}
use kvmux.Metrics.Registry.Lookup.{Observations, under, observe_ttfts, observe_ttft-under}

abbrev labels : Bytes → Labels
labels backend = record { route = codes "chat_completions"; backend = backend; model = codes "m" }

abbrev empty : Registry whole_numbers
empty = record {
  ttft = [];
  itl = [];
  e2e = [];
  queue = [];
  overhead = [];
  requests_total = [];
  affinity_spills = [];
  backend_failures = [];
  requests_running = 0;
  requests_waiting = 0;
  ttft_buckets = 1 ∷ 5 ∷ [];
  tpot_buckets = 1 ∷ [];
  duration_buckets = 10 ∷ [];
}

abbrev seen : Observations whole_numbers
seen = (labels (codes "a"), 3) ∷ (labels (codes "b"), 9) ∷ (labels (codes "a"), 1) ∷ []

seen-under_a : under whole_numbers (labels (codes "a")) seen ≡ 3 ∷ 1 ∷ []
unfolding under same_labels equal
seen-under_a = refl

observe_ttft-under_example :
    find_or same_labels
      (labels (codes "a"))
      (new whole_numbers (1 ∷ 5 ∷ []))
      (observe_ttfts whole_numbers empty seen).ttft
    ≡ observe_all whole_numbers
        (find_or same_labels (labels (codes "a")) (new whole_numbers (1 ∷ 5 ∷ [])) [])
        (under whole_numbers (labels (codes "a")) seen)
observe_ttft-under_example = observe_ttft-under whole_numbers empty (labels (codes "a")) seen

-- A request's calls.
abbrev calls : List (Recording whole_numbers)
calls =
    observes_queue_time (labels []) 0
    ∷ sets_running 1
    ∷ observes_overhead (labels (codes "a")) 0
    ∷ observes_ttft (labels (codes "a")) 7
    ∷ observes_itl (labels (codes "a")) 1
    ∷ observes_ttft (labels (codes "a")) 2
    ∷ counts_request (codes "200")
    ∷ observes_e2e (labels (codes "a")) 9
    ∷ []

record_all-AreCumulative_example :
    AreCumulative whole_numbers (record_all whole_numbers (Fresh.new whole_numbers) calls)
record_all-AreCumulative_example = record_all-AreCumulative whole_numbers calls (omega arith)
