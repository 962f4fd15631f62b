-- ===== src/Metrics/Registry/Cumulative.antt =====
-- Every series of a registry, whatever was recorded since it was made.
use mathlib.Core.Path.{subst}
use kvmux.Prelude.{
  All-weaken, ℕ, suc, ◌+◌, ◌^◌, ◌≤◌, ◌<◌, ◌≡◌, refl, sym, ap, ◌∙◌, Bool, List, [], ◌∷◌, ◌++◌, arith,
  either, length, All, length-append, Bytes,
}
use kvmux.Prelude.Double.{Double}
use kvmux.Metrics.Histogram.{Histogram, new, observe, observe_all}
use kvmux.Metrics.Histogram.Counts.{IsCumulative, IsAscending, observe_all-IsCumulative}
use kvmux.Metrics.Series.{Labels}
use kvmux.Metrics.Registry.{
  upsert, same_labels, Registry, observe_in, observe_ttft, observe_itl, observe_e2e,
  observe_queue_time, observe_overhead, inc_requests_total, inc_affinity_spills,
  inc_backend_failures, set_requests_running, set_requests_waiting,
}
use kvmux.Metrics.Registry.Fresh.{
  k_ttft_buckets, k_tpot_buckets, k_duration_buckets, k_ttft_buckets-IsAscending,
  k_tpot_buckets-IsAscending, k_duration_buckets-IsAscending,
}
use kvmux.Metrics.Registry.Fresh

upsert-All {ℓ κ ι} :
    {K : Type ℓ} {V : Type κ} {P Q : K × V → Type ι} (same : K → K → Bool) (k : K) (d : V)
    (f : V → V) (m : List (K × V))
    → ((x : K × V) → P x → Q x)
    → Q (k, f d)
    → ((j : K) (v : V) → P (j, v) → Q (j, f v))
    → All P m
    → All Q (upsert same k d f m)
unfolding upsert
upsert-All same k d f [] keep made changed h = (made, tt)
upsert-All {Q = Q} same k d f ((j, v) ∷ m) keep made changed (h, hs) =
    either (All Q) (same j k) (changed j v h, All-weaken m keep hs)
      (keep (j, v) h, upsert-All same k d f m keep made changed hs)

module _ (fp : Double) where
  abbrev Value : Type 0
  Value = Double.Value fp

  -- A call of one of the methods that the gateway records with.
  pub data Recording : Type 0 where
    observes_ttft observes_itl observes_e2e : Labels → Value → Recording
    observes_queue_time observes_overhead : Labels → Value → Recording
    counts_request : Bytes → Recording
    counts_spills counts_failures : Labels → ℕ → Recording
    sets_running sets_waiting : ℕ → Recording

  abbrev pub record_one : Registry fp → Recording → Registry fp
  record_one r (observes_ttft l v) = observe_ttft fp r l v
  record_one r (observes_itl l v) = observe_itl fp r l v
  record_one r (observes_e2e l v) = observe_e2e fp r l v
  record_one r (observes_queue_time l v) = observe_queue_time fp r l v
  record_one r (observes_overhead l v) = observe_overhead fp r l v
  record_one r (counts_request code) = inc_requests_total fp r code
  record_one r (counts_spills l n) = inc_affinity_spills fp r l n
  record_one r (counts_failures l n) = inc_backend_failures fp r l n
  record_one r (sets_running v) = set_requests_running fp r v
  record_one r (sets_waiting v) = set_requests_waiting fp r v

  pub record_all : Registry fp → List Recording → Registry fp
  record_all r [] = r
  record_all r (x ∷ xs) = record_all (record_one r x) xs

  observe_all-append :
      (h : Histogram fp) (vs : List Value) (v : Value)
      → observe_all fp h (vs ++ v ∷ []) ≡ observe fp (observe_all fp h vs) v
  unfolding observe_all
  observe_all-append h [] v = refl
  observe_all-append h (u ∷ vs) v = observe_all-append (observe fp h u) vs v

  -- A histogram that was new with these bounds and has seen at most so many values.
  abbrev Grown : List Value → ℕ → Labels × Histogram fp → Type 0
  Grown bs n x = (vs : List Value) × (length vs ≤ n) × (x.1 ≡ observe_all fp (new fp bs) vs)

  Grown-later :
      (bs : List Value) (n : ℕ) (x : Labels × Histogram fp) → Grown bs n x → Grown bs (suc n) x
  Grown-later bs n x (vs, few, e) = (vs, omega (arith, few), e)

  -- The series of one name with its buckets, as they are after at most so many calls.
  abbrev Sound : List Value → ℕ → List Value → List (Labels × Histogram fp) → Type 0
  Sound bs n buckets m = (buckets ≡ bs) × All (Grown bs n) m

  Sound-later :
      (bs : List Value) (n : ℕ) (buckets : List Value) (m : List (Labels × Histogram fp))
      → Sound bs n buckets m
      → Sound bs (suc n) buckets m
  Sound-later bs n buckets m (same, grown) = (same, All-weaken m (Grown-later bs n) grown)

  observe_in-Sound :
      (bs : List Value) (n : ℕ) (buckets : List Value) (l : Labels) (v : Value)
      (m : List (Labels × Histogram fp))
      → Sound bs n buckets m
      → Sound bs (suc n) buckets (observe_in fp buckets l v m)
  unfolding observe_in observe_all
  observe_in-Sound bs n buckets l v m (same, h) = (
    same,
    rw same (
        upsert-All {P = Grown bs n} {Q = Grown bs (suc n)} same_labels l (new fp bs)
          (λ h. observe fp h v) m (Grown-later bs n) (v ∷ [], omega arith, refl)
          (λ j x grown.
            let (vs, few, e) = grown in
            (
              vs ++ v ∷ [],
              omega (arith, few, length-append vs (v ∷ [])),
              ap (λ y. observe fp y v) e ∙ sym (observe_all-append (new fp bs) vs v),
            ))
          h),
  )

  -- A registry after at most so many calls.
  abbrev Inv : ℕ → Registry fp → Type 0
  Inv n r =
      Sound (k_ttft_buckets fp) n r.ttft_buckets r.ttft
      × Sound (k_tpot_buckets fp) n r.tpot_buckets r.itl
      × Sound (k_duration_buckets fp) n r.duration_buckets r.e2e
      × Sound (k_duration_buckets fp) n r.duration_buckets r.queue
      × Sound (k_duration_buckets fp) n r.duration_buckets r.overhead

  new-Inv : Inv 0 (Fresh.new fp)
  unfolding Fresh.new
  new-Inv = ((refl, tt), (refl, tt), (refl, tt), (refl, tt), (refl, tt))

  Inv-later : (n : ℕ) (r : Registry fp) → Inv n r → Inv (suc n) r
  Inv-later n r (ttft, itl, e2e, queue, overhead) = (
    Sound-later _ n _ r.ttft ttft,
    Sound-later _ n _ r.itl itl,
    Sound-later _ n _ r.e2e e2e,
    Sound-later _ n _ r.queue queue,
    Sound-later _ n _ r.overhead overhead,
  )

  record_one-Inv :
      (n : ℕ) (r : Registry fp) (x : Recording) → Inv n r → Inv (suc n) (record_one r x)
  unfolding observe_ttft observe_itl observe_e2e observe_queue_time observe_overhead
      inc_requests_total inc_affinity_spills inc_backend_failures set_requests_running
      set_requests_waiting
  record_one-Inv n r x inv =
      let (ttft, itl, e2e, queue, overhead) = Inv-later n r inv in
      let (ttft_now, itl_now, e2e_now, queue_now, overhead_now) = inv in
      elim x as (λ k. Inv (suc n) (record_one r k)) [
        | observes_ttft l v ↦
            (observe_in-Sound _ n _ l v r.ttft ttft_now, itl, e2e, queue, overhead)
        | observes_itl l v ↦ (ttft, observe_in-Sound _ n _ l v r.itl itl_now, e2e, queue, overhead)
        | observes_e2e l v ↦ (ttft, itl, observe_in-Sound _ n _ l v r.e2e e2e_now, queue, overhead)
        | observes_queue_time l v ↦
            (ttft, itl, e2e, observe_in-Sound _ n _ l v r.queue queue_now, overhead)
        | observes_overhead l v ↦
            (ttft, itl, e2e, queue, observe_in-Sound _ n _ l v r.overhead overhead_now)
        | counts_request code ↦ (ttft, itl, e2e, queue, overhead)
        | counts_spills l k ↦ (ttft, itl, e2e, queue, overhead)
        | counts_failures l k ↦ (ttft, itl, e2e, queue, overhead)
        | sets_running v ↦ (ttft, itl, e2e, queue, overhead)
        | sets_waiting v ↦ (ttft, itl, e2e, queue, overhead)
      ]

  record_all-Inv :
      (m n : ℕ) (r : Registry fp) (xs : List Recording)
      → n + length xs ≡ m
      → Inv n r
      → Inv m (record_all r xs)
  unfolding record_all
  record_all-Inv m n r [] e inv =
      let same : n ≡ m = omega (arith, e) in subst (λ k. Inv k r) same inv
  record_all-Inv m n r (x ∷ xs) e inv =
      record_all-Inv m (suc n) (record_one r x) xs (omega (arith, e)) (record_one-Inv n r x inv)

  -- The counts of a series ascend and none is above its total.
  abbrev pub Cumulative : Labels × Histogram fp → Type 0
  Cumulative x = IsCumulative x.1.counts x.1.total_count

  -- All series of a registry do so.
  abbrev pub AreCumulative : Registry fp → Type 0
  AreCumulative r =
      All Cumulative r.ttft
      × All Cumulative r.itl
      × All Cumulative r.e2e
      × All Cumulative r.queue
      × All Cumulative r.overhead

  Sound-Cumulative :
      (bs : List Value) (n : ℕ) (buckets : List Value) (m : List (Labels × Histogram fp))
      → IsAscending fp bs
      → n < 2 ^ 64
      → Sound bs n buckets m
      → All Cumulative m
  Sound-Cumulative bs n buckets m up few (same, grown) =
      All-weaken m
        (λ x h.
          let (vs, seen, e) = h in
          subst (λ y. IsCumulative y.counts y.total_count) (sym e)
            (observe_all-IsCumulative fp bs vs up (omega (arith, seen, few))))
        grown

  -- Whatever calls record in a new registry, in whatever order and under whatever labels, as long as they
  -- are fewer than `2 ^ 64`: in every series of each of the five histograms the counts ascend from bucket to
  -- bucket and none is above the total.
  pub record_all-AreCumulative :
      (xs : List Recording) → length xs < 2 ^ 64 → AreCumulative (record_all (Fresh.new fp) xs)
  record_all-AreCumulative xs few =
      let (ttft, itl, e2e, queue, overhead) =
        record_all-Inv (length xs) 0 (Fresh.new fp) xs (omega arith) new-Inv in
      let lasting = k_duration_buckets-IsAscending fp in
      (
        Sound-Cumulative _ _ _ _ (k_ttft_buckets-IsAscending fp) few ttft,
        Sound-Cumulative _ _ _ _ (k_tpot_buckets-IsAscending fp) few itl,
        Sound-Cumulative _ _ _ _ lasting few e2e,
        Sound-Cumulative _ _ _ _ lasting few queue,
        Sound-Cumulative _ _ _ _ lasting few overhead,
      )
