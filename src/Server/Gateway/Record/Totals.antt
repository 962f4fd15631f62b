-- ===== src/Server/Gateway/Record/Totals.antt =====
-- Each request is counted once.
use kvmux.Prelude.{
  ℕ, ◌≡◌, refl, sym, ap, ◌∙◌, ◌≢◌, inl, inr, false, List, [], ◌∷◌, arith, ℕ_discrete, ◌==◌,
  Bool-cases, Bytes, equal, equal_iff,
}
use kvmux.Prelude.Double.{Double}
use kvmux.Metrics.Histogram.{bump}
use kvmux.Metrics.Registry.{
  Registry, find_or, upsert, inc_affinity_spills, inc_backend_failures, inc_requests_total,
  observe_e2e,
}
use kvmux.Metrics.Registry.Lookup.{find_or-upsert_same, find_or-upsert_other}
use kvmux.Server.Gateway.Chat.{Handled}
use kvmux.Server.Gateway.Record.{count_spills, count_failures, terminal, record_chat}

module _ (fp : Double) (decimal : ℕ → Bytes) where
  count_spills-totals :
      (model : Bytes) (spilled : List (Bytes × ℕ)) (r : Registry fp)
      → (count_spills fp decimal model spilled r).requests_total ≡ r.requests_total
  unfolding count_spills inc_affinity_spills
  count_spills-totals model [] r = refl
  count_spills-totals model ((backend, n) ∷ spilled) r = count_spills-totals model spilled _

  count_failures-totals :
      (model : Bytes) (failures : List Bytes) (r : Registry fp)
      → (count_failures fp decimal model failures r).requests_total ≡ r.requests_total
  unfolding count_failures inc_backend_failures
  count_failures-totals model [] r = refl
  count_failures-totals model (backend ∷ failures) r = count_failures-totals model failures _

  -- The count of requests that ended with a status.
  abbrev pub total_of : Registry fp → ℕ → ℕ
  total_of r code = find_or equal (decimal code) 0 r.requests_total

  module _ (r : Registry fp) (model : Bytes) (seconds : Double.Value fp) (h : Handled) where
    abbrev recorded : Registry fp
    recorded = record_chat fp decimal r model seconds h

    walked : Registry fp
    walked =
        count_failures fp decimal model h.walk_state.failures
          (count_spills fp decimal model h.walk_state.spilled r)

    walked-totals : walked.requests_total ≡ r.requests_total
    unfolding walked
    walked-totals =
        count_failures-totals model h.walk_state.failures _
        ∙ count_spills-totals model h.walk_state.spilled r

    uncounted : h.final_code ≡ 0 → recorded.requests_total ≡ r.requests_total
    unfolding record_chat terminal walked
    uncounted e = rw (terminal, e) walked-totals

    counted :
        h.final_code ≢ 0
        → recorded.requests_total ≡ upsert equal (decimal h.final_code) 0 bump r.requests_total
    unfolding record_chat terminal walked observe_e2e inc_requests_total
    counted some_code =
        let nonzero : (h.final_code == 0) ≡ false = ground arith in
        rw (terminal, nonzero) (ap (upsert equal (decimal h.final_code) 0 bump) walked-totals)

    -- A request that ends with a status is counted once under that status and under no other one, whatever
    -- spills and failures it had, if different statuses are printed differently; one without a
    -- status is not counted.
    pub record_chat-totals :
        ((a b : ℕ) → decimal a ≡ decimal b → a ≡ b)
        → (h.final_code ≢ 0
            → total_of (record_chat fp decimal r model seconds h) h.final_code
              ≡ bump (total_of r h.final_code))
          × ((code : ℕ)
              → code ≢ h.final_code
              → total_of (record_chat fp decimal r model seconds h) code ≡ total_of r code)
          × (h.final_code ≡ 0
              → (record_chat fp decimal r model seconds h).requests_total ≡ r.requests_total)
    record_chat-totals injective = (
      λ some_code.
          ap (find_or equal (decimal h.final_code) 0) (counted some_code)
          ∙ find_or-upsert_same equal equal_iff (decimal h.final_code) 0 bump r.requests_total,
      λ code differs. elim (ℕ_discrete h.final_code 0) [
        | yes e ↦ ap (find_or equal (decimal code) 0) (uncounted e)
        | no some_code ↦
            ap (find_or equal (decimal code) 0) (counted some_code)
            ∙ find_or-upsert_other equal equal_iff (decimal h.final_code) (decimal code) 0 bump
                r.requests_total (unequal code differs)
      ],
      uncounted,
    )
      where
        unequal :
            (code : ℕ) → code ≢ h.final_code → equal (decimal h.final_code) (decimal code) ≡ false
        unequal code differs = elim (Bool-cases (equal (decimal h.final_code) (decimal code))) [
          | inl e ↦
              elim (differs (
                sym (
                  injective h.final_code code
                    ((equal_iff (decimal h.final_code) (decimal code)).0 e)))) [ ]
          | inr e ↦ e
        ]
