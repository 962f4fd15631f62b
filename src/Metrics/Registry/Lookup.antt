-- ===== src/Metrics/Registry/Lookup.antt =====
-- What a series of the registry holds.
use kvmux.Prelude.{
  ◌≡◌, refl, ap, ◌∙◌, ◌↔◌, inl, inr, Bool, true, false, List, [], ◌∷◌, arith, if◌then◌else◌,
  Bool-cases, equal, equal_iff,
}
use kvmux.Prelude.Double.{Double}
use kvmux.Metrics.Histogram.{Histogram, new, observe, observe_all}
use kvmux.Metrics.Series.{Labels}
use kvmux.Metrics.Registry.{upsert, find_or, same_labels, Registry, observe_in, observe_ttft}

pub same_labels_iff : (l l' : Labels) → (same_labels l l' ≡ true) ↔ (l ≡ l')
unfolding same_labels
same_labels_iff l l' = (
  λ h.
      let a : equal l.route l'.route ≡ true = ground arith in
      let b : equal l.backend l'.backend ≡ true = ground arith in
      let c : equal l.model l'.model ≡ true = ground arith in
      cc (
        (equal_iff l.route l'.route).0 a,
        (equal_iff l.backend l'.backend).0 b,
        (equal_iff l.model l'.model).0 c,
      ),
  λ e. rw⁻¹ e (
      rw
        (
          same_labels,
          (equal_iff l.route l.route).1 refl,
          (equal_iff l.backend l.backend).1 refl,
          (equal_iff l.model l.model).1 refl,
        )
        refl),
)

module _ {ℓ κ} {K : Type ℓ} {V : Type κ} (same : K → K → Bool)
    (same_iff : (a b : K) → (same a b ≡ true) ↔ (a ≡ b)) where
  pub find_or-upsert_same :
      (k : K) (d : V) (f : V → V) (m : List (K × V))
      → find_or same k d (upsert same k d f m) ≡ f (find_or same k d m)
  unfolding find_or upsert
  find_or-upsert_same k d f [] = rw ((same_iff k k).1 refl) refl
  find_or-upsert_same k d f ((k', v) ∷ m) = elim (Bool-cases (same k' k)) [
    | inl e ↦ rw (upsert, e, find_or, e) refl
    | inr e ↦ rw (upsert, e, find_or, e) (find_or-upsert_same k d f m)
  ]

  pub find_or-upsert_other :
      (k j : K) (d : V) (f : V → V) (m : List (K × V))
      → same k j ≡ false
      → find_or same j d (upsert same k d f m) ≡ find_or same j d m
  unfolding find_or upsert
  find_or-upsert_other k j d f [] h = rw h refl
  find_or-upsert_other k j d f ((k', v) ∷ m) h = elim (Bool-cases (same k' k)) [
    | inl e ↦
        let other : same k' j ≡ false = ap (λ x. same x j) ((same_iff k' k).0 e) ∙ h in
        rw (e, other) refl
    | inr e ↦ rw e (either_same (same k' j) v (find_or-upsert_other k j d f m h))
  ]
    where
      either_same :
          (t : Bool) (v : V) {x y : V} → x ≡ y → (if t then v else x) ≡ (if t then v else y)
      either_same true v e = refl
      either_same false v e = e

module _ (fp : Double) where
  -- Observations, each with its labels, oldest first.
  abbrev pub Observations : Type 0
  Observations = List (Labels × Double.Value fp)

  -- Those made under one label set.
  unfoldable pub under : Labels → Observations → List (Double.Value fp)
  under l [] = []
  under l ((k, v) ∷ obs) = if same_labels k l then v ∷ under l obs else under l obs

  pub observe_ttfts : Registry fp → Observations → Registry fp
  observe_ttfts r [] = r
  observe_ttfts r ((k, v) ∷ obs) = observe_ttfts (observe_ttft fp r k v) obs

  observe_in-same :
      (bs : List (Double.Value fp)) (k l : Labels) (v : Double.Value fp)
      (m : List (Labels × Histogram fp))
      → k ≡ l
      → find_or same_labels l (new fp bs) (observe_in fp bs k v m)
        ≡ observe fp (find_or same_labels l (new fp bs) m) v
  unfolding observe_in
  observe_in-same bs k l v m e =
      rw⁻¹ e (find_or-upsert_same same_labels same_labels_iff k (new fp bs) (λ h. observe fp h v) m)

  observe_in-other :
      (bs : List (Double.Value fp)) (k l : Labels) (v : Double.Value fp)
      (m : List (Labels × Histogram fp))
      → same_labels k l ≡ false
      → find_or same_labels l (new fp bs) (observe_in fp bs k v m)
        ≡ find_or same_labels l (new fp bs) m
  unfolding observe_in
  observe_in-other bs k l v m e =
      find_or-upsert_other same_labels same_labels_iff k l (new fp bs) (λ h. observe fp h v) m e

  -- After any observations of the time to first token, the series of a label set is the one it was, or a
  -- new histogram if there was none, with the observations made under those labels, in their order.
  pub observe_ttft-under :
      (r : Registry fp) (l : Labels) (obs : Observations)
      → find_or same_labels l (new fp r.ttft_buckets) (observe_ttfts r obs).ttft
        ≡ observe_all fp (find_or same_labels l (new fp r.ttft_buckets) r.ttft) (under l obs)
  unfolding observe_ttft observe_in observe_all observe_ttfts under
  observe_ttft-under r l [] = refl
  observe_ttft-under r l ((k, v) ∷ obs) =
      let later = observe_ttft-under (observe_ttft fp r k v) l obs in
      elim (Bool-cases (same_labels k l)) [
        | inl e ↦
            let one = observe_in-same r.ttft_buckets k l v r.ttft ((same_labels_iff k l).0 e) in
            rw e (later ∙ ap (λ h. observe_all fp h (under l obs)) one)
        | inr e ↦
            let none_of_l = observe_in-other r.ttft_buckets k l v r.ttft e in
            rw e (later ∙ ap (λ h. observe_all fp h (under l obs)) none_of_l)
      ]
