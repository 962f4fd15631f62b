-- ===== src/Server/Gateway/Eligible.antt =====
-- Which backends `handle_chat` gives to the policy.
use kvmux.Prelude.{
  suc, ◌+◌, ◌≡◌, refl, ap, inl, inr, true, some, List, [], ◌∷◌, ◌++◌, arith, Bool-cases, get_elem?,
  All, Bytes, equal, equal_iff, ℕ,
}
use kvmux.Health.Checker.{HealthState, healthy}
use kvmux.Routing.{Candidate}
use kvmux.Server.Gateway.{
  Backend, observed_health, serves, serving_from, backends_for_model, is_healthy, candidates_of,
}

-- The model is one of the list's names.
abbrev pub IsListed : Bytes → List Bytes → Type 0
IsListed model ms = (before : List Bytes) × (after : List Bytes) × (ms ≡ before ++ (model ∷ after))

serves-IsListed : (model : Bytes) (ms : List Bytes) → serves model ms ≡ true → IsListed model ms
unfolding serves
serves-IsListed model [] h = cc
serves-IsListed model (m ∷ ms) h = elim (Bool-cases (equal m model)) [
  | inl e ↦ ([], ms, ap (λ x. x ∷ ms) ((equal_iff m model).0 e))
  | inr e ↦
      let (before, after, split) = serves-IsListed model ms (rw e at h) in
      (m ∷ before, after, ap (◌∷◌ m) split)
]

-- What holds of a candidate: its index is a backend that serves the model, is healthy as observed, and
-- whose load it carries.
abbrev pub IsEligible : Bytes → List Backend → Candidate → Type 0
IsEligible model bs c =
    (b : Backend) × (get_elem? bs c.backend_index ≡ some b)
    × IsListed model b.models
    × (observed_health b ≡ healthy)
    × (c.active_requests ≡ b.limiter.active)
    × (c.max_in_flight ≡ b.limiter.max_in_flight)

-- An index into the whole list that serves the model.
abbrev IsServing : Bytes → List Backend → ℕ → Type 0
IsServing model bs i = (b : Backend) × (get_elem? bs i ≡ some b) × IsListed model b.models

healthy_of : (h : HealthState) → is_healthy h ≡ true → h ≡ healthy
healthy_of healthy e = refl
healthy_of _ e = cc

candidates-IsEligible :
    (model : Bytes) (bs : List Backend) (is : List ℕ)
    → All (IsServing model bs) is
    → All (IsEligible model bs) (candidates_of bs is)
unfolding candidates_of
candidates-IsEligible model bs [] h = tt
candidates-IsEligible model bs (i ∷ is) ((b, e, listed), hs) =
    let rest = candidates-IsEligible model bs is hs in
    elim (Bool-cases (is_healthy (observed_health b))) [
      | inl ok ↦
          rw (candidates_of, e, ok)
            ((b, e, listed, healthy_of (observed_health b) ok, refl, refl), rest)
      | inr ill ↦ rw (candidates_of, e, ill) rest
    ]

serving_from-IsServing :
    (model : Bytes) (whole : List Backend) (i : ℕ) (bs : List Backend)
    → ((k : ℕ) (b : Backend) → get_elem? bs k ≡ some b → get_elem? whole (i + k) ≡ some b)
    → All (IsServing model whole) (serving_from i model bs)
unfolding serving_from
serving_from-IsServing model whole i [] found = tt
serving_from-IsServing model whole i (b ∷ bs) found =
    let later : (k : ℕ) (b' : Backend)
        → get_elem? bs k ≡ some b'
        → get_elem? whole (i + 1 + k) ≡ some b' =
      λ k b' e. let shift : i + 1 + k ≡ i + suc k = omega arith in rw shift (found (suc k) b' e) in
    let rest = serving_from-IsServing model whole (i + 1) bs later in
    let here : i + 0 ≡ i = omega arith in
    elim (Bool-cases (serves model b.models)) [
      | inl e ↦
          rw (serving_from, e)
            ((b, rw here at (found 0 b refl), serves-IsListed model b.models e), rest)
      | inr e ↦ rw (serving_from, e) rest
    ]

-- Every candidate that the policy is given is a backend that serves the model asked for and is healthy,
-- with the load and the cap of that backend.
pub backends_for_model-IsEligible :
    (model : Bytes) (bs : List Backend)
    → All (IsEligible model bs) (candidates_of bs (backends_for_model bs model))
unfolding backends_for_model
backends_for_model-IsEligible model bs =
    candidates-IsEligible model bs (backends_for_model bs model) (
      serving_from-IsServing model bs 0 bs
        (λ k b e. let zero_plus : 0 + k ≡ k = omega arith in rw zero_plus e))
